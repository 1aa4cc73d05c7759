-- ===== src/Loader/Image.antt =====
-- The memory that unpack_elf_to_paddr of src/common.c leaves, byte by byte, from the file alone.
pub mod Valid
pub mod Load
use se_l4_tools.Common.{
  ℕ, zero, suc, ◌+◌, ◌-◌, ◌*◌, ◌%◌, ◌^◌, ◌≤◌, ◌<◌, ◌≡◌, refl, sym, ap, ◌∙◌, fun_ext, arith, ◌==◌,
  ltb, ◌&&◌, if◌then◌else◌, Bool, true, false, Bool-cases, inl, inr, done,
}
use se_l4_tools.Memory.{Kernel, word_mod, Memory, IsBytes}
use se_l4_tools.Strops.Bytes.{within, Disjoint, fill_bytes_at, copy_bytes, copy_bytes_at}
use se_l4_tools.Strops.{memset}
use se_l4_tools.Strops.Memset.{memset-fill_bytes}
use se_l4_tools.Elf.Format.{pt_load}
use se_l4_tools.Elf.Generic
use se_l4_tools.Elf.Frame.{Agree, header_size, entry_size, table_at, num-lt}
use se_l4_tools.Elf.Frame.Headers.{HeadersAgree, area-HeadersAgree}
use se_l4_tools.Loader.{unpack_segment, unpack_segments, unpack_elf_to_paddr, bounds_or}
use se_l4_tools.Loader.Unpack.{unpack_segment-copy_bytes}

-- Where a segment goes, what is copied there and how much of it.
abbrev pub place : Kernel → ℕ → Memory → ℕ → ℕ → ℕ
place k offset m elf i =
    (Generic.get_program_header_vaddr k m elf i % word_mod k + offset) % word_mod k

abbrev pub origin : Kernel → Memory → ℕ → ℕ → ℕ
origin k m elf i = (elf + Generic.get_program_header_offset k m elf i % word_mod k) % word_mod k

abbrev pub bytes_of : Kernel → Memory → ℕ → ℕ → ℕ
bytes_of k m elf i = Generic.get_program_header_file_size k m elf i % word_mod k

abbrev pub is_loaded : Kernel → Memory → ℕ → ℕ → Bool
is_loaded k m elf i = Generic.get_program_header_type k m elf i == pt_load

-- The byte at `q` behind the first `n` segments, over the memory `base`: it is from the last loadable
-- segment that reaches it.
unfoldable pub image : Kernel → ℕ → Memory → ℕ → Memory → ℕ → Memory
image k offset m elf base zero q = base q
image k offset m elf base (suc n) q =
    if is_loaded k m elf n && within (place k offset m elf n) (bytes_of k m elf n) q
    then m (origin k m elf n + (q - place k offset m elf n))
    else image k offset m elf base n q

-- The file's headers and the segments' bytes in the file are apart from the area of the image, in which
-- the segments have their places.
pub record IsApart (k : Kernel) (offset : ℕ) (m : Memory) (elf dest size : ℕ) : Type 0 where
  pub header : Disjoint elf header_size dest size
  pub table :
      Disjoint
        (table_at k m elf)
        (Generic.get_num_program_headers k m elf * entry_size m elf)
        dest
        size
  pub source :
      (i : ℕ)
      → i < Generic.get_num_program_headers k m elf
      → is_loaded k m elf i ≡ true
      → Disjoint (origin k m elf i) (bytes_of k m elf i) dest size
  pub inside :
      (i : ℕ)
      → i < Generic.get_num_program_headers k m elf
      → is_loaded k m elf i ≡ true
      → 0 < bytes_of k m elf i
      → (dest ≤ place k offset m elf i)
        × (place k offset m elf i + bytes_of k m elf i ≤ dest + size)

-- The bytes outside an area.
abbrev pub AgreeOutside : Memory → Memory → ℕ → ℕ → Type 0
AgreeOutside m m' dest size = (q : ℕ) → within dest size q ≡ false → m q ≡ m' q

outside-Agree :
    (m m' : Memory) (dest size base n : ℕ)
    → AgreeOutside m m' dest size
    → Disjoint base n dest size
    → Agree m m' base n
outside-Agree m m' dest size base n h apart q low high = h q (ground arith)

module _ (k : Kernel) (offset : ℕ) (m : Memory) (elf dest size : ℕ) (hm : IsBytes m)
    (a : IsApart k offset m elf dest size) where
  abbrev count : ℕ
  count = Generic.get_num_program_headers k m elf

  same_headers : (m' : Memory) → AgreeOutside m m' dest size → HeadersAgree k m m' elf count
  same_headers m' h =
      area-HeadersAgree k m m' elf count (omega (arith, num-lt k m elf hm))
        (outside-Agree m m' dest size elf header_size h a.header)
        (outside-Agree m m' dest size (table_at k m elf) (count * entry_size m elf) h a.table)

  image-outside :
      (base : Memory) (n : ℕ)
      → n ≤ count
      → AgreeOutside m base dest size
      → AgreeOutside m (image k offset m elf base n) dest size
  unfolding image
  image-outside base zero le h q out = h q out
  image-outside base (suc n) le h q out = elim (Bool-cases (is_loaded k m elf n)) [
    | inl load ↦
        ground (arith, a.inside n (omega arith) load, image-outside base n (omega arith) h q out)
    | inr skip ↦ rw skip (image-outside base n (omega arith) h q out)
  ]

  apart_from_source :
      (i : ℕ)
      → i < count
      → is_loaded k m elf i ≡ true
      → Disjoint
          (place k offset m elf i)
          (bytes_of k m elf i)
          (origin k m elf i)
          (bytes_of k m elf i)
  apart_from_source i lt load = ground (arith, a.inside i lt load, a.source i lt load)

  -- A copied segment, read from the file as it was.
  copied :
      (m' : Memory) (i : ℕ)
      → i < count
      → is_loaded k m elf i ≡ true
      → IsBytes m'
      → AgreeOutside m m' dest size
      → copy_bytes m' (place k offset m elf i) (origin k m elf i) (bytes_of k m elf i) ≡ (λ q.
        if within (place k offset m elf i) (bytes_of k m elf i) q
        then m (origin k m elf i + (q - place k offset m elf i))
        else m' q)
  copied m' i lt load bytes h = fun_ext λ q.
      elim (Bool-cases (within (place k offset m elf i) (bytes_of k m elf i) q)) [
        | inl here ↦
            copy_bytes_at m' (place k offset m elf i) (origin k m elf i) (bytes_of k m elf i) q
              bytes (apart_from_source i lt load)
            ∙ rw here (
                sym (
                  h (origin k m elf i + (q - place k offset m elf i))
                    (ground (arith, a.source i lt load))))
        | inr elsewhere ↦
            copy_bytes_at m' (place k offset m elf i) (origin k m elf i) (bytes_of k m elf i) q
              bytes (apart_from_source i lt load)
            ∙ rw elsewhere refl
      ]

  segment-copied :
      (m' : Memory) (i : ℕ)
      → i < count
      → is_loaded k m elf i ≡ true
      → IsBytes m'
      → AgreeOutside m m' dest size
      → unpack_segment k elf offset i m'
        ≡ done (copy_bytes m' (place k offset m elf i) (origin k m elf i) (bytes_of k m elf i))
  segment-copied m' i lt load bytes h =
      let same = same_headers m' h in
      let apart = apart_from_source i lt load in
      let apart' = rw (same.vaddr i lt, same.file_size i lt, same.offset i lt) at apart in
      rw (same.vaddr i lt, same.file_size i lt, same.offset i lt)
        (unpack_segment-copy_bytes k elf offset i m' bytes (sym (same.type i lt) ∙ ground arith)
          apart')

  segment-skipped :
      (m' : Memory) (i : ℕ)
      → i < count
      → is_loaded k m elf i ≡ false
      → AgreeOutside m m' dest size
      → unpack_segment k elf offset i m' ≡ done m'
  unfolding unpack_segment
  segment-skipped m' i lt skip h =
      let same = same_headers m' h in
      let skip' : (Generic.get_program_header_type k m' elf i == pt_load) ≡ false =
        ground (arith, same.type i lt) in
      rw (skip', unpack_segment) refl

  image_loaded :
      (base : Memory) (i : ℕ)
      → is_loaded k m elf i ≡ true
      → image k offset m elf base (suc i) ≡ (λ q.
        if within (place k offset m elf i) (bytes_of k m elf i) q
        then m (origin k m elf i + (q - place k offset m elf i))
        else image k offset m elf base i q)
  unfolding image
  image_loaded base i load = fun_ext λ q. rw load refl

  image_skipped :
      (base : Memory) (i : ℕ)
      → is_loaded k m elf i ≡ false
      → image k offset m elf base (suc i) ≡ image k offset m elf base i
  unfolding image
  image_skipped base i skip = fun_ext λ q. rw skip refl

  -- One round, over the image of the segments before it.
  segment-image :
      (base : Memory) (i : ℕ)
      → i < count
      → IsBytes (image k offset m elf base i)
      → AgreeOutside m base dest size
      → unpack_segment k elf offset i (image k offset m elf base i)
        ≡ done (image k offset m elf base (suc i))
  segment-image base i lt bytes h =
      let before = image k offset m elf base i in
      let outside = image-outside base i (omega arith) h in
      elim (Bool-cases (is_loaded k m elf i)) [
        | inl load ↦
            segment-copied before i lt load bytes outside
            ∙ ap done (copied before i lt load bytes outside ∙ sym (image_loaded base i load))
        | inr skip ↦
            segment-skipped before i lt skip outside ∙ ap done (sym (image_skipped base i skip))
      ]

  image-IsBytes : (base : Memory) (n : ℕ) → IsBytes base → IsBytes (image k offset m elf base n)
  unfolding image
  image-IsBytes base zero hb q = hb q
  image-IsBytes base (suc n) hb q =
      elim (Bool-cases
        (is_loaded k m elf n && within (place k offset m elf n) (bytes_of k m elf n) q)) [
          | inl load ↦ rw load (hm (origin k m elf n + (q - place k offset m elf n)))
          | inr skip ↦ rw skip (image-IsBytes base n hb q)
        ]

  -- The loop, from the round at `i` on.
  segments-image :
      (base : Memory) (f i : ℕ)
      → i ≤ count
      → count < i + f
      → IsBytes base
      → AgreeOutside m base dest size
      → unpack_segments k f elf offset i (image k offset m elf base i)
        ≡ done (image k offset m elf base count)
  unfolding unpack_segments
  segments-image base zero i le enough hb h = absurd (omega arith)
  segments-image base (suc f) i le enough hb h =
      let before = image k offset m elf base i in
      let same = same_headers before (image-outside base i le h) in
      elim (Bool-cases (ltb i count)) [
        | inl more ↦
            let more' : ltb i (Generic.get_num_program_headers k before elf) ≡ true =
              rw same.count at more in
            let round = segment-image base i (ground arith) (image-IsBytes base i hb) h in
            let next : i + 1 ≡ suc i = omega arith in
            rw (more', unpack_segments, round, next)
              (segments-image base f (suc i) (ground arith) (omega arith) hb h)
        | inr over ↦
            let over' : ltb i (Generic.get_num_program_headers k before elf) ≡ false =
              rw same.count at over in
            rw (over', unpack_segments) (ap done (ap (image k offset m elf base) (ground arith)))
      ]

  -- The file's header is as it was.
  pub image-keeps_header :
      (base : Memory)
      → AgreeOutside m base dest size
      → Agree m (image k offset m elf base count) elf header_size
  image-keeps_header base h =
      outside-Agree m (image k offset m elf base count) dest size elf header_size
        (image-outside base count (omega arith) h) a.header

-- The area of the image, cleared.
abbrev pub cleared : Memory → ℕ → ℕ → Memory
cleared m dest size q = if within dest size q then 0 else m q

-- On bytes, for a file whose headers and segment data are apart from the area of the image, and whose
-- segments have their places in it: unpack_elf_to_paddr ends without an abort, and each byte of the
-- memory is then that of the last loadable segment that reaches it, read from the file as it was, 0
-- where none does in the area, and unchanged elsewhere.
pub unpack_elf_to_paddr-image :
    (k : Kernel) (junk : ℕ × ℕ) (elf dest_paddr : ℕ) (m : Memory)
    → IsBytes m
    → let bounds = bounds_or junk (Generic.get_memory_bounds k m elf false) in
      let size = (bounds.1 + 2 ^ 64 - bounds.0) % 2 ^ 64 % word_mod k in
      let offset = (dest_paddr + word_mod k - bounds.0 % word_mod k) % word_mod k in
      IsApart k offset m elf dest_paddr size
      → unpack_elf_to_paddr k junk elf dest_paddr m
        ≡ done (
            image k offset m elf
              (cleared m dest_paddr size)
              (Generic.get_num_program_headers k m elf))
unfolding unpack_elf_to_paddr image
unpack_elf_to_paddr-image k junk elf dest_paddr m h a =
    let bounds = bounds_or junk (Generic.get_memory_bounds k m elf false) in
    let size = (bounds.1 + 2 ^ 64 - bounds.0) % 2 ^ 64 % word_mod k in
    let offset = (dest_paddr + word_mod k - bounds.0 % word_mod k) % word_mod k in
    let clear : memset k m dest_paddr 0 size ≡ cleared m dest_paddr size =
      memset-fill_bytes k m dest_paddr 0 size ∙ fun_ext λ q. fill_bytes_at m dest_paddr 0 size q in
    rw clear (
      segments-image k offset m elf dest_paddr size h a (cleared m dest_paddr size) (2 ^ 16) 0
        (omega arith) (omega (arith, num-lt k m elf h)) (λ q. ground (arith, h q))
        (λ q out. rw out refl))
