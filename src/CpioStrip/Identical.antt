-- ===== src/CpioStrip/Identical.antt =====
-- What src/misc/cpio-strip.c is for: archives that differ in the stripped fields alone become identical.
use mathlib.Core.Option.{some}
use se_l4_tools.Common.{
  ℕ, zero, suc, ◌+◌, ◌%◌, ◌^◌, ◌≤◌, ◌<◌, ◌≡◌, ◌∙◌, refl, sym, ap, arith, fun_ext, ◌==◌, Bool, true,
  false, ◌||◌, if◌then◌else◌, Bool-cases, inl, inr, done,
}
use se_l4_tools.Memory.{Memory}
use se_l4_tools.Strops.Bytes.{within, fill_bytes, fill_bytes_at}
use se_l4_tools.CpioStrip.{
  Layout, written, snprintf_08x, strip_entry, locate, strip_entries, strip_counted, strip,
}

-- The bytes of an entry that are overwritten.
abbrev pub in_fields : Layout → ℕ → ℕ → Bool
in_fields l header q =
    within (header + l.c_ino) (written l.c_ino_size) q
    || within (header + l.c_uid) l.c_uid_size q
    || within (header + l.c_gid) l.c_gid_size q
    || within (header + l.c_mtime) l.c_mtime_size q

module _ (l : Layout) (header i : ℕ) where
  strip_entry_at :
      (a : Memory) (q : ℕ)
      → strip_entry l header i a q ≡ (
          if within (header + l.c_mtime) l.c_mtime_size q
          then 0
          else if within (header + l.c_gid) l.c_gid_size q
          then 0
          else if within (header + l.c_uid) l.c_uid_size q
          then 0
          else snprintf_08x a (header + l.c_ino) l.c_ino_size ((11 + i) % 2 ^ 32) q)
  unfolding strip_entry
  strip_entry_at a q =
      let with_ino = snprintf_08x a (header + l.c_ino) l.c_ino_size ((11 + i) % 2 ^ 32) in
      let with_uid = fill_bytes with_ino (header + l.c_uid) 0 l.c_uid_size in
      let with_gid = fill_bytes with_uid (header + l.c_gid) 0 l.c_gid_size in
      rw
        (
          fill_bytes_at with_gid (header + l.c_mtime) 0 l.c_mtime_size q,
          fill_bytes_at with_uid (header + l.c_gid) 0 l.c_gid_size q,
          fill_bytes_at with_ino (header + l.c_uid) 0 l.c_uid_size q,
        )
        refl

  strip_entry-outside :
      (a : Memory) (q : ℕ) → in_fields l header q ≡ false → strip_entry l header i a q ≡ a q
  strip_entry-outside a q out = strip_entry_at a q ∙ unfold snprintf_08x in ground (arith, out)

  strip_entry-inside :
      (a b : Memory) (q : ℕ)
      → in_fields l header q ≡ true
      → strip_entry l header i a q ≡ strip_entry l header i b q
  strip_entry-inside a b q here =
      rw (strip_entry_at a q, strip_entry_at b q) (unfold snprintf_08x in ground (arith, here))

module _ (l : Layout) (strlen : Memory → ℕ → ℕ) (cpio_info : Memory → ℕ × ℕ)
    (cpio_get_entry : Memory → ℕ → ℕ × ℕ × ℕ) where
  -- Memories that are the same outside the fields of the headers from `i` to `count`.
  abbrev pub SameFrom : (ℕ → ℕ) → ℕ → ℕ → Memory → Memory → Type 0
  SameFrom headers count i a b =
      (q : ℕ) → ((j : ℕ) → i ≤ j → j < count → in_fields l (headers j) q ≡ false) → a q ≡ b q

  -- The archive in `m` has entries with these headers, and libcpio finds them without a look at the
  -- fields that are stripped.
  pub record IsArchive (m : Memory) (headers : ℕ → ℕ) (count : ℕ) : Type 0 where
    pub counted : (a : Memory) → SameFrom headers count 0 m a → cpio_info a ≡ (0, count)
    pub located :
        (a : Memory)
        → SameFrom headers count 0 m a
        → (i : ℕ) → i < count
        → locate l strlen cpio_info cpio_get_entry a i ≡ done (some (headers i))

  module _ (headers : ℕ → ℕ) (count : ℕ) where
    still_same :
        (m a : Memory) (i : ℕ)
        → i < count
        → SameFrom headers count 0 m a
        → SameFrom headers count 0 m (strip_entry l (headers i) i a)
    still_same m a i lt same q out =
        same q out ∙ sym (strip_entry-outside l (headers i) i a q (out i (omega arith) lt))

    one_less :
        (a b : Memory) (i : ℕ)
        → i < count
        → SameFrom headers count i a b
        → SameFrom headers count
            (i + 1)
            (strip_entry l (headers i) i a)
            (strip_entry l (headers i) i b)
    one_less a b i lt same q out = elim (Bool-cases (in_fields l (headers i) q)) [
      | inl here ↦ strip_entry-inside l (headers i) i a b q here
      | inr elsewhere ↦
          let out' : (j : ℕ) → i ≤ j → j < count → in_fields l (headers j) q ≡ false = λ j low high.
            elim (Bool-cases (i == j)) [
              | inl e ↦ let same' : j ≡ i = ground arith in rw same' elsewhere
              | inr e ↦ out j (ground arith) high
            ] in
          strip_entry-outside l (headers i) i a q elsewhere
          ∙ same q out'
          ∙ sym (strip_entry-outside l (headers i) i b q elsewhere)
    ]

    -- The loop ends, on both in the same memory.
    entries-identical :
        (m : Memory) (left i : ℕ) (a b : Memory)
        → IsArchive m headers count
        → i + left ≡ count
        → SameFrom headers count 0 m a
        → SameFrom headers count 0 m b
        → SameFrom headers count i a b
        → (after : Memory) × (strip_entries l strlen cpio_info cpio_get_entry left i a
            ≡ done (true, after))
          × (strip_entries l strlen cpio_info cpio_get_entry left i b ≡ done (true, after))
    unfolding strip_entries
    entries-identical m zero i a b archive e ha hb same =
        let equal : b ≡ a = fun_ext λ q. sym (same q (λ j low high. absurd (omega arith))) in
        (a, refl, ap (λ (x : Memory). done (true, x)) equal)
    entries-identical m (suc left) i a b archive e ha hb same =
        let lt : i < count = omega arith in
        let (after, one, other) =
          entries-identical m left (i + 1) (strip_entry l (headers i) i a)
            (strip_entry l (headers i) i b) archive (omega arith) (still_same m a i lt ha)
            (still_same m b i lt hb) (one_less a b i lt same) in
        (after, rw (archive.located a ha i lt) one, rw (archive.located b hb i lt) other)

-- For an archive whose entries libcpio finds without a look at the stripped fields: it and any memory
-- that differs from it in these fields alone are stripped to the end, and to the same memory.
pub strip-identical :
    (l : Layout) (strlen : Memory → ℕ → ℕ) (cpio_info : Memory → ℕ × ℕ)
    (cpio_get_entry : Memory → ℕ → ℕ × ℕ × ℕ) (headers : ℕ → ℕ) (count : ℕ) (m m' : Memory)
    → IsArchive l strlen cpio_info cpio_get_entry m headers count
    → SameFrom l strlen cpio_info cpio_get_entry headers count 0 m m'
    → (after : Memory) × (strip l strlen cpio_info cpio_get_entry m ≡ done (true, after))
      × (strip l strlen cpio_info cpio_get_entry m' ≡ done (true, after))
unfolding strip strip_counted
strip-identical l strlen cpio_info cpio_get_entry headers count m m' archive same =
    let (after, one, other) =
      entries-identical l strlen cpio_info cpio_get_entry headers count m count 0 m m' archive
        (omega arith) (λ q out. refl) same same in
    (after, rw (archive.counted m (λ q out. refl)) one, rw (archive.counted m' same) other)
