-- ===== src/Strops/Memcpy.antt =====
-- memcpy with its copy unit copies the same bytes as one byte after the other, and never meets
-- the default case of its switch.
pub mod Returns
use native.Mathlib.Nat.{le_refl}
use native.Mathlib.Numerals.{sub-one}
use se_l4_tools.Common.{
  ℕ, zero, suc, ◌+◌, ◌-◌, ◌*◌, ◌/◌, ◌%◌, ◌≤◌, ◌<◌, ◌≡◌, ◌≢◌, refl, sym, ap, ◌∙◌, ltb, ◌==◌, ◌||◌,
  inl, inr, true, false, Bool-cases, fun_ext, arith, ltb→lt, done,
}
use se_l4_tools.Memory.{
  Kernel, kernel_32, kernel_64, byte_per_word, Memory, IsBytes, store8, store, load, load_ext,
  store8-IsBytes,
}
use se_l4_tools.Strops.{
  Copy, copy_unit, copy_byte, copy_head, copy_one, copy_units, copy_tail, memcpy,
}
use se_l4_tools.Strops.Bytes.{copy_bytes, copy_bytes_split, Disjoint, copy_bytes-IsBytes}

-- Storing a loaded word copies its bytes.
store-load :
    (n : ℕ) (m : Memory) (d s : ℕ)
    → IsBytes m
    → Disjoint d n s n
    → store n m d (load n m s) ≡ copy_bytes m d s n
unfolding store load copy_bytes
store-load zero m d s h apart = refl
store-load (suc n) m d s h apart =
    let lo : (m s + 256 * load n m (s + 1)) / 256 ≡ load n m (s + 1) = omega (arith, h s) in
    let same : store8 m d (m s + 256 * load n m (s + 1)) ≡ store8 m d (m s) =
      fun_ext (λ q. unfold store8 in ground (arith, h s)) in
    let seen : load n m (s + 1) ≡ load n (store8 m d (m s)) (s + 1) =
      load_ext n m (store8 m d (m s)) (s + 1) (λ q a b. unfold store8 in ground arith) in
    rw (lo, same, seen)
      (store-load n (store8 m d (m s)) (d + 1) (s + 1) (store8-IsBytes m d (m s) h) (ground arith))

data IsUnit : ℕ → Type 0 where
  unit_1 : IsUnit 1
  unit_2 : IsUnit 2
  unit_4 : IsUnit 4
  unit_8 : IsUnit 8

word-IsUnit : (k : Kernel) → IsUnit (byte_per_word k)
word-IsUnit kernel_32 = unit_4
word-IsUnit kernel_64 = unit_8

IsUnit-pos : {u : ℕ} → IsUnit u → 0 < u
IsUnit-pos unit_1 = omega arith
IsUnit-pos unit_2 = omega arith
IsUnit-pos unit_4 = omega arith
IsUnit-pos unit_8 = omega arith

copy_unit-IsUnit : (f s d u : ℕ) → IsUnit u → IsUnit (copy_unit f s d u)
unfolding copy_unit
copy_unit-IsUnit zero s d u h = h
copy_unit-IsUnit (suc f) s d u h = elim (Bool-cases ((s % u == d % u) || (u == 1))) [
  | inl stop ↦ rw stop h
  | inr go ↦ rw go (copy_unit-IsUnit f s d (u / 2) (half h go))
]
  where
    half : {u : ℕ} → IsUnit u → ((s % u == d % u) || (u == 1)) ≡ false → IsUnit (u / 2)
    half unit_1 e = absurd (ground arith)
    half unit_2 e = unit_1
    half unit_4 e = unit_2
    half unit_8 e = unit_4

-- By the unit both addresses have one remainder, so the head loop aligns both of them.
copy_unit_aligned :
    (k : Kernel) (s d : ℕ)
    → let u = copy_unit (byte_per_word k) s d (byte_per_word k) in s % u ≡ d % u
unfolding copy_unit
copy_unit_aligned kernel_32 s d = ground arith
copy_unit_aligned kernel_64 s d = ground arith

copy_one_lem :
    {u : ℕ} (m : Memory) (d s : ℕ) → IsUnit u → copy_one u m d s ≡ done (store u m d (load u m s))
unfolding copy_one
copy_one_lem m d s unit_1 = refl
copy_one_lem m d s unit_2 = refl
copy_one_lem m d s unit_4 = refl
copy_one_lem m d s unit_8 = refl

-- What the loops have still to copy; no round changes it.
abbrev left : Copy → Memory
left r = copy_bytes r.memory r.d r.s r.n

record IsCopy (r : Copy) : Type 0 where
  bytes : IsBytes r.memory
  apart : Disjoint r.d r.n r.s r.n

copy_byte-left :
    (m : Memory) (d s n : ℕ)
    → n ≢ 0
    → copy_bytes (store8 m d (m s)) (d + 1) (s + 1) (n - 1) ≡ copy_bytes m d s n
unfolding copy_bytes
copy_byte-left m d s zero h = absurd (h refl)
copy_byte-left m d s (suc n) h = rw sub-one refl

copy_byte-IsCopy : (r : Copy) → r.n ≢ 0 → IsCopy r → IsCopy (copy_byte r)
unfolding copy_byte
copy_byte-IsCopy r h c = record {
  bytes = store8-IsBytes r.memory r.d (r.memory r.s) c.bytes;
  apart = ground (arith, c.apart);
}

-- What each loop keeps.
abbrev Keeps : Copy → Copy → Type 0
Keeps r r' = (left r' ≡ left r) × IsCopy r'

copy_head-Keeps : (f u : ℕ) (r : Copy) → IsCopy r → Keeps r (copy_head f u r)
unfolding copy_head
copy_head-Keeps zero u r c = (refl, c)
copy_head-Keeps (suc f) u r c = elim (Bool-cases (r.d % u == 0 || r.n == 0)) [
  | inl stop ↦ rw stop (refl, c)
  | inr go ↦
      let more : r.n ≢ 0 = ground arith in
      let ih = copy_head-Keeps f u (copy_byte r) (copy_byte-IsCopy r more c) in
      rw go (ih.0 ∙ unfold copy_byte in copy_byte-left r.memory r.d r.s r.n more, ih.1)
]

-- One unit at a time.
module _ {u : ℕ} (unit : IsUnit u) where
  step : Copy → Copy
  step r = record {
    memory = store u r.memory r.d (load u r.memory r.s);
    d = r.d + u;
    s = r.s + u;
    n = r.n - u;
  }

  step-Keeps : (r : Copy) → u ≤ r.n → IsCopy r → Keeps r (step r)
  unfolding step
  step-Keeps r fits c =
      let stored : store u r.memory r.d (load u r.memory r.s) ≡ copy_bytes r.memory r.d r.s u =
        store-load u r.memory r.d r.s c.bytes (ground (arith, c.apart)) in
      let whole : u + (r.n - u) ≡ r.n = omega arith in
      rw stored (
        sym (copy_bytes_split r.memory r.d r.s u (r.n - u))
            ∙ ap (copy_bytes r.memory r.d r.s) whole,
        record {
          bytes = copy_bytes-IsBytes r.memory r.d r.s u c.bytes;
          apart = ground (arith, c.apart);
        },
      )

  copy_units_more :
      (f : ℕ) (r : Copy) → ltb (u - 1) r.n ≡ true → copy_units (suc f) u r ≡ copy_units f u (step r)
  unfolding copy_units step
  copy_units_more f r go = ground (arith, copy_one_lem r.memory r.d r.s unit)

  copy_units_last : (f : ℕ) (r : Copy) → ltb (u - 1) r.n ≡ false → copy_units (suc f) u r ≡ done r
  unfolding copy_units
  copy_units_last f r stop = ground arith

  copy_units-Keeps :
      (f : ℕ) (r : Copy)
      → IsCopy r
      → r.n ≤ f
      → (r' : Copy) × (copy_units f u r ≡ done r') × Keeps r r' × (r'.n < u)
  unfolding copy_units step
  copy_units-Keeps zero r c fuel = (r, refl, (refl, c), omega (arith, IsUnit-pos unit))
  copy_units-Keeps (suc f) r c fuel = elim (Bool-cases (ltb (u - 1) r.n)) [
    | inl go ↦
        let (kept, c') = step-Keeps r (omega (arith, ltb→lt _ _ go)) c in
        let (r', e, (kept', c''), lt) =
          copy_units-Keeps f (step r) c' (omega (arith, IsUnit-pos unit, ltb→lt _ _ go)) in
        (r', copy_units_more f r go ∙ e, (kept' ∙ kept, c''), lt)
    | inr stop ↦ (r, copy_units_last f r stop, (refl, c), ground (arith, IsUnit-pos unit))
  ]

copy_tail-left : (f : ℕ) (r : Copy) → r.n ≤ f → (copy_tail f r).memory ≡ left r
unfolding copy_tail copy_byte
copy_tail-left zero r h = let e : r.n ≡ 0 = omega arith in rw e (unfold copy_bytes in refl)
copy_tail-left (suc f) r h = elim (Bool-cases (r.n == 0)) [
  | inl stop ↦ rw stop (let e : r.n ≡ 0 = ground arith in rw e (unfold copy_bytes in refl))
  | inr go ↦ rw go (
      copy_tail-left f (copy_byte r) (ground arith)
      ∙ copy_byte-left r.memory r.d r.s r.n (ground arith))
]

-- On areas that share no byte memcpy returns, having copied the `n` bytes from `src` to `dest`
-- and written nothing else, whatever the alignment of both and the size of the machine's words.
-- Memory holds bytes.
pub memcpy-copy_bytes :
    (k : Kernel) (m : Memory) (dest src n : ℕ)
    → IsBytes m
    → Disjoint dest n src n
    → memcpy k m dest src n ≡ done (copy_bytes m dest src n)
unfolding memcpy
memcpy-copy_bytes k m dest src n h apart =
    let word = byte_per_word k in
    let u = copy_unit word src dest word in
    let start : Copy = record { memory = m; d = dest; s = src; n = n } in
    let head = copy_head n u start in
    let unit = copy_unit-IsUnit word src dest word (word-IsUnit k) in
    let (kept, c) = copy_head-Keeps n u start (record { bytes = h; apart = apart }) in
    let (r, e, (kept', c'), lt) = copy_units-Keeps unit head.n head c (le_refl _) in
    rw e (ap done (copy_tail-left r.n r (le_refl _) ∙ kept' ∙ kept))
