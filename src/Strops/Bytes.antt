-- ===== src/Strops/Bytes.antt =====
-- What memset and memcpy are to do: fill or copy byte by byte.
use native.Mathlib.Nat.{zero-add, add-zero, suc-add}
use se_l4_tools.Common.{
  ℕ, zero, suc, ◌+◌, ◌-◌, ◌%◌, ◌≤◌, ◌≡◌, Bool, ltb, leb, ◌&&◌, ◌⊎◌, fun_ext, arith, if◌then◌else◌,
}
use se_l4_tools.Memory.{Memory, IsBytes, store8, store8-IsBytes}

unfoldable pub fill_bytes : Memory → ℕ → ℕ → ℕ → Memory
fill_bytes m p c zero = m
fill_bytes m p c (suc n) = fill_bytes (store8 m p c) (p + 1) c n

unfoldable pub copy_bytes : Memory → ℕ → ℕ → ℕ → Memory
copy_bytes m d s zero = m
copy_bytes m d s (suc n) = copy_bytes (store8 m d (m s)) (d + 1) (s + 1) n

-- `p` lies in the `n` bytes from `base`.
abbrev pub within : ℕ → ℕ → ℕ → Bool
within base n p = leb base p && ltb p (base + n)

-- Two areas share no byte, as `restrict` promises.
abbrev pub Disjoint : ℕ → ℕ → ℕ → ℕ → Type 0
Disjoint d n s n' = (d + n ≤ s) ⊎ (s + n' ≤ d)

pub fill_bytes_at :
    (m : Memory) (p c n q : ℕ) → fill_bytes m p c n q ≡ (if within p n q then c % 256 else m q)
unfolding fill_bytes store8
fill_bytes_at m p c zero q = ground arith
fill_bytes_at m p c (suc n) q = ground (arith, fill_bytes_at (store8 m p c) (p + 1) c n q)

pub fill_bytes-IsBytes : (m : Memory) (p c n : ℕ) → IsBytes m → IsBytes (fill_bytes m p c n)
fill_bytes-IsBytes m p c n h q = ground (arith, fill_bytes_at m p c n q, h q)

pub fill_bytes_split :
    (m : Memory) (p c a b : ℕ)
    → fill_bytes m p c (a + b) ≡ fill_bytes (fill_bytes m p c a) (p + a) c b
fill_bytes_split m p c a b = fun_ext λ q. ground (
  arith,
  fill_bytes_at m p c (a + b) q,
  fill_bytes_at (fill_bytes m p c a) (p + a) c b q,
  fill_bytes_at m p c a q,
)

pub copy_bytes_at :
    (m : Memory) (d s n q : ℕ)
    → IsBytes m
    → Disjoint d n s n
    → copy_bytes m d s n q ≡ (if within d n q then m (s + (q - d)) else m q)
unfolding copy_bytes store8
copy_bytes_at m d s zero q h apart = ground arith
copy_bytes_at m d s (suc n) q h apart =
    let ih =
      copy_bytes_at (store8 m d (m s)) (d + 1) (s + 1) n q (store8-IsBytes m d (m s) h)
        (ground arith) in
    ground (arith, ih, h s)

pub copy_bytes-IsBytes : (m : Memory) (d s n : ℕ) → IsBytes m → IsBytes (copy_bytes m d s n)
unfolding copy_bytes
copy_bytes-IsBytes m d s zero h = h
copy_bytes-IsBytes m d s (suc n) h =
    copy_bytes-IsBytes (store8 m d (m s)) (d + 1) (s + 1) n (store8-IsBytes m d (m s) h)

pub copy_bytes_split :
    (m : Memory) (d s a b : ℕ)
    → copy_bytes m d s (a + b) ≡ copy_bytes (copy_bytes m d s a) (d + a) (s + a) b
unfolding copy_bytes
copy_bytes_split m d s zero b = rw (zero-add, add-zero d, add-zero s)
copy_bytes_split m d s (suc a) b =
    let e : (x : ℕ) → x + 1 + a ≡ x + suc a = λ x. omega arith in
    rw (suc-add, ← e d, ← e s) (copy_bytes_split (store8 m d (m s)) (d + 1) (s + 1) a b)
