-- ===== src/CpioStrip/Header.antt =====
-- get_header of src/misc/cpio-strip.c finds the header again.
use native.Mathlib.Nat.{div-add-mod, mul-add-mod_self_left, mod-eq_of_lt}
use se_l4_tools.Common.{ℕ, ◌+◌, ◌-◌, ◌*◌, ◌/◌, ◌%◌, ◌^◌, ◌≤◌, ◌<◌, ◌≡◌, ◌∙◌, ap, arith, done}
use se_l4_tools.Memory.{Memory}
use se_l4_tools.CpioStrip.{Layout, get_header}

aligned_part : (h r a : ℕ) → h % a ≡ 0 → r < a → (h + r) % a ≡ r
aligned_part h r a e lt =
    let whole : a * (h / a) ≡ h = omega (arith, div-add-mod h a) in
    rw (← whole) (mul-add-mod_self_left a (h / a) r ∙ mod-eq_of_lt lt)

-- For a header and data that are both aligned, in the 64-bit address space, the data being at the first
-- aligned address behind the header and the file's name with its NUL: get_header finds the
-- header from the data and the name.
pub get_header-entry :
    (l : Layout) (strlen : Memory → ℕ → ℕ) (m : Memory) (header data_ptr filename : ℕ)
    → header % l.alignment ≡ 0
    → data_ptr % l.alignment ≡ 0
    → data_ptr < 2 ^ 64
    → header + l.header_size + strlen m filename + 1 ≤ data_ptr
    → data_ptr < header + l.header_size + strlen m filename + 1 + l.alignment
    → get_header l strlen m data_ptr filename ≡ done header
unfolding get_header
get_header-entry l strlen m header data_ptr filename e e' lt low high =
    let n = strlen m filename in
    let r = data_ptr - n - 1 - l.header_size - header in
    let p : (data_ptr + 3 * 2 ^ 64 - n % 2 ^ 64 - 1 - l.header_size % 2 ^ 64) % 2 ^ 64
        ≡ header + r =
      omega arith in
    rw (e', p, aligned_part header r l.alignment e (omega arith)) (ap done (omega arith))
