-- ===== src/Strops/Memcpy/Returns.antt =====
-- memcpy returns whatever it is given, areas that overlap included.
use se_l4_tools.Common.{ℕ, zero, suc, ◌-◌, ◌≡◌, refl, ◌∙◌, ltb, inl, inr, Bool-cases, done}
use se_l4_tools.Memory.{Kernel, byte_per_word, Memory}
use se_l4_tools.Strops.{Copy, copy_unit, copy_head, copy_units, copy_tail, memcpy}
use se_l4_tools.Strops.Memcpy.{
  IsUnit, word-IsUnit, copy_unit-IsUnit, copy_units_more, copy_units_last, step,
}

copy_units-returns :
    (u : ℕ) (unit : IsUnit u) (f : ℕ) (r : Copy) → (r' : Copy) × (copy_units f u r ≡ done r')
unfolding copy_units
copy_units-returns u unit zero r = (r, refl)
copy_units-returns u unit (suc f) r = elim (Bool-cases (ltb (u - 1) r.n)) [
  | inl go ↦
      let (r', e) = copy_units-returns u unit f (step unit r) in
      (r', copy_units_more unit f r go ∙ e)
  | inr stop ↦ (r, copy_units_last unit f r stop)
]

-- memcpy returns for every pair of areas, also where they overlap: it never aborts.
pub memcpy-returns :
    (k : Kernel) (m : Memory) (dest src n : ℕ) → (m' : Memory) × (memcpy k m dest src n ≡ done m')
unfolding memcpy
memcpy-returns k m dest src n =
    let word = byte_per_word k in
    let u = copy_unit word src dest word in
    let start : Copy = record { memory = m; d = dest; s = src; n = n } in
    let head = copy_head n u start in
    let (r, e) =
      copy_units-returns u (copy_unit-IsUnit word src dest word (word-IsUnit k)) head.n head in
    ((copy_tail r.n r).memory, rw e refl)
