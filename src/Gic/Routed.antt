-- ===== src/Gic/Routed.antt =====
-- Which registers route_irqs_to_nonsecure sets (src/plat/tk1/platform_init.c,
-- src/plat/imx6/platform_init.c).
use se_l4_tools.Common.{
  ℕ, zero, suc, ◌+◌, ◌*◌, ◌/◌, ◌%◌, ◌^◌, ◌≤◌, ◌≡◌, refl, arith, ltb, leb, ◌&&◌, if◌then◌else◌,
  Bool-cases, inl, inr, ◌∙◌, bit_and, bit_and_mask,
}
use se_l4_tools.Mmu.Table.{Table, put}
use se_l4_tools.Gic.{Gicd, Gicc, number_of_irqs, set_each, route_irqs_to_nonsecure}

groups_of_32 :
    (nirqs c value fuel n : ℕ) (table : Table) (j : ℕ)
    → nirqs ≡ 32 * c
    → c ≤ n + fuel
    → set_each 32 nirqs value fuel (32 * n) table j
      ≡ (if leb n j && ltb j c then value else table j)
unfolding set_each put
groups_of_32 nirqs c value zero n table j e h = ground arith
groups_of_32 nirqs c value (suc fuel) n table j e h =
    let step : 32 * n + 32 ≡ 32 * (n + 1) = omega arith in
    let index : 32 * n / 32 ≡ n = omega arith in
    elim (Bool-cases (ltb (32 * n) nirqs)) [
      | inl more ↦
          rw (more, step, index)
            (groups_of_32 nirqs c value fuel (n + 1) (put table n value) j e (omega arith)
              ∙ ground arith)
      | inr last ↦ rw last (ground arith)
    ]

groups_of_4 :
    (nirqs c value fuel n : ℕ) (table : Table) (j : ℕ)
    → nirqs ≡ 4 * c
    → c ≤ n + fuel
    → set_each 4 nirqs value fuel (4 * n) table j ≡ (if leb n j && ltb j c then value else table j)
unfolding set_each put
groups_of_4 nirqs c value zero n table j e h = ground arith
groups_of_4 nirqs c value (suc fuel) n table j e h =
    let step : 4 * n + 4 ≡ 4 * (n + 1) = omega arith in
    let index : 4 * n / 4 ≡ n = omega arith in
    elim (Bool-cases (ltb (4 * n) nirqs)) [
      | inl more ↦
          rw (more, step, index)
            (groups_of_4 nirqs c value fuel (n + 1) (put table n value) j e (omega arith)
              ∙ ground arith)
      | inr last ↦ rw last (ground arith)
    ]

-- With L the low five bits of ic_type, route_irqs_to_nonsecure sets the first L + 1 words of security and
-- the first 8 * (L + 1) words of priority, and leaves all others. For L = 31 the last of these is
-- priority[255], behind the 255 words of the array.
pub route_irqs-Routed :
    (gicd : Gicd) (gicc : Gicc) (j : ℕ)
    → let lines = gicd.ic_type % 2 ^ 5 + 1 in
      let routed = (route_irqs_to_nonsecure gicd gicc).0 in
      (routed.security j ≡ (if ltb j lines then 0xffffffff else gicd.security j))
      × (routed.priority j ≡ (if ltb j (8 * lines) then 0x80808080 else gicd.priority j))
unfolding route_irqs_to_nonsecure number_of_irqs
route_irqs-Routed gicd gicc j =
    let lines = gicd.ic_type % 2 ^ 5 + 1 in
    let mask : bit_and gicd.ic_type 0x1f ≡ gicd.ic_type % 2 ^ 5 = bit_and_mask 5 gicd.ic_type in
    let first =
      groups_of_32 (32 * lines) lines 0xffffffff (32 * lines) 0 gicd.security j refl
        (omega arith) in
    let second =
      groups_of_4 (32 * lines) (8 * lines) 0x80808080 (32 * lines) 0 gicd.priority j (omega arith)
        (omega arith) in
    rw mask (first ∙ ground arith, second ∙ ground arith)
