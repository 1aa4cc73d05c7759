-- ===== src/Smp/Registers/Started.antt =====
-- What init_cpus of src/plat/imx6/smp.c leaves in the registers of the System Reset Controller.
use se_l4_tools.Common.{
  ℕ, zero, suc, ◌+◌, ◌-◌, ◌*◌, ◌^◌, ◌≤◌, ◌<◌, ◌≡◌, ◌≢◌, refl, ap, arith, ◌∙◌, Bool, false,
  Bool-cases, inl, inr, ltb, if◌then◌else◌, ◌==◌, bit_or, bit_and, done,
}
use se_l4_tools.Mmu.Table.{Table, put}
use se_l4_tools.Smp.Registers.{
  scu_enable, scu_get_core_count, src_base, src_scr, src_gpr1, src_init, src_enable_cpu,
  src_set_cpu_jump, start_cpus, imx6_init_cpus,
}
use se_l4_tools.Smp.Registers.Bits.{bit, bit-bit_or, bit-pow, bit-small}

put_at : (r : Table) (a e p : ℕ) → a ≡ p → put r a e p ≡ e
unfolding put
put_at r a e p h = ground arith

put_beside : (r : Table) (a e p : ℕ) → a ≢ p → put r a e p ≡ r p
unfolding put
put_beside r a e p h = ground arith

abbrev one_more : ℕ → ℕ → Table → Table
one_more entry i r = src_enable_cpu i (src_set_cpu_jump i entry r)

one_more-jump : (entry i : ℕ) (r : Table) → one_more entry i r (src_base + src_gpr1 + i * 8) ≡ entry
unfolding src_enable_cpu src_set_cpu_jump
one_more-jump entry i r =
    put_beside _ (src_base + src_scr) _ (src_base + src_gpr1 + i * 8) (λ e. omega arith)
    ∙ put_at r (src_base + src_gpr1 + i * 8) entry _ refl

one_more-others :
    (entry i j : ℕ) (r : Table)
    → j < i
    → one_more entry i r (src_base + src_gpr1 + j * 8) ≡ r (src_base + src_gpr1 + j * 8)
unfolding src_enable_cpu src_set_cpu_jump
one_more-others entry i j r lt =
    put_beside _ (src_base + src_scr) _ (src_base + src_gpr1 + j * 8) (λ e. omega arith)
    ∙ put_beside r (src_base + src_gpr1 + i * 8) entry _ (λ e. omega arith)

one_more-scr :
    (entry i : ℕ) (r : Table) → one_more entry i r src_base ≡ bit_or (r src_base) (2 ^ (22 + i - 1))
unfolding src_enable_cpu src_set_cpu_jump
one_more-scr entry i r =
    put_at _ (src_base + src_scr) _ src_base refl
    ∙ ap (λ (x : ℕ). bit_or x (2 ^ (22 + i - 1)))
        (put_beside r (src_base + src_gpr1 + i * 8) entry src_base (λ e. omega arith))

-- The cores before the loop's counter keep their entry, and bits that are set stay.
start_cpus-kept :
    (entry left i j : ℕ) (r : Table)
    → j < i
    → (start_cpus entry left i r (src_base + src_gpr1 + j * 8) ≡ r (src_base + src_gpr1 + j * 8))
unfolding start_cpus
start_cpus-kept entry zero i j r lt = refl
start_cpus-kept entry (suc left) i j r lt =
    start_cpus-kept entry left (i + 1) j (one_more entry i r) (omega arith)
    ∙ one_more-others entry i j r lt

start_cpus-set :
    (entry left i b : ℕ) (r : Table)
    → bit b (r src_base) ≡ 1
    → bit b (start_cpus entry left i r src_base) ≡ 1
unfolding start_cpus
start_cpus-set entry zero i b r h = h
start_cpus-set entry (suc left) i b r h = start_cpus-set entry left (i + 1) b (one_more entry i r) (
    rw (one_more-scr entry i r, bit-bit_or b (r src_base) (2 ^ (22 + i - 1)), h)
      (omega (arith, bit-small b (2 ^ (22 + i - 1)))))

-- A core that the loop has started has its entry and its bit.
start_cpus-Started :
    (entry left i j : ℕ) (r : Table)
    → i ≤ j
    → j < i + left
    → (start_cpus entry left i r (src_base + src_gpr1 + j * 8) ≡ entry)
      × (bit (22 + j - 1) (start_cpus entry left i r src_base) ≡ 1)
unfolding start_cpus
start_cpus-Started entry zero i j r low high = absurd (omega arith)
start_cpus-Started entry (suc left) i j r low high = elim (Bool-cases (i == j)) [
  | inl same ↦
      let e : j ≡ i = ground arith in
      rw e (
        start_cpus-kept entry left (i + 1) i (one_more entry i r) (omega arith)
            ∙ one_more-jump entry i r,
        start_cpus-set entry left (i + 1) (22 + i - 1) (one_more entry i r) (
            rw
              (
                one_more-scr entry i r,
                bit-bit_or (22 + i - 1) (r src_base) (2 ^ (22 + i - 1)),
                bit-pow (22 + i - 1),
              )
              (omega (arith, bit-small (22 + i - 1) (r src_base)))),
      )
  | inr other ↦
      start_cpus-Started entry left (i + 1) j (one_more entry i r) (ground arith) (omega arith)
]

scu_enable-config :
    (errata : Bool) (cpuid scu_base : ℕ) (r : Table)
    → scu_enable errata cpuid scu_base r (scu_base + 4) ≡ r (scu_base + 4)
unfolding scu_enable put
scu_enable-config errata cpuid scu_base r = ground arith

src_init-others : (r : Table) (p : ℕ) → src_base ≢ p → src_init r p ≡ r p
unfolding src_init
src_init-others r p apart = put_beside r (src_base + src_scr) _ p apart

-- The number of cores is the configured one, where there are enough.
pub at_most {ℓ} :
    {A : Type ℓ} (num nodes : ℕ) (f : ℕ → A) (failed : A)
    → nodes ≤ num
    → (if ltb nodes num then f nodes else if ltb num nodes then failed else f num) ≡ f nodes
at_most num nodes f failed h = elim (Bool-cases (ltb nodes num)) [
  | inl more ↦ rw more refl
  | inr same ↦
      let e : num ≡ nodes = ground arith in
      let test : ltb num nodes ≡ false = ground arith in rw (same, test) (ap f e)
]

-- For a Snoop Control Unit whose configuration register is not the control register of the System Reset
-- Controller: where at least as many cores are present as configured, init_cpus of i.MX6 ends without
-- an abort, each core with a number above 0 and below the configured number has the loader's entry
-- in its register, and its enable bit is set.
pub imx6_init_cpus-Started :
    (errata : Bool) (cpuid scu_base imx_non_boot nodes : ℕ) (regs : Table) (j : ℕ)
    → src_base ≢ scu_base + 4
    → nodes ≤ scu_get_core_count scu_base regs
    → 0 < j
    → j < nodes
    → (after : Table) × (imx6_init_cpus errata cpuid scu_base imx_non_boot nodes regs ≡ done after)
      × (after (src_base + src_gpr1 + j * 8) ≡ imx_non_boot)
      × (bit (22 + j - 1) (after src_base) ≡ 1)
unfolding imx6_init_cpus scu_get_core_count
imx6_init_cpus-Started errata cpuid scu_base imx_non_boot nodes regs j apart enough low high =
    let ready = src_init (scu_enable errata cpuid scu_base regs) in
    let config : ready (scu_base + 4) ≡ regs (scu_base + 4) =
      src_init-others (scu_enable errata cpuid scu_base regs) (scu_base + 4) apart
      ∙ scu_enable-config errata cpuid scu_base regs in
    let started = start_cpus-Started imx_non_boot (nodes - 1) 1 j ready low (omega arith) in
    (
      start_cpus imx_non_boot (nodes - 1) 1 ready,
      rw config (
          at_most (bit_and (regs (scu_base + 4)) 3 + 1) nodes
            (λ n. done (start_cpus imx_non_boot (n - 1) 1 ready)) _ enough),
      started.0,
      started.1,
    )
