-- ===== src/Smp/Order.antt =====
-- When another core enters the kernel (src/arch-arm/smp_boot.c with init_cpus of the boards).
use se_l4_tools.Common.{ℕ, ◌<◌, ◌≡◌, refl, arith, ◌∙◌, sym}
use se_l4_tools.Smp.{
  target, Boot, bringing, calling, waiting, cpus_up, unlocked, boot_in_kernel, boot_aborted, System,
  in_kernel, initial,
}
use se_l4_tools.Smp.Steps.{Machine, Reach, here, next}
use se_l4_tools.Smp.Invariant.{Inv, IsMachine, lock_of, seen_by, asked_by, initial-Inv}
use se_l4_tools.Smp.Keeps.{Step-Inv}

pub Reach-Inv : {m : Machine} {s t : System} → IsMachine m → Inv m s → Reach m s t → Inv m t
Reach-Inv ok inv here = inv
Reach-Inv ok inv (next r st) = Step-Inv ok st (Reach-Inv ok inv r)

-- With the lock open, init_cpus has seen all cores.
locked-seen : (n : ℕ) (b : Boot) → 1 ≡ lock_of b → (seen_by n b ≡ n) × (asked_by n b ≡ n)
locked-seen n (bringing i) e = absurd (omega (arith, e))
locked-seen n (calling i) e = absurd (omega (arith, e))
locked-seen n (waiting i) e = absurd (omega (arith, e))
locked-seen n cpus_up e = absurd (omega (arith, e))
locked-seen n unlocked e = (refl, refl)
locked-seen n boot_in_kernel e = (refl, refl)
locked-seen n (boot_aborted i) e = absurd (omega (arith, e))

-- For a machine of at least one core whose stacks fit the address space: in every state that the cores
-- reach in any order of their steps, a core that has entered the kernel runs under a logical number
-- above 0 and below the configured number of cores, it is the core that the board's table has
-- for that number, and each core with such a number has announced itself under its own number.
pub in_kernel-after_all :
    (m : Machine) (s : System)
    → IsMachine m
    → Reach m (initial m.board m.nodes) s
    → (c : ℕ) → s.core c ≡ in_kernel
    → (j : ℕ) → 0 < j
    → j < m.nodes
    → (0 < s.tpidr c) × (s.tpidr c < m.nodes) × (c ≡ target m.board (s.tpidr c)) × (s.core_up j ≡ j)
in_kernel-after_all m s ok reach c e j low high =
    let inv = Reach-Inv ok (initial-Inv m ok) reach in
    let core = rw e at (inv.cores c) in
    let all = locked-seen m.nodes s.boot (sym core.1 ∙ inv.lock) in
    (core.0.0, omega (arith, core.0.1, all.1), core.0.2, inv.confirmed j low (omega (arith, all.0)))
