-- ===== src/Smp/Progress/Rest.antt =====
-- From every state all cores can get into the kernel (src/arch-arm/smp_boot.c with init_cpus of the
-- boards).
use se_l4_tools.Common.{ℕ, zero, suc, ◌-◌, ◌<◌, ◌≡◌, ◌≢◌, refl, ap, ◌∙◌, arith}
use se_l4_tools.Smp.{
  target, Boot, waiting, boot_in_kernel, Core, off, head, started, spinning, released, in_kernel,
  System, update, initial,
}
use se_l4_tools.Smp.Steps.{Machine, Reach, here, next, leave, core_enters}
use se_l4_tools.Smp.Invariant.{IsMachine, CoreInv, lock_of}
use se_l4_tools.Smp.Moves.{update-same}
use se_l4_tools.Smp.Alive.{StartsCores, Good, initial-Good}
use se_l4_tools.Smp.Progress.{Leads, Reach-Good, then_leads, first_core}

-- The cores with the logical numbers from 1 to `n` are in the kernel.
unfoldable pub KernelCores : Machine → ℕ → System → Type 0
KernelCores m zero t = Unit
KernelCores m (suc n) t = (t.core (target m.board (suc n)) ≡ in_kernel) × KernelCores m n t

KernelCores-kept :
    (m : Machine) (n : ℕ) (t u : System)
    → ((d : ℕ) → t.core d ≡ in_kernel → u.core d ≡ in_kernel)
    → KernelCores m n t
    → KernelCores m n u
unfolding KernelCores
KernelCores-kept m zero t u keep h = tt
KernelCores-kept m (suc n) t u keep (e, h) = (keep _ e, KernelCores-kept m n t u keep h)

in_kernel-kept : (f : ℕ → Core) (c d : ℕ) → f d ≡ in_kernel → update f c in_kernel d ≡ in_kernel
unfolding update
in_kernel-kept f c d h = ground arith

in_kernel-kept_twice :
    (f : ℕ → Core) (c d : ℕ)
    → f d ≡ in_kernel
    → update (update f c released) c in_kernel d ≡ in_kernel
unfolding update
in_kernel-kept_twice f c d h = ground arith

-- The first core too.
abbrev pub AllInKernel : Machine → ℕ → System → Type 0
AllInKernel m n t = (t.boot ≡ boot_in_kernel) × KernelCores m n t

one_boot : {b : Boot} {j : ℕ} → b ≡ waiting j → b ≡ boot_in_kernel → ⊥
one_boot w k = cc

-- A core that gets into the kernel, while the first core and those that are there stay.
abbrev Entered : System → ℕ → System → Type 0
Entered s c t =
    (t.boot ≡ s.boot)
    × (t.core c ≡ in_kernel)
    × ((d : ℕ) → s.core d ≡ in_kernel → t.core d ≡ in_kernel)

module _ (m : Machine) (ok : IsMachine m) (st : StartsCores m) where
  one_core :
      (c : ℕ) (s : System)
      → Good m s
      → s.boot ≡ boot_in_kernel
      → (k : Core) → s.core c ≡ k
      → k ≢ off
      → CoreInv m s c k
      → Leads m s (Entered s c)
  one_core c s g b off e run h = absurd (run refl)
  one_core c s g b (head x0) e run (j, w, at, up, sp_at) = absurd (one_boot w b)
  one_core c s g b (started sp) e run (j, w, at, up, sp_at) = absurd (one_boot w b)
  one_core c s g b spinning e run h =
      let locked : s.non_boot_lock ≡ 1 = g.inv.lock ∙ ap lock_of b in
      (
        _,
        next (next here (leave c e (λ z. omega arith)))
            (core_enters c (update-same s.core c c released refl)),
        (refl, update-same _ c c in_kernel refl, in_kernel-kept_twice s.core c),
      )
  one_core c s g b released e run h = (
    _,
    next here (core_enters c e),
    (refl, update-same _ c c in_kernel refl, in_kernel-kept s.core c),
  )
  one_core c s g b in_kernel e run h = (s, here, (refl, e, λ d x. x))

  other_cores :
      (n : ℕ) (s : System)
      → n < m.nodes
      → Good m s
      → s.boot ≡ boot_in_kernel
      → Leads m s (AllInKernel m n)
  unfolding KernelCores
  other_cores zero s lt g b = (s, here, (b, tt))
  other_cores (suc n) s lt g b =
      then_leads m ok st s (AllInKernel m n) (AllInKernel m (suc n)) g
        (other_cores n s (omega arith) g b)
        (λ t good p.
          let c = target m.board (suc n) in
          let on = good.alive (suc n) (omega arith) (rw p.0 lt) in
          let entered = one_core c t good p.0 (t.core c) refl on (good.inv.cores c) in
          let u = entered.0 in
          let facts : Entered t c u = entered.2 in
          (u, entered.1, (facts.0 ∙ p.0, (facts.1, KernelCores-kept m n t u facts.2 p.1))))

-- For a machine of at least one core and no more than the board has, whose stacks fit the address
-- space, and a firmware that starts each core that is off: from every state that the cores reach in any
-- order of their steps, further steps lead to a state in which the first core and all others with
-- logical numbers below the configured number of cores are in the kernel.
pub AllInKernel-reachable :
    (m : Machine) (s : System)
    → IsMachine m
    → StartsCores m
    → Reach m (initial m.board m.nodes) s
    → Leads m s (AllInKernel m (m.nodes - 1))
AllInKernel-reachable m s ok st reach =
    let good = Reach-Good ok st reach (initial-Good m ok st) in
    then_leads m ok st s (λ t. t.boot ≡ boot_in_kernel) (AllInKernel m (m.nodes - 1)) good
      (first_core m ok st s.boot s good refl)
      (λ t g b. other_cores m ok st (m.nodes - 1) t (omega (arith, ok.one)) g b)
