-- ===== src/Smp/Moves/First.antt =====
-- The steps of the first core, and those of another that leave the memory, keep the invariant
-- (src/arch-arm/smp_boot.c and the init_cpus of the boards).
use se_l4_tools.Common.{
  ℕ, ◌+◌, ◌≤◌, ◌<◌, ◌≡◌, ◌≢◌, refl, sym, ap, ◌∙◌, arith, true, Bool-cases, inl, inr, ◌==◌,
}
use se_l4_tools.Smp.{
  target, context, mailbox_for, stack_given, is_core_up, Boot, bringing, calling, waiting, cpus_up,
  unlocked, boot_in_kernel, boot_aborted, Core, head, started, spinning, released, in_kernel,
  System, update,
}
use se_l4_tools.Smp.Steps.{Machine}
use se_l4_tools.Smp.Invariant.{Inv, InRange, seen_by, asked_by, lock_of, CoreInv}
use se_l4_tools.Smp.Moves.{boot_moves, lock_is_one, update-cores, context-stack}

module _ (m : Machine) (s : System) (inv : Inv m s) where
  pub place_stack-Inv :
      (i : ℕ)
      → s.boot ≡ bringing i
      → i < m.nodes
      → Inv m
          (record s { mailbox = mailbox_for m.board m.core_stacks i s.mailbox; boot = calling i })
  place_stack-Inv i b lt =
      let range = rw b at inv.range in
      let t = record s {
        mailbox = mailbox_for m.board m.core_stacks i s.mailbox;
        boot = calling i;
      } in
      record {
        range = (range.0, lt, range.2);
        lock = inv.lock ∙ ap lock_of b;
        confirmed = rw b at inv.confirmed;
        fresh = rw b at inv.fresh;
        placed = λ k e.
            let same : i ≡ k = cc in rw (← same) (context-stack m.board m.core_stacks i s.mailbox);
        cores = λ c.
            boot_moves m s t (λ j w. cc) (λ j. refl) (λ d. refl) (rw b (omega arith)) (λ h. h) c
              (s.core c) (inv.cores c);
      }

  pub power_on-Inv :
      (i : ℕ)
      → s.boot ≡ calling i
      → Inv m (record s {
        core = update s.core (target m.board i) (head (context m.board m.core_stacks i));
        boot = waiting i;
      })
  power_on-Inv i b =
      let range = rw b at inv.range in
      let changed = update s.core (target m.board i) (head (context m.board m.core_stacks i)) in
      let t = record s { core = changed; boot = waiting i } in
      let fresh = rw b at inv.fresh in
      record {
        range = range;
        lock = inv.lock ∙ ap lock_of b;
        confirmed = rw b at inv.confirmed;
        fresh = λ j h. fresh j (omega arith);
        placed = λ k e. cc;
        cores =
            update-cores (CoreInv m t) s.core (target m.board i) _
              (i, refl, refl, fresh i (omega arith), inv.placed i b)
              (λ c apart.
                boot_moves m s t (λ j w. cc) (λ j. refl) (λ d. refl) (rw b (omega arith)) (λ h. h) c
                  (s.core c) (inv.cores c));
      }

  -- A step of the first core alone, which leaves the memory and the lock.
  pub boot_only-Inv :
      (b : Boot)
      → InRange m b
      → lock_of b ≡ lock_of s.boot
      → ((j : ℕ) → 0 < j → j < seen_by m.nodes b → s.core_up j ≡ j)
      → asked_by m.nodes b ≡ asked_by m.nodes s.boot
      → ((i : ℕ) → b ≢ calling i)
      → ((j : ℕ) → s.boot ≡ waiting j → s.core_up j ≢ 0)
      → Inv m (record s { boot = b })
  boot_only-Inv b range lock confirmed asked not_calling none_waits = record {
    range = range;
    lock = inv.lock ∙ sym lock;
    confirmed = confirmed;
    fresh = λ j h. inv.fresh j (omega (arith, asked));
    placed = λ i e. absurd (not_calling i e);
    cores = λ c.
        boot_moves m s (record s { boot = b }) none_waits (λ j. refl) (λ d. refl)
          (omega (arith, asked)) (λ h. h) c (s.core c) (inv.cores c);
  }

  pub give_up-Inv : (i : ℕ) → s.boot ≡ calling i → Inv m (record s { boot = boot_aborted i })
  give_up-Inv i b =
      let range = rw b at inv.range in
      boot_only-Inv (boot_aborted i) range.0 (rw b refl) (rw b at inv.confirmed) (rw b refl)
        (λ k. cc) (λ j w. cc)

  pub see_up-Inv :
      (i : ℕ)
      → s.boot ≡ waiting i
      → is_core_up s.core_up i ≡ true
      → Inv m (record s { boot = bringing (i + 1) })
  unfolding is_core_up
  see_up-Inv i b up =
      let range = rw b at inv.range in
      let confirmed = rw b at inv.confirmed in
      boot_only-Inv (bringing (i + 1)) (omega arith, omega arith, range.2) (rw b refl)
        (λ j low high. elim (Bool-cases (j == i)) [
          | inl same ↦ ground arith
          | inr other ↦ confirmed j low (ground arith)
        ])
        (rw b refl) (λ k. cc) (λ j w. let same : i ≡ j = cc in ground arith)

  pub boot_enters-Inv : s.boot ≡ unlocked → Inv m (record s { boot = boot_in_kernel })
  boot_enters-Inv b =
      boot_only-Inv boot_in_kernel (rw b at inv.range) (rw b refl) (rw b at inv.confirmed)
        (rw b refl) (λ k. cc) (λ j w. cc)

  pub unlock-Inv : s.boot ≡ cpus_up → Inv m (record s { non_boot_lock = 1; boot = unlocked })
  unlock-Inv b =
      let t = record s { non_boot_lock = 1; boot = unlocked } in
      record {
        range = rw b at inv.range;
        lock = refl;
        confirmed = rw b at inv.confirmed;
        fresh = rw b at inv.fresh;
        placed = λ i e. cc;
        cores = λ c.
            boot_moves m s t (λ j w. cc) (λ j. refl) (λ d. refl) (rw b (omega arith)) (λ h. refl) c
              (s.core c) (inv.cores c);
      }

  -- A step of one core alone, which leaves the memory.
  pub core_only-Inv :
      (c : ℕ) (k : Core) → CoreInv m s c k → Inv m (record s { core = update s.core c k })
  core_only-Inv c k h = record {
    range = inv.range;
    lock = inv.lock;
    confirmed = inv.confirmed;
    fresh = inv.fresh;
    placed = inv.placed;
    cores = update-cores (CoreInv m s) s.core c k h (λ d apart. inv.cores d);
  }

  pub load_stack-Inv :
      (c x0 : ℕ)
      → s.core c ≡ head x0
      → Inv m (record s { core = update s.core c (started (stack_given m.board x0 s.mailbox)) })
  load_stack-Inv c x0 e = core_only-Inv c _ (rw e at (inv.cores c))

  pub leave-Inv :
      (c : ℕ)
      → s.core c ≡ spinning
      → s.non_boot_lock ≢ 0
      → Inv m (record s { core = update s.core c released })
  leave-Inv c e locked =
      core_only-Inv c released (rw e at (inv.cores c), lock_is_one s.boot inv.lock locked)

  pub core_enters-Inv :
      (c : ℕ) → s.core c ≡ released → Inv m (record s { core = update s.core c in_kernel })
  core_enters-Inv c e = core_only-Inv c in_kernel (rw e at (inv.cores c))

pub tpidr-Inv :
    (m : Machine) (s : System) (i : ℕ)
    → s.boot ≡ bringing i
    → Inv m s
    → Inv m (record s { boot_tpidr = 0 })
tpidr-Inv m s i b inv = record {
  range = inv.range;
  lock = inv.lock;
  confirmed = inv.confirmed;
  fresh = inv.fresh;
  placed = inv.placed;
  cores = λ c.
      boot_moves m s (record s { boot_tpidr = 0 }) (λ j w. cc) (λ j. refl) (λ d. refl) (omega arith)
        (λ h. h) c (s.core c) (inv.cores c);
}

pub all_up-Inv :
    (m : Machine) (s : System)
    → Inv m s
    → (i : ℕ) → s.boot ≡ bringing i
    → m.nodes ≤ i
    → Inv m (record s { boot_tpidr = 0; boot = cpus_up })
all_up-Inv m s inv i b h =
    let range = rw b at inv.range in
    let all : i ≡ m.nodes = omega arith in
    boot_only-Inv m (record s { boot_tpidr = 0 }) (tpidr-Inv m s i b inv) cpus_up range.2
      (rw b refl) (rw (b, all) at inv.confirmed) (rw b (sym all)) (λ k. cc) (λ j w. cc)
