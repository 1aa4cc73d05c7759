-- ===== src/Smp/Progress.antt =====
-- From every state the first core can get into the kernel (src/arch-arm/smp_boot.c with init_cpus of the
-- boards).
pub mod Rest
use se_l4_tools.Common.{ℕ, zero, suc, ◌+◌, ◌-◌, ◌<◌, ◌≡◌, ◌≢◌, refl, sym, ap, ◌∙◌, arith}
use mathlib.Core.Path.{subst}
use se_l4_tools.Smp.{
  target, context, mailbox_for, stack_given, is_core_up, Boot, bringing, calling, waiting, cpus_up,
  unlocked, boot_in_kernel, boot_aborted, Core, off, head, started, spinning, released, in_kernel,
  System, update, core_entry, initial,
}
use se_l4_tools.Smp.Steps.{
  Machine, Reach, here, next, place_stack, power_on, see_up, all_up, unlock, boot_enters,
  load_stack, announce, leave, core_enters,
}
use se_l4_tools.Smp.Invariant.{IsMachine, CoreInv, Numbered, asked_by, lock_of}
use se_l4_tools.Smp.Moves.{update-same}
use se_l4_tools.Smp.Alive.{
  StartsCores, Good, Step-Good, initial-Good, calling-off, target-injective,
}

pub Reach-Good :
    {m : Machine} {s t : System} → IsMachine m → StartsCores m → Reach m s t → Good m s → Good m t
Reach-Good ok st here g = g
Reach-Good ok st (next r p) g = Step-Good ok st p (Reach-Good ok st r g)

pub join : {m : Machine} {s t u : System} → Reach m s t → Reach m t u → Reach m s u
join r here = r
join r (next q p) = next (join r q) p

-- A state that can come next on a path, with what holds there.
abbrev pub Leads : Machine → System → (System → Type 0) → Type 0
Leads m s P = (t : System) × Reach m s t × P t

module _ (m : Machine) (ok : IsMachine m) (st : StartsCores m) where
  pub then_leads :
      (s : System) (P Q : System → Type 0)
      → Good m s
      → Leads m s P
      → ((t : System) → Good m t → P t → Leads m t Q)
      → Leads m s Q
  then_leads s P Q g (t, r, p) h =
      let rest = h t (Reach-Good ok st r g) p in (rest.0, join r rest.1, rest.2)

  abbrev BootAt : Boot → System → Type 0
  BootAt b t = t.boot ≡ b

  -- init_cpus goes on from a core that has announced itself.
  seen_numbered :
      (i : ℕ) (s : System)
      → Good m s
      → s.boot ≡ waiting i
      → Numbered m s (target m.board i)
      → Leads m s (BootAt (bringing (i + 1)))
  unfolding is_core_up
  seen_numbered i s g b (positive, low, at, own) =
      let range = rw b at g.inv.range in
      let few : s.tpidr (target m.board i) < i + 1 =
        subst (λ x. s.tpidr (target m.board i) < asked_by m.nodes x) b low in
      let same : i ≡ s.tpidr (target m.board i) =
        target-injective m.board i (s.tpidr (target m.board i)) (omega arith) (omega arith) at in
      let up : s.core_up i ≡ i = subst (λ x. s.core_up x ≡ x) (sym same) own in
      (_, next here (see_up i b (ground arith)), refl)

  seen_started :
      (i sp : ℕ) (s : System)
      → Good m s
      → s.boot ≡ waiting i
      → s.core (target m.board i) ≡ started sp
      → Leads m s (BootAt (bringing (i + 1)))
  unfolding core_entry
  seen_started i sp s g b e =
      let c = target m.board i in
      let step = announce c sp e in
      let good = Step-Good ok st step g in
      let t = core_entry m.core_stacks c sp s in
      let at : t.core c ≡ spinning = update-same s.core c c spinning refl in
      let rest = seen_numbered i t good b (rw at at (good.inv.cores c)) in
      (rest.0, join (next here step) rest.1, rest.2)

  seen_head :
      (i x0 : ℕ) (s : System)
      → Good m s
      → s.boot ≡ waiting i
      → s.core (target m.board i) ≡ head x0
      → Leads m s (BootAt (bringing (i + 1)))
  seen_head i x0 s g b e =
      let c = target m.board i in
      let step = load_stack c x0 e in
      let sp = stack_given m.board x0 s.mailbox in
      let t = record s { core = update s.core c (started sp) } in
      let rest =
        seen_started i sp t (Step-Good ok st step g) b (update-same s.core c c (started sp) refl) in
      (rest.0, join (next here step) rest.1, rest.2)

  seen :
      (i : ℕ) (s : System)
      → Good m s
      → s.boot ≡ waiting i
      → (k : Core) → s.core (target m.board i) ≡ k
      → Leads m s (BootAt (bringing (i + 1)))
  seen i s g b off e =
      let range = rw b at g.inv.range in absurd (g.alive i range.0 (rw b (omega arith)) e)
  seen i s g b (head x0) e = seen_head i x0 s g b e
  seen i s g b (started sp) e = seen_started i sp s g b e
  seen i s g b spinning e = seen_numbered i s g b (rw e at (g.inv.cores (target m.board i)))
  seen i s g b released e = seen_numbered i s g b (rw e at (g.inv.cores (target m.board i))).0
  seen i s g b in_kernel e = seen_numbered i s g b (rw e at (g.inv.cores (target m.board i))).0

  -- One round of the loop of init_cpus, and the rest of it.
  one_round :
      (i : ℕ) (s : System)
      → Good m s
      → s.boot ≡ bringing i
      → i < m.nodes
      → Leads m s (BootAt (bringing (i + 1)))
  one_round i s g b lt =
      let step = place_stack i b lt in
      let t = record s {
        mailbox = mailbox_for m.board m.core_stacks i s.mailbox;
        boot = calling i;
      } in
      let good = Step-Good ok st step g in
      let power = power_on i refl (st.starts t i (calling-off m t i good.inv refl)) in
      let u = record t {
        core = update t.core (target m.board i) (head (context m.board m.core_stacks i));
        boot = waiting i;
      } in
      let rest = seen i u (Step-Good ok st power good) refl (u.core (target m.board i)) refl in
      (rest.0, join (next (next here step) power) rest.1, rest.2)

  rounds :
      (left i : ℕ) (s : System)
      → Good m s
      → s.boot ≡ bringing i
      → i + left ≡ m.nodes
      → Leads m s (BootAt boot_in_kernel)
  rounds zero i s g b h =
      (_, next (next (next here (all_up i b (omega arith))) (unlock refl)) (boot_enters refl), refl)
  rounds (suc left) i s g b h =
      then_leads s (BootAt (bringing (i + 1))) (BootAt boot_in_kernel) g
        (one_round i s g b (omega arith)) (λ t good at. rounds left (i + 1) t good at (omega arith))

  -- The first core gets into the kernel.
  pub first_core :
      (b : Boot) (s : System) → Good m s → s.boot ≡ b → Leads m s (BootAt boot_in_kernel)
  first_core (bringing i) s g e =
      let range = rw e at g.inv.range in rounds (m.nodes - i) i s g e (omega arith)
  first_core (calling i) s g e =
      let range = rw e at g.inv.range in
      let step = power_on i e (st.starts s i (calling-off m s i g.inv e)) in
      let t = record s {
        core = update s.core (target m.board i) (head (context m.board m.core_stacks i));
        boot = waiting i;
      } in
      let good = Step-Good ok st step g in
      let rest =
        then_leads t (BootAt (bringing (i + 1))) (BootAt boot_in_kernel) good
          (seen i t good refl (t.core (target m.board i)) refl)
          (λ u gu at. rounds (m.nodes - (i + 1)) (i + 1) u gu at (omega arith)) in
      (rest.0, join (next here step) rest.1, rest.2)
  first_core (waiting i) s g e =
      let range = rw e at g.inv.range in
      then_leads s (BootAt (bringing (i + 1))) (BootAt boot_in_kernel) g
        (seen i s g e (s.core (target m.board i)) refl)
        (λ t good at. rounds (m.nodes - (i + 1)) (i + 1) t good at (omega arith))
  first_core cpus_up s g e = (_, next (next here (unlock e)) (boot_enters refl), refl)
  first_core unlocked s g e = (_, next here (boot_enters e), refl)
  first_core boot_in_kernel s g e = (s, here, e)
  first_core (boot_aborted i) s g e = absurd (g.going i e)
