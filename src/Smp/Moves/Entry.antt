-- ===== src/Smp/Moves/Entry.antt =====
-- core_entry keeps the invariant (src/arch-arm/armv/armv8-a/64/smp.c).
use se_l4_tools.Common.{ℕ, ◌+◌, ◌≤◌, ◌≡◌, ◌≢◌, refl, sym, ap, ◌∙◌, arith}
use se_l4_tools.Smp.{
  target, core_id, waiting, Core, off, head, started, spinning, released, in_kernel, System, update,
  core_entry,
}
use se_l4_tools.Smp.Steps.{Machine}
use se_l4_tools.Smp.Invariant.{Inv, IsMachine, CoreInv}
use se_l4_tools.Smp.Moves.{update-same, update-other, update-cores, up_stays, core_id-core_stack}

-- core_entry on the core that init_cpus waits for, under the number `j`.
abbrev announced : (m : Machine) (s : System) (c j : ℕ) → System
announced m s c j = record s {
  tpidr = update s.tpidr c j;
  core_up = update s.core_up j j;
  core = update s.core c spinning;
}

module _ (m : Machine) (s : System) (inv : Inv m s) (c j : ℕ) (w : s.boot ≡ waiting j)
    (at : c ≡ target m.board j) where
  -- Another core's number and announcement stay.
  others_stay : (d : ℕ) (k : Core) → c ≢ d → CoreInv m s d k → CoreInv m (announced m s c j) d k
  others_stay d off apart h = tt
  others_stay d (head x0) apart (k, v, place, zero_up, sp) =
      let same : j ≡ k = cc in absurd (apart (at ∙ ap (target m.board) same ∙ sym place))
  others_stay d (started _) apart (k, v, place, zero_up, sp) =
      let same : j ≡ k = cc in absurd (apart (at ∙ ap (target m.board) same ∙ sym place))
  others_stay d spinning apart (positive, low, place, own) =
      rw (update-other s.tpidr c d j apart)
        (positive, low, place, up_stays s.core_up j (s.tpidr d) own)
  others_stay d released apart ((positive, low, place, own), locked) =
      rw (update-other s.tpidr c d j apart)
        ((positive, low, place, up_stays s.core_up j (s.tpidr d) own), locked)
  others_stay d in_kernel apart ((positive, low, place, own), locked) =
      rw (update-other s.tpidr c d j apart)
        ((positive, low, place, up_stays s.core_up j (s.tpidr d) own), locked)

  announced-Inv : Inv m (announced m s c j)
  announced-Inv =
      let range = rw w at inv.range in
      let t = announced m s c j in
      record {
        range = inv.range;
        lock = inv.lock;
        confirmed = λ k low high. up_stays s.core_up j k (inv.confirmed k low high);
        fresh = λ k h.
            let behind : j + 1 ≤ k = rw w at h in
            update-other s.core_up j k j (λ e. omega arith) ∙ inv.fresh k h;
        placed = inv.placed;
        cores =
            update-cores (CoreInv m t) s.core c spinning
              (rw (update-same s.tpidr c c j refl)
                (range.0, rw w (omega arith), at, update-same s.core_up j j j refl))
              (λ d apart. others_stay d (s.core d) apart (inv.cores d));
      }

pub announce-Inv :
    (m : Machine) (s : System)
    → IsMachine m
    → Inv m s
    → (c sp : ℕ) → s.core c ≡ started sp
    → Inv m (core_entry m.core_stacks c sp s)
unfolding core_entry
announce-Inv m s ok inv c sp e =
    let coming = rw e at (inv.cores c) in
    let j = coming.0 in
    let w : s.boot ≡ waiting j = coming.1 in
    let range = rw w at inv.range in
    let id : core_id m.core_stacks sp ≡ j =
      rw coming.4 (core_id-core_stack m.board m.core_stacks j ok.fits (omega arith)) in
    rw id (announced-Inv m s inv c j w coming.2)
