-- ===== src/Smp/Moves.antt =====
-- What the steps of the cores leave in place (src/arch-arm/smp_boot.c, armv8-a/64/smp.c and the boards).
pub mod First
pub mod Entry
use se_l4_tools.Common.{
  ℕ, ◌+◌, ◌*◌, ◌^◌, ◌≤◌, ◌<◌, ◌≡◌, ◌≢◌, refl, sym, ap, ◌∙◌, arith, true, Bool-cases, inl, inr, ◌==◌,
}
use se_l4_tools.Smp.{
  Board, hikey, tx1, max_cores, target, core_stack, core_id, context, mailbox_for, stack_given,
  is_core_up, Boot, bringing, calling, waiting, cpus_up, unlocked, boot_in_kernel, boot_aborted,
  Core, off, head, started, spinning, released, in_kernel, System, update, core_entry,
}
use se_l4_tools.Smp.Steps.{
  Machine, Step, place_stack, power_on, give_up, wait, see_up, all_up, unlock, boot_enters,
  load_stack, announce, spin, leave, core_enters,
}
use se_l4_tools.Smp.Invariant.{Inv, IsMachine, InRange, seen_by, asked_by, lock_of, CoreInv}

-- A core is not touched by a step of the first core that ends no wait for it.
pub boot_moves :
    (m : Machine) (s t : System)
    → ((j : ℕ) → s.boot ≡ waiting j → s.core_up j ≢ 0)
    → ((j : ℕ) → t.core_up j ≡ s.core_up j)
    → ((c : ℕ) → t.tpidr c ≡ s.tpidr c)
    → asked_by m.nodes s.boot ≤ asked_by m.nodes t.boot
    → (s.non_boot_lock ≡ 1 → t.non_boot_lock ≡ 1)
    → (c : ℕ) (k : Core) → CoreInv m s c k
    → CoreInv m t c k
boot_moves m s t none_waits up number asked lock c off h = tt
boot_moves m s t none_waits up number asked lock c (head x0) (j, w, at, zero_up, sp) =
    absurd (none_waits j w zero_up)
boot_moves m s t none_waits up number asked lock c (started _) (j, w, at, zero_up, sp) =
    absurd (none_waits j w zero_up)
boot_moves m s t none_waits up number asked lock c spinning (positive, low, at, own) =
    rw (number c, up (s.tpidr c)) (positive, omega arith, at, own)
boot_moves m s t none_waits up number asked lock c released ((positive, low, at, own), locked) =
    rw (number c, up (s.tpidr c)) ((positive, omega arith, at, own), lock locked)
boot_moves m s t none_waits up number asked lock c in_kernel ((positive, low, at, own), locked) =
    rw (number c, up (s.tpidr c)) ((positive, omega arith, at, own), lock locked)

pub lock_is_one : (b : Boot) {l : ℕ} → l ≡ lock_of b → l ≢ 0 → l ≡ 1
lock_is_one (bringing i) e h = absurd (h e)
lock_is_one (calling i) e h = absurd (h e)
lock_is_one (waiting i) e h = absurd (h e)
lock_is_one cpus_up e h = absurd (h e)
lock_is_one unlocked e h = e
lock_is_one boot_in_kernel e h = e
lock_is_one (boot_aborted i) e h = absurd (h e)

-- The function at the place of an update, and elsewhere.
pub update-same {ℓ} : {A : Type ℓ} (f : ℕ → A) (i j : ℕ) (x : A) → i ≡ j → update f i x j ≡ x
unfolding update
update-same f i j x h = ground arith

pub update-other {ℓ} : {A : Type ℓ} (f : ℕ → A) (i j : ℕ) (x : A) → i ≢ j → update f i x j ≡ f j
unfolding update
update-other f i j x h = ground arith

pub up_stays : (f : ℕ → ℕ) (j k : ℕ) → f k ≡ k → update f j j k ≡ k
unfolding update
up_stays f j k h = ground arith

-- A property of each core is kept when one core is changed to another that has it.
pub update-cores :
    (P : ℕ → Core → Type 0) (f : ℕ → Core) (i : ℕ) (k : Core)
    → P i k
    → ((c : ℕ) → i ≢ c → P c (f c))
    → (c : ℕ) → P c (update f i k c)
unfolding update
update-cores P f i k changed others c = elim (Bool-cases (i == c)) [
  | inl same ↦ let e : i ≡ c = ground arith in rw same (rw (← e) changed)
  | inr apart ↦ rw apart (others c (ground arith))
]

pub max_cores-few : (b : Board) → max_cores b ≤ 8
unfolding max_cores
max_cores-few hikey = omega arith
max_cores-few tx1 = omega arith

pub core_id-core_stack :
    (b : Board) (base j : ℕ)
    → base + max_cores b * 4096 ≤ 2 ^ 64
    → j < max_cores b
    → core_id base (core_stack base j) ≡ j
unfolding core_id core_stack
core_id-core_stack b base j fits lt = omega (arith, max_cores-few b)

pub context-stack :
    (b : Board) (base i old : ℕ)
    → stack_given b (context b base i) (mailbox_for b base i old) ≡ core_stack base i
unfolding stack_given context mailbox_for
context-stack hikey base i old = refl
context-stack tx1 base i old = refl
