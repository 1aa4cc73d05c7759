-- ===== src/Smp/Alive.antt =====
-- With a firmware that starts each core that is off, init_cpus never gives up (src/plat/hikey/smp.c,
-- src/plat/tx1/smp.c), and a core that it has started is not off.
use se_l4_tools.Common.{
  ℕ, zero, suc, ◌+◌, ◌*◌, ◌/◌, ◌%◌, ◌≤◌, ◌<◌, ◌≡◌, ◌≢◌, refl, ap, arith, false, Bool-cases, inl,
  inr, ◌==◌, ltb, ◌⊎◌,
}
use mathlib.Core.Path.{subst}
use se_l4_tools.Smp.{
  Board, hikey, tx1, max_cores, target, context, calling, waiting, boot_aborted, Core, off, head,
  started, spinning, released, in_kernel, System, update, core_entry, initial, begin,
}
use se_l4_tools.Smp.Steps.{
  Machine, answer, Step, place_stack, power_on, give_up, wait, see_up, all_up, unlock, boot_enters,
  load_stack, announce, spin, leave, core_enters,
}
use se_l4_tools.Smp.Invariant.{Inv, IsMachine, asked_by, CoreInv, initial-Inv}
use se_l4_tools.Smp.Moves.{update-same}
use se_l4_tools.Smp.Keeps.{Step-Inv}

-- psci_func, for the call that starts a core.
pub record StartsCores (m : Machine) : Type 0 where
  pub few : m.nodes ≤ max_cores m.board
  pub starts : (s : System) (i : ℕ) → s.core (target m.board i) ≡ off → answer m s i ≡ 0

pub record Good (m : Machine) (s : System) : Type 0 where
  pub inv : Inv m s
  pub alive : (j : ℕ) → 0 < j → j < asked_by m.nodes s.boot → s.core (target m.board j) ≢ off
  pub going : (i : ℕ) → s.boot ≢ boot_aborted i

hikey_target : (i : ℕ) → i < 8 → target hikey i ≡ i % 4 + i / 4 * 256
unfolding target
hikey_target zero h = refl
hikey_target (suc zero) h = refl
hikey_target (suc (suc zero)) h = refl
hikey_target (suc (suc (suc zero))) h = refl
hikey_target (suc (suc (suc (suc zero)))) h = refl
hikey_target (suc (suc (suc (suc (suc zero))))) h = refl
hikey_target (suc (suc (suc (suc (suc (suc zero)))))) h = refl
hikey_target (suc (suc (suc (suc (suc (suc (suc zero))))))) h = refl
hikey_target (suc (suc (suc (suc (suc (suc (suc (suc i)))))))) h = omega arith

-- Two logical numbers are two cores.
pub target-injective :
    (b : Board) (i j : ℕ) → i < max_cores b → j < max_cores b → target b i ≡ target b j → i ≡ j
unfolding max_cores target
target-injective hikey i j hi hj e = omega (arith, hikey_target i hi, hikey_target j hj, e)
target-injective tx1 i j hi hj e = e

-- A core that runs has been asked for.
runs-asked :
    (m : Machine) (s : System) (c : ℕ) (k : Core)
    → ((j : ℕ) → s.boot ≡ waiting j → 0 < j)
    → CoreInv m s c k
    → k ≢ off
    → (j : ℕ) × (0 < j) × (j < asked_by m.nodes s.boot) × (c ≡ target m.board j)
runs-asked m s c off w h run = absurd (run refl)
runs-asked m s c (head x0) w (j, b, at, up, sp) run = (j, w j b, rw b (omega arith), at)
runs-asked m s c (started _) w (j, b, at, up, sp) run = (j, w j b, rw b (omega arith), at)
runs-asked m s c spinning w (positive, low, at, own) run = (s.tpidr c, positive, low, at)
runs-asked m s c released w ((positive, low, at, own), locked) run = (s.tpidr c, positive, low, at)
runs-asked m s c in_kernel w ((positive, low, at, own), locked) run = (s.tpidr c, positive, low, at)

off_or_runs : (k : Core) → (k ≡ off) ⊎ (k ≢ off)
off_or_runs off = inl refl
off_or_runs (head _) = inr (λ e. cc)
off_or_runs (started _) = inr (λ e. cc)
off_or_runs spinning = inr (λ e. cc)
off_or_runs released = inr (λ e. cc)
off_or_runs in_kernel = inr (λ e. cc)

-- The core that is asked for next is off.
pub calling-off :
    (m : Machine) (s : System) (i : ℕ)
    → Inv m s
    → s.boot ≡ calling i
    → s.core (target m.board i) ≡ off
calling-off m s i inv b =
    let range = rw b at inv.range in
    elim (off_or_runs (s.core (target m.board i))) [
      | inl is_off ↦ is_off
      | inr run ↦
          let asked =
            runs-asked m s (target m.board i) (s.core (target m.board i)) (λ j w. cc)
              (inv.cores (target m.board i)) run in
          let low : asked.0 < i = subst (λ x. asked.0 < asked_by m.nodes x) b asked.2 in
          let same : i ≡ asked.0 =
            target-injective m.board i asked.0 (omega arith) (omega arith) asked.3 in
          absurd (omega arith)
    ]

-- A core that is not off stays so when a core gets another state than off.
stays_on : (f : ℕ → Core) (c d : ℕ) (k : Core) → k ≢ off → f d ≢ off → update f c k d ≢ off
unfolding update
stays_on f c d k changed was = elim (Bool-cases (c == d)) [
  | inl same ↦ rw same changed
  | inr apart ↦ rw apart was
]

pub Step-Good :
    {m : Machine} {s t : System} → IsMachine m → StartsCores m → Step m s t → Good m s → Good m t
unfolding core_entry
Step-Good {m} {s} ok st (place_stack i b lt) g = record {
  inv = Step-Inv ok (place_stack i b lt) g.inv;
  alive = rw b at g.alive;
  going = λ k. cc;
}
Step-Good {m} {s} ok st (power_on i b a) g = record {
  inv = Step-Inv ok (power_on i b a) g.inv;
  alive = λ j low high. elim (Bool-cases (i == j)) [
    | inl same ↦
        rw
          (update-same s.core (target m.board i) (target m.board j)
            (head (context m.board m.core_stacks i)) (ap (target m.board) (ground arith)))
          (λ e. cc)
    | inr other ↦
        stays_on s.core (target m.board i) (target m.board j) _ (λ e. cc)
          (g.alive j low (rw b (ground arith)))
  ];
  going = λ k. cc;
}
Step-Good {m} {s} ok st (give_up i b a) g = absurd (a (st.starts s i (calling-off m s i g.inv b)))
Step-Good {m} {s} ok st (wait i b up) g = g
Step-Good {m} {s} ok st (see_up i b up) g = record {
  inv = Step-Inv ok (see_up i b up) g.inv;
  alive = rw b at g.alive;
  going = λ k. cc;
}
Step-Good {m} {s} ok st (all_up i b h) g =
    let range = rw b at g.inv.range in
    record {
      inv = Step-Inv ok (all_up i b h) g.inv;
      alive = λ j low high. g.alive j low (rw b (omega arith));
      going = λ k. cc;
    }
Step-Good {m} {s} ok st (unlock b) g = record {
  inv = Step-Inv ok (unlock b) g.inv;
  alive = rw b at g.alive;
  going = λ k. cc;
}
Step-Good {m} {s} ok st (boot_enters b) g = record {
  inv = Step-Inv ok (boot_enters b) g.inv;
  alive = rw b at g.alive;
  going = λ k. cc;
}
Step-Good {m} {s} ok st (load_stack c x0 e) g = record {
  inv = Step-Inv ok (load_stack c x0 e) g.inv;
  alive = λ j low high. stays_on s.core c (target m.board j) _ (λ e. cc) (g.alive j low high);
  going = g.going;
}
Step-Good {m} {s} ok st (announce c sp e) g = record {
  inv = Step-Inv ok (announce c sp e) g.inv;
  alive = λ j low high. stays_on s.core c (target m.board j) _ (λ e. cc) (g.alive j low high);
  going = g.going;
}
Step-Good {m} {s} ok st (spin c e h) g = g
Step-Good {m} {s} ok st (leave c e h) g = record {
  inv = Step-Inv ok (leave c e h) g.inv;
  alive = λ j low high. stays_on s.core c (target m.board j) _ (λ e. cc) (g.alive j low high);
  going = g.going;
}
Step-Good {m} {s} ok st (core_enters c e) g = record {
  inv = Step-Inv ok (core_enters c e) g.inv;
  alive = λ j low high. stays_on s.core c (target m.board j) _ (λ e. cc) (g.alive j low high);
  going = g.going;
}

pub initial-Good : (m : Machine) → IsMachine m → StartsCores m → Good m (initial m.board m.nodes)
unfolding initial begin
initial-Good m ok st =
    let few : ltb (max_cores m.board) m.nodes ≡ false = ground (arith, st.few) in
    record {
      inv = initial-Inv m ok;
      alive = rw few (λ j low high. absurd (omega arith));
      going = rw few (λ i. cc);
    }
