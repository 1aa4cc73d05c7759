-- ===== src/Smp/Invariant.antt =====
-- What holds between two steps of the cores (src/arch-arm/smp_boot.c and the init_cpus of the boards).
use se_l4_tools.Common.{ℕ, ◌+◌, ◌*◌, ◌^◌, ◌≤◌, ◌<◌, ◌≡◌, refl, arith, Bool-cases, inl, inr, ltb}
use se_l4_tools.Smp.{
  max_cores, target, core_stack, context, stack_given, Boot, bringing, calling, waiting, unlocked,
  boot_in_kernel, boot_aborted, Core, off, head, started, spinning, released, in_kernel, System,
  initial, begin,
}
use se_l4_tools.Smp.Steps.{Machine}

-- The cores that init_cpus has seen up, and those that it has asked for.
abbrev pub seen_by : ℕ → Boot → ℕ
seen_by nodes (bringing i) = i
seen_by nodes (calling i) = i
seen_by nodes (waiting i) = i
seen_by nodes (boot_aborted i) = i
seen_by nodes _ = nodes

abbrev pub asked_by : ℕ → Boot → ℕ
asked_by nodes (waiting i) = i + 1
asked_by nodes b = seen_by nodes b

abbrev pub lock_of : Boot → ℕ
lock_of unlocked = 1
lock_of boot_in_kernel = 1
lock_of _ = 0

abbrev pub InRange : Machine → Boot → Type 0
InRange m (bringing i) = (0 < i) × (i ≤ m.nodes) × (m.nodes ≤ max_cores m.board)
InRange m (calling i) = (0 < i) × (i < m.nodes) × (m.nodes ≤ max_cores m.board)
InRange m (waiting i) = (0 < i) × (i < m.nodes) × (m.nodes ≤ max_cores m.board)
InRange m (boot_aborted i) = 0 < i
InRange m _ = m.nodes ≤ max_cores m.board

-- A core that runs under its logical number.
abbrev pub Numbered : Machine → System → ℕ → Type 0
Numbered m s c =
    (0 < s.tpidr c)
    × (s.tpidr c < asked_by m.nodes s.boot)
    × (c ≡ target m.board (s.tpidr c))
    × (s.core_up (s.tpidr c) ≡ s.tpidr c)

-- A core that is on its way is the one that init_cpus waits for.
abbrev pub Coming : Machine → System → ℕ → ℕ → Type 0
Coming m s c sp =
    (j : ℕ) × (s.boot ≡ waiting j)
    × (c ≡ target m.board j)
    × (s.core_up j ≡ 0)
    × (sp ≡ core_stack m.core_stacks j)

abbrev pub CoreInv : Machine → System → ℕ → Core → Type 0
CoreInv m s c off = Unit
CoreInv m s c (head x0) = Coming m s c (stack_given m.board x0 s.mailbox)
CoreInv m s c (started sp) = Coming m s c sp
CoreInv m s c spinning = Numbered m s c
CoreInv m s c released = Numbered m s c × (s.non_boot_lock ≡ 1)
CoreInv m s c in_kernel = Numbered m s c × (s.non_boot_lock ≡ 1)

pub record Inv (m : Machine) (s : System) : Type 0 where
  pub range : InRange m s.boot
  pub lock : s.non_boot_lock ≡ lock_of s.boot
  pub confirmed : (j : ℕ) → 0 < j → j < seen_by m.nodes s.boot → s.core_up j ≡ j
  pub fresh : (j : ℕ) → asked_by m.nodes s.boot ≤ j → s.core_up j ≡ 0
  pub placed :
      (i : ℕ)
      → s.boot ≡ calling i
      → stack_given m.board (context m.board m.core_stacks i) s.mailbox ≡ core_stack m.core_stacks i
  pub cores : (c : ℕ) → CoreInv m s c (s.core c)

pub record IsMachine (m : Machine) : Type 0 where
  pub one : 0 < m.nodes
  pub fits : m.core_stacks + max_cores m.board * 4096 ≤ 2 ^ 64

-- The system before any step, for the two outcomes of the check in init_cpus.
abbrev at_rest : Boot → System
at_rest b = record {
  core_up = λ i. 0;
  non_boot_lock = 0;
  mailbox = 0;
  boot_tpidr = 0;
  tpidr = λ i. 0;
  boot = b;
  core = λ i. off;
}

bringing-Inv :
    (m : Machine) → IsMachine m → m.nodes ≤ max_cores m.board → Inv m (at_rest (bringing 1))
bringing-Inv m ok few = record {
  range = (omega arith, ok.one, few);
  lock = refl;
  confirmed = λ j low high. omega arith;
  fresh = λ j h. refl;
  placed = λ i e. cc;
  cores = λ c. tt;
}

aborted-Inv : (m : Machine) → Inv m (at_rest (boot_aborted 1))
aborted-Inv m = record {
  range = omega arith;
  lock = refl;
  confirmed = λ j low high. omega arith;
  fresh = λ j h. refl;
  placed = λ i e. cc;
  cores = λ c. tt;
}

pub initial-Inv : (m : Machine) → IsMachine m → Inv m (initial m.board m.nodes)
unfolding initial begin
initial-Inv m ok = elim (Bool-cases (ltb (max_cores m.board) m.nodes)) [
  | inl big ↦ rw big (aborted-Inv m)
  | inr few ↦ rw few (bringing-Inv m ok (ground arith))
]
