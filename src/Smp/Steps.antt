-- ===== src/Smp/Steps.antt =====
-- The interleavings of the cores, for a firmware that is a function of the system's state, and the
-- states that they reach.
use se_l4_tools.Common.{ℕ, ◌+◌, ◌≤◌, ◌<◌, ◌≡◌, ◌≢◌, true, false}
use se_l4_tools.Smp.{
  Board, target, context, mailbox_for, stack_given, is_core_up, psci_cpu_on, bringing, calling,
  waiting, cpus_up, unlocked, boot_in_kernel, boot_aborted, head, started, spinning, released,
  in_kernel, System, update, core_entry,
}

-- What the steps depend on: the number of cores that is configured, where core_stacks and
-- core_entry_head are, and psci_func.
pub record Machine : Type 0 where
  pub board : Board
  pub nodes : ℕ
  pub core_stacks : ℕ
  pub core_entry_head : ℕ
  pub psci_func : System → ℕ → ℕ → ℕ → ℕ → ℕ

abbrev pub answer : Machine → System → ℕ → ℕ
answer m s i =
    psci_cpu_on (m.psci_func s) (target m.board i) m.core_entry_head
      (context m.board m.core_stacks i)

pub data Step (m : Machine) (s : System) : System → Type 0 where
  place_stack :
      (i : ℕ)
      → s.boot ≡ bringing i
      → i < m.nodes
      → Step m s
          (record s { mailbox = mailbox_for m.board m.core_stacks i s.mailbox; boot = calling i })
  power_on :
      (i : ℕ)
      → s.boot ≡ calling i
      → answer m s i ≡ 0
      → Step m s (record s {
        core = update s.core (target m.board i) (head (context m.board m.core_stacks i));
        boot = waiting i;
      })
  give_up :
      (i : ℕ)
      → s.boot ≡ calling i
      → answer m s i ≢ 0
      → Step m s (record s { boot = boot_aborted i })
  wait : (i : ℕ) → s.boot ≡ waiting i → is_core_up s.core_up i ≡ false → Step m s s
  see_up :
      (i : ℕ)
      → s.boot ≡ waiting i
      → is_core_up s.core_up i ≡ true
      → Step m s (record s { boot = bringing (i + 1) })
  all_up :
      (i : ℕ)
      → s.boot ≡ bringing i
      → m.nodes ≤ i
      → Step m s (record s { boot_tpidr = 0; boot = cpus_up })
  unlock : s.boot ≡ cpus_up → Step m s (record s { non_boot_lock = 1; boot = unlocked })
  boot_enters : s.boot ≡ unlocked → Step m s (record s { boot = boot_in_kernel })
  load_stack :
      (c x0 : ℕ)
      → s.core c ≡ head x0
      → Step m s (record s { core = update s.core c (started (stack_given m.board x0 s.mailbox)) })
  announce : (c sp : ℕ) → s.core c ≡ started sp → Step m s (core_entry m.core_stacks c sp s)
  spin : (c : ℕ) → s.core c ≡ spinning → s.non_boot_lock ≡ 0 → Step m s s
  leave :
      (c : ℕ)
      → s.core c ≡ spinning
      → s.non_boot_lock ≢ 0
      → Step m s (record s { core = update s.core c released })
  core_enters :
      (c : ℕ) → s.core c ≡ released → Step m s (record s { core = update s.core c in_kernel })

pub data Reach (m : Machine) (s : System) : System → Type 0 where
  here : Reach m s s
  next : {t u : System} → Reach m s t → Step m t u → Reach m s u
