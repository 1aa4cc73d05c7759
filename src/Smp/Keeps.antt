-- ===== src/Smp/Keeps.antt =====
-- The steps of src/arch-arm/smp_boot.c, armv8-a/64/smp.c and the boards, all together.
use se_l4_tools.Smp.{System}
use se_l4_tools.Smp.Steps.{
  Machine, Step, place_stack, power_on, give_up, wait, see_up, all_up, unlock, boot_enters,
  load_stack, announce, spin, leave, core_enters,
}
use se_l4_tools.Smp.Invariant.{Inv, IsMachine}
use se_l4_tools.Smp.Moves.First.{
  place_stack-Inv, power_on-Inv, give_up-Inv, see_up-Inv, boot_enters-Inv, unlock-Inv,
  load_stack-Inv, leave-Inv, core_enters-Inv, all_up-Inv,
}
use se_l4_tools.Smp.Moves.Entry.{announce-Inv}

-- Every step keeps the invariant.
pub Step-Inv : {m : Machine} {s t : System} → IsMachine m → Step m s t → Inv m s → Inv m t
Step-Inv {m} {s} ok (place_stack i b lt) inv = place_stack-Inv m s inv i b lt
Step-Inv {m} {s} ok (power_on i b a) inv = power_on-Inv m s inv i b
Step-Inv {m} {s} ok (give_up i b a) inv = give_up-Inv m s inv i b
Step-Inv {m} {s} ok (wait i b up) inv = inv
Step-Inv {m} {s} ok (see_up i b up) inv = see_up-Inv m s inv i b up
Step-Inv {m} {s} ok (all_up i b h) inv = all_up-Inv m s inv i b h
Step-Inv {m} {s} ok (unlock b) inv = unlock-Inv m s inv b
Step-Inv {m} {s} ok (boot_enters b) inv = boot_enters-Inv m s inv b
Step-Inv {m} {s} ok (load_stack c x0 e) inv = load_stack-Inv m s inv c x0 e
Step-Inv {m} {s} ok (announce c sp e) inv = announce-Inv m s ok inv c sp e
Step-Inv {m} {s} ok (spin c e h) inv = inv
Step-Inv {m} {s} ok (leave c e h) inv = leave-Inv m s inv c e h
Step-Inv {m} {s} ok (core_enters c e) inv = core_enters-Inv m s inv c e
