-- ===== src/Gic.antt =====
-- The interrupt controller before the switch to the non-secure world: route_irqs_to_nonsecure of
-- src/plat/tk1/platform_init.c and src/plat/imx6/platform_init.c, which are the same. A register keeps
-- what is written; an array goes on behind its end.
pub mod Routed
use se_l4_tools.Common.{ℕ, zero, suc, ◌+◌, ◌*◌, ◌/◌, ◌%◌, ◌^◌, ltb, if◌then◌else◌, bit_and}
use se_l4_tools.Mmu.Table.{Table, put}

-- The registers of gicd_map that are used.
pub record Gicd : Type 0 where
  pub enable : ℕ
  pub ic_type : ℕ
  pub security : Table
  pub priority : Table

pub record Gicc : Type 0 where
  pub ctrl : ℕ
  pub pri_mask : ℕ

unfoldable pub number_of_irqs : Gicd → ℕ
number_of_irqs gicd = 32 * (bit_and gicd.ic_type 0x1f + 1)

-- `for (; i < nirqs; i += step) table[i / step] = value`; `fuel` is at least the number of rounds.
unfoldable pub set_each : ℕ → ℕ → ℕ → ℕ → ℕ → Table → Table
set_each step nirqs value zero i table = table
set_each step nirqs value (suc fuel) i table =
    let rest = set_each step nirqs value fuel (i + step) (put table (i / step) value) in
    if ltb i nirqs then rest else table

unfoldable pub route_irqs_to_nonsecure : Gicd → Gicc → Gicd × Gicc
route_irqs_to_nonsecure gicd gicc =
    let nirqs = number_of_irqs gicd in
    (
      record {
        enable = 0;
        ic_type = gicd.ic_type;
        security = set_each 32 nirqs 0xffffffff nirqs 0 gicd.security;
        priority = set_each 4 nirqs 0x80808080 nirqs 0 gicd.priority;
      },
      record { ctrl = 0; pri_mask = 0xff },
    )
