-- ===== src/Mmu/Table.antt =====
-- Tables of entries, the loops that fill them, and entries put together from fields.
use native.Mathlib.Nat.{div-add-mod}
use se_l4_tools.Common.{
  ℕ, zero, suc, ◌+◌, ◌*◌, ◌/◌, ◌%◌, ◌^◌, ◌<◌, ◌≡◌, arith, ◌==◌, if◌then◌else◌, bit_or,
  bit_or_fields,
}
use se_l4_tools.Strops.Bytes.{within}

abbrev pub Table : Type 0
Table = ℕ → ℕ

-- `table[i] = entry`
unfoldable pub put : Table → ℕ → ℕ → Table
put table i entry j = if i == j then entry else table j

-- `for (; left > 0; i++) table[i] = entry(i)`, with the rounds that are left counted down.
unfoldable pub fill : (ℕ → ℕ) → ℕ → ℕ → Table → Table
fill entry zero i table = table
fill entry (suc left) i table = fill entry left (i + 1) (put table i (entry i))

pub fill_at :
    (entry : ℕ → ℕ) (left i : ℕ) (table : Table) (j : ℕ)
    → fill entry left i table j ≡ (if within i left j then entry j else table j)
unfolding fill put
fill_at entry zero i table j = ground arith
fill_at entry (suc left) i table j =
    ground (arith, fill_at entry left (i + 1) (put table i (entry i)) j)

-- A field below the alignment of a number is added to it.
pub bit_or_aligned : (k a r : ℕ) → a % 2 ^ k ≡ 0 → r < 2 ^ k → bit_or a r ≡ a + r
bit_or_aligned k a r h lt =
    let whole : a / 2 ^ k * 2 ^ k ≡ a = grind (arith, div-add-mod a (2 ^ k)) in
    rw (← whole) (bit_or_fields k (a / 2 ^ k) r lt)
