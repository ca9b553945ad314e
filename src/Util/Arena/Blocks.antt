-- ===== src/Util/Arena/Blocks.antt =====
-- The blocks that an arena hands out for arrays.
use bitlens_rs.Prelude.{ℕ, ◌+◌, ◌*◌, ◌%◌, ◌^◌, ◌≤◌, ◌<◌, ◌≡◌}
use bitlens_rs.Util.Arena.{Arena, Layout, padding}

-- A block of `size` bytes at `at`, aligned, behind what `arena` had handed out before and inside of it,
-- and all up to its end handed out in `arena'`.
pub record IsBlock (alignment size at : ℕ) (arena arena' : Arena) : Type 0 where
  pub aligned : at % alignment ≡ 0
  pub behind : arena.address + arena.consumed ≤ at
  pub end : at + size ≡ arena'.address + arena'.consumed
  pub inside : arena'.consumed ≤ arena'.capacity
  pub same_address : arena'.address ≡ arena.address
  pub same_capacity : arena'.capacity ≡ arena.capacity

module _ (layout : Layout) (count : ℕ) (arena : Arena) (h : 0 < layout.alignment) where
  abbrev size : ℕ
  size = layout.size * count % 2 ^ 64

  abbrev gap : ℕ
  gap = padding layout.alignment arena

  abbrev extended : Arena
  extended = record arena { consumed = arena.consumed + gap + size }
