-- ===== src/Util/Tests.antt =====
-- Allocations at concrete sizes.
use bitlens_rs.Prelude.{◌+◌, ◌^◌, ◌≡◌, refl, ok}
use bitlens_rs.Util.Arena.{Arena, Layout, padding, try_alloc_array, try_alloc}

abbrev arena : Arena
arena = record { address = 64; consumed = 3; capacity = 1000 }

abbrev word : Layout
word = record { size = 8; alignment = 8 }

-- 2^61 + 1 elements of 8 bytes: the product wraps, and 8 bytes are reserved for them.
wrapping_run : try_alloc_array word (2 ^ 61 + 1) arena ≡ ok (72, record arena { consumed = 16 })
unfolding try_alloc_array padding
wrapping_run = refl

-- One value is written at 67, in front of its padding.
single_run : try_alloc word arena ≡ ok (67, record arena { consumed = 16 })
unfolding try_alloc padding
single_run = refl
