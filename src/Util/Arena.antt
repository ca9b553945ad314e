-- ===== src/Util/Arena.antt =====
-- src/util/arena.rs: the bump allocator that a packet is deserialized into. An allocation returns the
-- address of the new block. With no other thread allocating at the same time the compare-and-exchange
-- succeeds at once, which is the run that is modelled.
pub mod Blocks
use bitlens_rs.Prelude.{ℕ, ◌+◌, ◌-◌, ◌*◌, ◌%◌, ◌^◌, leb, ◌==◌, if◌then◌else◌, Result, ok, panic}

-- `data` is the address of the first byte.
pub record Arena : Type 0 where
  pub address : ℕ
  pub consumed : ℕ
  pub capacity : ℕ

-- `size_of` and `align_of` of an element type.
pub record Layout : Type 0 where
  pub size : ℕ
  pub alignment : ℕ

unfoldable pub padding : ℕ → Arena → ℕ
padding alignment arena =
    if alignment == 0
    then 0
    else (alignment - (arena.address + arena.consumed) % alignment) % alignment

-- `try_alloc_array_uninit`, `try_alloc_array_fill_copy` and `try_alloc_array_copy` reserve their block
-- alike; what they write there is the caller's value. `new_consumed` is `currently_consumed + padding +
-- size`. Where the product wraps, less is reserved than the `count` elements need, and
-- `try_alloc_array_fill_copy` writes past the block: the result is then only what is reserved.
unfoldable pub try_alloc_array : Layout → ℕ → Arena → Result (ℕ × Arena)
unfolding padding
try_alloc_array layout count arena =
    let size = (layout.size * count) % 2 ^ 64 in
    let new_consumed = arena.consumed + padding layout.alignment arena + size in
    if leb new_consumed arena.capacity
    then ok (
      arena.address + (padding layout.alignment arena + arena.consumed),
      record arena { consumed = new_consumed },
    )
    else panic

-- One value: the block is reserved with its padding, but the value is written at its start.
unfoldable pub try_alloc : Layout → Arena → Result (ℕ × Arena)
unfolding padding
try_alloc layout arena =
    let new_consumed = arena.consumed + padding layout.alignment arena + layout.size in
    if leb new_consumed arena.capacity
    then ok (arena.address + arena.consumed, record arena { consumed = new_consumed })
    else panic

unfoldable pub reset : Arena → Arena
reset arena = record arena { consumed = 0 }
