-- ===== src/Prelude/Words.antt =====
-- Machine integers as native numbers, and their byte strings: `to_le_bytes`, `from_le_bytes` and the
-- big-endian pair of the standard library, for every width.
use Prim.Native.Nat.{ℕ, zero, suc, ◌+◌, ◌-◌, ◌*◌, ◌/◌, ◌%◌, ◌^◌, ◌<◌}
use mathlib.Core.Path.{◌≡◌, refl, ap, ◌∙◌}
use mathlib.Core.List.{List, [], ◌∷◌, reverse, reverse-reverse, reverse-append}
use native.Mathlib.Omega.{arith}
use native.Mathlib.Nat.{pow-suc}
use bitlens_rs.Prelude.Lists.{length, length-append, All}

-- A `usize` or `u64`; the release build, which has no overflow checks, wraps.
abbrev pub u64_mod : ℕ
u64_mod = 2 ^ 64

abbrev pub add_usize : ℕ → ℕ → ℕ
add_usize a b = (a + b) % 2 ^ 64

abbrev pub sub_u64 : ℕ → ℕ → ℕ
sub_u64 a b = (a + (2 ^ 64 - b)) % 2 ^ 64

abbrev pub IsByte : ℕ → Type 0
IsByte b = b < 256

unfoldable pub to_le_bytes : ℕ → ℕ → List ℕ
to_le_bytes zero v = []
to_le_bytes (suc width) v = (v % 256) ∷ to_le_bytes width (v / 256)

unfoldable pub from_le_bytes : List ℕ → ℕ
from_le_bytes [] = 0
from_le_bytes (b ∷ bs) = b + 256 * from_le_bytes bs

unfoldable pub to_be_bytes : ℕ → ℕ → List ℕ
unfolding to_le_bytes
to_be_bytes width v = reverse (to_le_bytes width v)

unfoldable pub from_be_bytes : List ℕ → ℕ
unfolding from_le_bytes
from_be_bytes bs = from_le_bytes (reverse bs)

pub length-to_le_bytes : (width v : ℕ) → length (to_le_bytes width v) ≡ width
unfolding to_le_bytes
length-to_le_bytes zero v = refl
length-to_le_bytes (suc width) v = ap suc (length-to_le_bytes width (v / 256))

pub to_le_bytes-IsByte : (width v : ℕ) → All IsByte (to_le_bytes width v)
unfolding to_le_bytes
to_le_bytes-IsByte zero v = tt
to_le_bytes-IsByte (suc width) v = (omega arith, to_le_bytes-IsByte width (v / 256))

pub from_le_bytes-to_le_bytes :
    (width v : ℕ) → v < 256 ^ width → from_le_bytes (to_le_bytes width v) ≡ v
unfolding to_le_bytes from_le_bytes
from_le_bytes-to_le_bytes zero v h = omega arith
from_le_bytes-to_le_bytes (suc width) v h =
    omega (arith, from_le_bytes-to_le_bytes width (v / 256) (omega (arith, pow-suc 256 width)))

pub from_be_bytes-to_be_bytes :
    (width v : ℕ) → v < 256 ^ width → from_be_bytes (to_be_bytes width v) ≡ v
unfolding from_be_bytes to_be_bytes
from_be_bytes-to_be_bytes width v h =
    ap from_le_bytes (reverse-reverse (to_le_bytes width v)) ∙ from_le_bytes-to_le_bytes width v h

pub length-reverse : (xs : List ℕ) → length (reverse xs) ≡ length xs
length-reverse [] = refl
length-reverse (x ∷ xs) =
    ap length (reverse-append (x ∷ []) xs)
    ∙ omega (arith, length-append (reverse xs) (x ∷ []), length-reverse xs)

pub length-to_be_bytes : (width v : ℕ) → length (to_be_bytes width v) ≡ width
unfolding to_be_bytes
length-to_be_bytes width v = length-reverse (to_le_bytes width v) ∙ length-to_le_bytes width v
