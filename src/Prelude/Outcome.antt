-- ===== src/Prelude/Outcome.antt =====
-- `anyhow::Result`, with panics as a third outcome, and its `?` as the bind of `do` blocks.
use mathlib.Core.Path.{◌≡◌, refl, subst}
use mathlib.Core.Bool.{Bool, true, false}
use mathlib.Core.Option.{Option, none, some}

-- One constructor for each kind of message; the texts are not kept.
pub data Error : Type 0 where
  not_enough_bytes : Error
  zero_txins : Error
  invalid_header : Error
  merkle_root_mutated : Error
  merkle_root_mismatch : Error
  no_parent : Error
  invalid_difficulty : Error
  missing_coinbase_witness : Error
  invalid_coinbase_witness : Error
  witness_root_mutated : Error
  invalid_witness_commitment : Error
  unknown_inventory_type : Error
  invalid_network_id : Error
  invalid_checksum : Error

-- `panic` is a Rust panic: an index out of range, `unwrap` on nothing, `panic!`. `stuck` is no outcome
-- of the program: the fuel of a modelled loop ran out.
pub data Result {ℓ} (T : Type ℓ) : Type ℓ where
  panic stuck : Result T
  ok : T → Result T
  err : Error → Result T

infixl 5 ◌>>=◌ ◌>>◌
abbrev pub ◌>>=◌ {ℓ κ} : {T : Type ℓ} {U : Type κ} → Result T → (T → Result U) → Result U
panic >>= next = panic
stuck >>= next = stuck
err message >>= next = err message
ok value >>= next = next value

-- `unwrap`, indexing.
abbrev pub unwrap {ℓ} : {T : Type ℓ} → Option T → Result T
unwrap none = panic
unwrap (some value) = ok value

-- `match … { Some(v) => …, None => Err(…) }`.
abbrev pub ok_or {ℓ} : {T : Type ℓ} → Option T → Error → Result T
ok_or none message = err message
ok_or (some value) message = ok value

-- A call for its error alone.
abbrev pub ◌>>◌ {ℓ} : {U : Type ℓ} → Result (Unit {0}) → Result U → Result U
test >> next = test >>= λ _. next

-- `bail!` unless the test passes.
abbrev pub guard : Bool → Error → Result (Unit {0})
guard false message = err message
guard true message = ok tt

-- A call that ends well comes from a value of its first part.
pub >>=-eq-ok {ℓ κ} :
    {T : Type ℓ} {U : Type κ} (first : Result T) (next : T → Result U) {result : U}
    → (first >>= next) ≡ ok result
    → (value : T) × (first ≡ ok value) × (next value ≡ ok result)
>>=-eq-ok panic next e = cc
>>=-eq-ok stuck next e = cc
>>=-eq-ok (err message) next e = cc
>>=-eq-ok (ok value) next e = (value, refl, e)

-- The value has the property, if there is one.
unfoldable pub Yields {ℓ κ} : {T : Type ℓ} → (T → Type κ) → Result T → Type κ
Yields P panic = Unit
Yields P stuck = Unit
Yields P (err message) = Unit
Yields P (ok value) = P value

module _ {ℓ κ μ} {T : Type ℓ} {U : Type κ} (Q : U → Type μ) where
  pub Yields->>= {ν} :
      (first : Result T) (next : T → Result U) (P : T → Type ν)
      → Yields P first
      → ((value : T) → P value → Yields Q (next value))
      → Yields Q (first >>= next)
  unfolding Yields
  Yields->>= panic next P y all = tt
  Yields->>= stuck next P y all = tt
  Yields->>= (err message) next P y all = tt
  Yields->>= (ok value) next P y all = all value y

  -- The same, with nothing known of the first value.
  pub Yields-next :
      (first : Result T) (next : T → Result U)
      → ((value : T) → Yields Q (next value))
      → Yields Q (first >>= next)
  unfolding Yields
  Yields-next panic next all = tt
  Yields-next stuck next all = tt
  Yields-next (err message) next all = tt
  Yields-next (ok value) next all = all value

pub Yields-eq-ok {ℓ κ} :
    {T : Type ℓ} (P : T → Type κ) (result : Result T) {value : T}
    → Yields P result
    → result ≡ ok value
    → P value
unfolding Yields
Yields-eq-ok P result y e = subst (Yields P) e y

pub Yields-ok {ℓ κ} : {T : Type ℓ} (P : T → Type κ) (value : T) → P value → Yields P (ok value)
unfolding Yields
Yields-ok P value h = h

pub Yields-mono {ℓ κ μ} :
    {T : Type ℓ} (P : T → Type κ) (Q : T → Type μ) (result : Result T)
    → Yields P result
    → ((value : T) → P value → Q value)
    → Yields Q result
unfolding Yields
Yields-mono P Q panic y all = tt
Yields-mono P Q stuck y all = tt
Yields-mono P Q (err message) y all = tt
Yields-mono P Q (ok value) y all = all value y

pub Yields-guard : (test : Bool) (message : Error) → Yields (λ _. test ≡ true) (guard test message)
unfolding Yields
Yields-guard true message = refl
Yields-guard false message = tt

pub Yields-ok_or {ℓ} :
    {T : Type ℓ} (option : Option T) (message : Error)
    → Yields (λ value. option ≡ some value) (ok_or option message)
unfolding Yields
Yields-ok_or none message = tt
Yields-ok_or (some value) message = refl

pub Yields-unwrap {ℓ} :
    {T : Type ℓ} (option : Option T) → Yields (λ value. option ≡ some value) (unwrap option)
unfolding Yields
Yields-unwrap none = tt
Yields-unwrap (some value) = refl
