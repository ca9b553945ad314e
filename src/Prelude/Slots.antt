-- ===== src/Prelude/Slots.antt =====
-- Assignment to an element of a vector, and what it leaves.
use Prim.Native.Nat.{ℕ, zero, suc, ◌<◌}
use mathlib.Core.Path.{◌≡◌, refl, ap}
use mathlib.Core.Logic.{◌≢◌}
use mathlib.Core.List.{List, [], ◌∷◌}
use mathlib.Core.Option.{some}
use native.Mathlib.Omega.{arith}
use bitlens_rs.Prelude.Lists.{length, get_elem?}
use bitlens_rs.Prelude.Outcome.{Result, ok, panic, ◌>>=◌}

-- `xs[i] = x`: an index out of range panics.
unfoldable pub set_elem {ℓ} : {A : Type ℓ} → ℕ → A → List A → Result (List A)
set_elem i x [] = panic
set_elem zero x (y ∷ ys) = ok (x ∷ ys)
set_elem (suc i) x (y ∷ ys) = set_elem i x ys >>= λ zs. ok (y ∷ zs)

module _ {ℓ} {A : Type ℓ} where
  -- What an assignment gives: the element, the others, the length.
  pub record Assigned (i : ℕ) (x : A) (xs ys : List A) : Type ℓ where
    pub at_index : get_elem? ys i ≡ some x
    pub elsewhere : (j : ℕ) → i ≢ j → get_elem? ys j ≡ get_elem? xs j
    pub same_length : length ys ≡ length xs

  pub set_elem_lem :
      (i : ℕ) (x : A) (xs : List A)
      → i < length xs
      → (ys : List A) × (set_elem i x xs ≡ ok ys) × Assigned i x xs ys
  unfolding set_elem
  set_elem_lem i x [] h = absurd (omega arith)
  set_elem_lem zero x (y ∷ xs) h =
      (x ∷ xs, refl, record { at_index = refl; elsewhere = λ j d. shifted j d; same_length = refl })
    where
      shifted : (j : ℕ) → zero ≢ j → get_elem? (x ∷ xs) j ≡ get_elem? (y ∷ xs) j
      shifted zero d = absurd (d refl)
      shifted (suc j) d = refl
  set_elem_lem (suc i) x (y ∷ xs) h =
      let (ys, e, a) = set_elem_lem i x xs (omega arith) in
      (
        y ∷ ys,
        rw e refl,
        record {
          at_index = a.at_index;
          elsewhere = later ys a;
          same_length = ap suc a.same_length;
        },
      )
    where
      later :
          (ys : List A)
          → Assigned i x xs ys
          → (j : ℕ) → suc i ≢ j
          → get_elem? (y ∷ ys) j ≡ get_elem? (y ∷ xs) j
      later ys a zero d = refl
      later ys a (suc j) d = a.elsewhere j (λ e. d (ap suc e))

  pub get_elem?-in_range :
      (xs : List A) (i : ℕ) → i < length xs → (x : A) × (get_elem? xs i ≡ some x)
  get_elem?-in_range [] i h = absurd (omega arith)
  get_elem?-in_range (x ∷ xs) zero h = (x, refl)
  get_elem?-in_range (x ∷ xs) (suc i) h = get_elem?-in_range xs i (omega arith)
