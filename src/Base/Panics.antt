-- ===== src/Base/Panics.antt =====
-- What a Go call can end in: a value, a run-time panic (an index out of range) or `log.Fatal`.
use Prim.Native.Nat.{ℕ, zero, suc, ◌<◌}
use mathlib.Core.Path.{◌≡◌, refl}
use mathlib.Core.List.{List, [], ◌∷◌}
use native.Mathlib.Omega.{arith}
use tda596labs.Base.Lists.{length, get_elem?, set}
use mathlib.Core.Option.{some}

pub data Outcome {ℓ} (A : Type ℓ) : Type ℓ where
  ok : A → Outcome A
  panic : Outcome A
  fatal : Outcome A

infixl 5 ◌>>=◌
abbrev pub ◌>>=◌ {ℓ κ} : {A : Type ℓ} {B : Type κ} → Outcome A → (A → Outcome B) → Outcome B
ok a >>= f = f a
panic >>= f = panic
fatal >>= f = fatal

module _ {ℓ} {A : Type ℓ} where
  -- `xs[i]` as a value: a panic out of range.
  unfoldable pub index : List A → ℕ → Outcome A
  index [] i = panic
  index (x ∷ xs) zero = ok x
  index (x ∷ xs) (suc i) = index xs i

  -- `xs[i] = v`: a panic out of range.
  unfoldable pub store : List A → ℕ → A → Outcome (List A)
  store [] i v = panic
  store (x ∷ xs) zero v = ok (v ∷ xs)
  store (x ∷ xs) (suc i) v = store xs i v >>= λ ys. ok (x ∷ ys)

  pub index_ok :
      (xs : List A) (i : ℕ)
      → i < length xs
      → (x : A) × (index xs i ≡ ok x) × (get_elem? xs i ≡ some x)
  unfolding index
  index_ok [] i h = elim h [ ]
  index_ok (x ∷ xs) zero h = (x, refl, refl)
  index_ok (x ∷ xs) (suc i) h = index_ok xs i (omega arith)

  pub store_ok : (xs : List A) (i : ℕ) (v : A) → i < length xs → store xs i v ≡ ok (set xs i v)
  unfolding store
  store_ok [] i v h = elim h [ ]
  store_ok (x ∷ xs) zero v h = refl
  store_ok (x ∷ xs) (suc i) v h = rw (store_ok xs i v (omega arith))

-- The call returns, and its value has the property.
abbrev pub Returns {ℓ} : {A : Type ℓ} → Outcome A → (A → Type 0) → Type 0
Returns (ok a) P = P a
Returns panic P = ⊥
Returns fatal P = ⊥

-- A first call that returns, and a rest that does on its result.
pub then_returns :
    {A B : Type 0} {P : A → Type 0} (Q : B → Type 0) (o : Outcome A) (f : A → Outcome B)
    → Returns o P
    → ((a : A) → P a → Returns (f a) Q)
    → Returns (o >>= f) Q
then_returns Q (ok a) f h k = k a h
then_returns Q panic f h k = absurd h
then_returns Q fatal f h k = absurd h

-- Two facts about the value of one call.
pub both_return :
    {A : Type 0} (P Q : A → Type 0) (o : Outcome A)
    → Returns o P
    → Returns o Q
    → Returns o (λ a. P a × Q a)
both_return P Q (ok a) h k = (h, k)
both_return P Q panic h k = h
both_return P Q fatal h k = h

-- A weaker fact about the value of a call.
pub returns_map :
    {A : Type 0} {P : A → Type 0} (Q : A → Type 0) (o : Outcome A)
    → Returns o P
    → ((a : A) → P a → Q a)
    → Returns o Q
returns_map Q (ok a) h f = f a h
returns_map Q panic h f = h
returns_map Q fatal h f = h

-- The value of a call that returns.
pub returned :
    {A : Type 0} (P : A → Type 0) (o : Outcome A) → Returns o P → (a : A) × (o ≡ ok a) × P a
returned P (ok a) h = (a, refl, h)
returned P panic h = absurd h
returned P fatal h = absurd h
