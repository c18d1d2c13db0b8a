-- ===== src/Base/IntMap.antt =====
-- Go's `map[int]V` as an association list with distinct keys. Go leaves the order of `range` open:
-- no theorem depends on the order of the pairs.
use Prim.Native.Nat.{ℕ}
use mathlib.Core.Path.{◌≡◌, refl}
use mathlib.Core.Option.{Option, none, some}
use mathlib.Core.List.{List, [], ◌∷◌}
use native.Mathlib.Omega.{arith}
use tda596labs.Base.Tests.{◌==◌, if◌then◌else◌}

abbrev pub IntMap {ℓ} : Type ℓ → Type ℓ
IntMap V = List (ℕ × V)

module _ {ℓ} {V : Type ℓ} where
  -- `m[key]` with the second result of Go's two-valued form.
  unfoldable pub lookup : ℕ → IntMap V → Option V
  lookup key [] = none
  lookup key ((other, value) ∷ entries) = if other == key then some value else lookup key entries

  -- `m[key] = value`: the key keeps its place if it has one.
  unfoldable pub insert : ℕ → V → IntMap V → IntMap V
  insert key value [] = (key, value) ∷ []
  insert key value ((other, old) ∷ entries) =
      let kept = insert key value entries in
      if other == key then (key, value) ∷ entries else (other, old) ∷ kept

  -- `delete(m, key)`.
  unfoldable pub delete : ℕ → IntMap V → IntMap V
  delete key [] = []
  delete key ((other, old) ∷ entries) =
      let kept = delete key entries in if other == key then kept else (other, old) ∷ kept

  pub lookup-insert :
      (new asked : ℕ) (value : V) (entries : IntMap V)
      → lookup asked (insert new value entries)
        ≡ (if new == asked then some value else lookup asked entries)
  unfolding lookup insert
  lookup-insert new asked value [] = refl
  lookup-insert new asked value ((other, old) ∷ entries) =
      ground (arith, lookup-insert new asked value entries)

  pub lookup-delete :
      (gone asked : ℕ) (entries : IntMap V)
      → lookup asked (delete gone entries) ≡ (if gone == asked then none else lookup asked entries)
  unfolding lookup delete
  lookup-delete gone asked [] = ground arith
  lookup-delete gone asked ((other, old) ∷ entries) =
      ground (arith, lookup-delete gone asked entries)
