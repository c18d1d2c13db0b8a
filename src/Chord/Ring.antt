-- ===== src/Chord/Ring.antt =====
-- The identifier ring: `between`, `mod`, `jumpIdentifier` and `verifyRange` of
-- Lab3_Chord/chordUtil.go. A `big.Int` here is never negative, so it is a natural number.
use tda596labs.Base.{
  ltb, leb, ◌==◌, if◌then◌else◌, ℕ, ◌+◌, ◌-◌, ◌%◌, ◌^◌, ◌≤◌, ◌<◌, ◌≡◌, ◌≢◌, Bool, true, false, not,
  ◌&&◌, ◌||◌, arith,
}
use native.Mathlib.Nat.{pow-le-pow_right, one-le-pow}

abbrev pub key_size : ℕ
key_size = 160

abbrev pub hash_mod : ℕ
hash_mod = 2 ^ key_size

unfoldable pub mod_ring : ℕ → ℕ
mod_ring input = input % hash_mod

-- `big.Int.Exp` returns 1 for a negative exponent, as the truncated `-` does here.
unfoldable pub jump_identifier : ℕ → ℕ → ℕ
jump_identifier identifier fingerentry = (identifier + 2 ^ (fingerentry - 1)) % hash_mod

unfoldable pub between : ℕ → ℕ → ℕ → Bool → Bool
between start elt end inclusive =
    if ltb start end
    then (ltb start elt && ltb elt end) || (inclusive && elt == end)
    else ltb start elt || ltb elt end || (inclusive && elt == end)

unfoldable pub verify_range : ℕ → ℕ → ℕ → Bool
verify_range stabilize fix_fingers check_pred =
    let stab = ltb 0 stabilize && ltb stabilize 60001 in
    let finger = ltb 0 fix_fingers && ltb fix_fingers 60001 in
    let check = ltb 0 check_pred && ltb check_pred 60001 in stab && finger && check

-- How many steps clockwise from the point after `a` to `b`.
abbrev pub offset : ℕ → ℕ → ℕ
offset a b = (b + hash_mod - (a + 1)) % hash_mod

offset_after : (a b : ℕ) → a < hash_mod → b < hash_mod → a < b → offset a b ≡ b - (a + 1)
offset_after a b h k l = omega arith

offset_wraps : (a b : ℕ) → a < hash_mod → b < hash_mod → b ≤ a → offset a b ≡ b + hash_mod - (a + 1)
offset_wraps a b h k l = omega arith

-- On the ring, `between` with the end included says that `elt` is met no later than `end` when one
-- walks clockwise from the point after `start`.
pub between_inclusive :
    (start elt end : ℕ)
    → start < hash_mod
    → elt < hash_mod
    → end < hash_mod
    → between start elt end true ≡ leb (offset start elt) (offset start end)
unfolding between
between_inclusive start elt end h k l = ground (
  arith,
  offset_after start elt h k,
  offset_wraps start elt h k,
  offset_after start end h l,
  offset_wraps start end h l,
)

-- With the end left out, `elt` is met before `end`, if the two ends differ.
pub between_exclusive :
    (start elt end : ℕ)
    → start < hash_mod
    → elt < hash_mod
    → end < hash_mod
    → start ≢ end
    → between start elt end false ≡ ltb (offset start elt) (offset start end)
unfolding between
between_exclusive start elt end h k l n = ground (
  arith,
  offset_after start elt h k,
  offset_wraps start elt h k,
  offset_after start end h l,
  offset_wraps start end h l,
)

-- Two different nodes split the ring: every identifier lies in exactly one of the two arcs.
pub between_splits : (s t elt : ℕ) → s ≢ t → between s elt t true ≡ not (between t elt s true)
unfolding between
between_splits s t elt n = ground arith

finger_step : (n : ℕ) → n ≤ key_size → 2 ^ (n - 1) ≤ 2 ^ 159
finger_step n h = pow-le-pow_right (omega arith) {j = 159} (omega arith)

-- Finger `n` of a node is a point of the ring, 2^(n-1) steps clockwise from the node.
pub offset-jump_identifier :
    (identifier n : ℕ)
    → identifier < hash_mod
    → n ≤ key_size
    → (jump_identifier identifier n < hash_mod)
      × (offset identifier (jump_identifier identifier n) + 1 ≡ 2 ^ (n - 1))
unfolding jump_identifier
offset-jump_identifier identifier n h k =
    (omega arith, omega (arith, finger_step n k, one-le-pow (n - 1) 2))
