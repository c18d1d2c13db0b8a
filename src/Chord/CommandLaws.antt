-- ===== src/Chord/CommandLaws.antt =====
-- What the command line of Lab3_Chord/chord.go does with a line of input.
use tda596labs.Base.{
  ◌==◌, if◌then◌else◌, Bool-cases, ok, ◌>>=◌, ℕ, String, ◌≡◌, refl, sym, ap, subst, ◌∙◌, ◌≢◌, ◌⊎◌,
  inl, inr, List, [], ◌∷◌, arith,
}
use tda596labs.Chord.Commands.{split_blanks, without_last}
use Prim.Native.String.{◌∷◌ as str_cons, ◌++◌ as str_append}
use Prim.Native.Char.{Char, char, code}
use text.Mathlib.TextLemmas.{cons-append, nil-append}
use text.Mathlib.TextEquality.{Char-path}

-- `strings.Join(words, " ")`.
abbrev pub join_blanks : List String → String
join_blanks [] = ""
join_blanks (word ∷ []) = word
join_blanks (word ∷ other ∷ words) = str_append word (str_append " " (join_blanks (other ∷ words)))

join_blanks-cons :
    (c : Char) (word : String) (words : List String)
    → join_blanks (str_cons c word ∷ words) ≡ str_cons c (join_blanks (word ∷ words))
join_blanks-cons c word [] = refl
join_blanks-cons c word (other ∷ words) = cons-append c word _

-- What one character makes of the words behind it.
abbrev pub add_char : Char → List String → List String
add_char c [] = []
add_char c (word ∷ words) = if code c == 32 then "" ∷ word ∷ words else str_cons c word ∷ words

pub words-cases :
    (words : List String) → (words ≡ []) ⊎ ((w : String) × (ws : List String) × (words ≡ w ∷ ws))
words-cases [] = inl refl
words-cases (w ∷ ws) = inr (w, ws, refl)

pub split_blanks-cons :
    (c : Char) (s : String) → split_blanks (str_cons c s) ≡ add_char c (split_blanks s)
unfolding split_blanks
split_blanks-cons c s = elim (words-cases (split_blanks s)) [
  | inl e ↦ rw e refl
  | inr (w, ws, e) ↦ rw e refl
]

pub split_blanks-some : (s : String) → (w : String) × (ws : List String) × (split_blanks s ≡ w ∷ ws)
split_blanks-some String.[] = ("", [], unfold split_blanks in refl)
split_blanks-some (str_cons c s) =
    let (w, ws, e) = split_blanks-some s in
    elim (Bool-cases (code c == 32)) [
      | inl b ↦ ("", w ∷ ws, split_blanks-cons c s ∙ rw (e, b) refl)
      | inr b ↦ (str_cons c w, ws, split_blanks-cons c s ∙ rw (e, b) refl)
    ]

abbrev pub blank_char : Char
blank_char = char 32 tt

-- Joined with blanks, the words of a line are the line.
pub join_blanks-split : (s : String) → join_blanks (split_blanks s) ≡ s
join_blanks-split String.[] = unfold split_blanks in refl
join_blanks-split (str_cons c s) =
    let (w, ws, e) = split_blanks-some s in
    let ih : join_blanks (w ∷ ws) ≡ s = rw (← e) (join_blanks-split s) in
    elim (Bool-cases (code c == 32)) [
      | inl b ↦
          let blank : c ≡ blank_char = Char-path c blank_char (ground arith) in
          rw (split_blanks-cons c s, e, b, ih, nil-append, blank, cons-append, nil-append) refl
      | inr b ↦ rw (split_blanks-cons c s, e, b) (join_blanks-cons c w ws ∙ ap (str_cons c) ih)
    ]

-- The last word of a line ends with the line.
abbrev pub Ends : List String → Type 0
Ends [] = ⊥
Ends (word ∷ []) = (v : String) × (word ≡ str_append v "\n")
Ends (word ∷ other ∷ words) = Ends (other ∷ words)

add_char-Ends : (c : Char) (words : List String) → Ends words → Ends (add_char c words)
add_char-Ends c [] h = absurd h
add_char-Ends c (word ∷ []) (v, e) = elim (Bool-cases (code c == 32)) [
  | inl b ↦ rw b (v, e)
  | inr b ↦ rw b (str_cons c v, ap (str_cons c) e ∙ sym (cons-append c v "\n"))
]
add_char-Ends c (word ∷ other ∷ words) h = elim (Bool-cases (code c == 32)) [
  | inl b ↦ rw b h
  | inr b ↦ rw b h
]

pub split_blanks-Ends : (line : String) → Ends (split_blanks (str_append line "\n"))
split_blanks-Ends String.[] = rw (nil-append "\n") (unfold split_blanks in ("", refl))
split_blanks-Ends (str_cons c s) =
    rw (cons-append c s "\n", split_blanks-cons c (str_append s "\n"))
      (add_char-Ends c _ (split_blanks-Ends s))

pub without_last-append : (s : String) → without_last (str_append s "\n") ≡ ok s
unfolding without_last
without_last-append String.[] = refl
without_last-append (str_cons c String.[]) = rw (cons-append c "" "\n") refl
without_last-append (str_cons c (str_cons d t)) =
    rw (cons-append c (str_cons d t) "\n", cons-append d t "\n")
      (ap (λ o. o >>= λ r. ok (str_cons c r))
        (subst (λ x. without_last x ≡ ok (str_cons d t)) (cons-append d t "\n")
          (without_last-append (str_cons d t))))

pub without_last_ok : (s : String) → s ≢ "" → (r : String) × (without_last s ≡ ok r)
unfolding without_last
without_last_ok String.[] n = absurd (n refl)
without_last_ok (str_cons c String.[]) n = ("", refl)
without_last_ok (str_cons c (str_cons d t)) n =
    let (r, e) = without_last_ok (str_cons d t) (λ e. absurd (cc e)) in (str_cons c r, rw e refl)

-- The code of the last character.
abbrev pub last_code : String → ℕ
last_code String.[] = 0
last_code (str_cons c String.[]) = code c
last_code (str_cons c (str_cons d t)) = last_code (str_cons d t)

pub last_code-append : (v : String) → last_code (str_append v "\n") ≡ 10
last_code-append String.[] = refl
last_code-append (str_cons c String.[]) = rw (cons-append c "" "\n") refl
last_code-append (str_cons c (str_cons d t)) =
    rw (cons-append c (str_cons d t) "\n", cons-append d t "\n")
      (subst (λ x. last_code x ≡ 10) (cons-append d t "\n") (last_code-append (str_cons d t)))
