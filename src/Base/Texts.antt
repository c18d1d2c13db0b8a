-- ===== src/Base/Texts.antt =====
-- Equality tests on texts: Go's `==` on `string`.
use Prim.Native.String.{String}
use mathlib.Core.Path.{◌≡◌, refl, sym, ◌∙◌}
use mathlib.Core.Logic.{◌↔◌, ◌≢◌}
use mathlib.Core.Bool.{Bool, true, false}
use native.Mathlib.Omega.{arith}
use text.Mathlib.Text.{◌==◌ as str_eq}
use text.Mathlib.TextEquality.{eq_iff}

abbrev pub same : String → String → Bool
same = str_eq

pub same_iff : (s t : String) → (same s t ≡ true) ↔ (s ≡ t)
same_iff = eq_iff

pub same_refl : (s : String) → same s s ≡ true
same_refl s = (eq_iff s s).1 refl

pub same_of_eq : (s t : String) → s ≡ t → same s t ≡ true
same_of_eq s t e = (eq_iff s t).1 e

pub same_ne : (s t : String) → s ≢ t → same s t ≡ false
same_ne s t h = ground (arith, eq_iff s t)

pub ne_of_same : (s t : String) → same s t ≡ false → s ≢ t
ne_of_same s t h e = cc (sym h ∙ same_of_eq s t e)
