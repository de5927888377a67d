-- ===== src/Base/Texts.antt =====
-- Go's concatenation of texts, and what it leaves of them.
use Prim.Native.String.{String}
use mathlib.Core.Path.{◌≡◌}
use mathlib.Core.Logic.{inl, inr}
use mathlib.Core.Bool.{false}
use autophage.Base.Tests.{is_blank, str_eq, str_eq_iff, Bool-cases}

infixr 65 ◌<>◌
unfoldable pub ◌<>◌ : String → String → String
String.[] <> t = t
String.◌∷◌ c s <> t = String.◌∷◌ c (s <> t)

cons_not_blank : (c : _) (s : String) → is_blank (String.◌∷◌ c s) ≡ false
unfolding is_blank
cons_not_blank c s = elim (Bool-cases (str_eq (String.◌∷◌ c s) "")) [
  | inl same ↦ cc ((str_eq_iff (String.◌∷◌ c s) "").0 same)
  | inr other ↦ other
]

-- A concatenation is empty only if both parts are.
pub not_blank_left : (s t : String) → is_blank s ≡ false → is_blank (s <> t) ≡ false
unfolding ◌<>◌ is_blank str_eq
not_blank_left String.[] t h = cc h
not_blank_left (String.◌∷◌ c s) t h = cons_not_blank c (s <> t)
