-- ===== src/Base/Vocabulary.antt =====
-- Closed vocabularies: `parseEnum` of internal/resolution/enums.go, and its copy in
-- internal/upkeep/enums.go. A Go enumeration is a string type, so a variable of it holds one of
-- the listed constants or any other text.
use Prim.Native.String.{String}
use mathlib.Core.Path.{◌≡◌, refl}
use mathlib.Core.Logic.{◌⊎◌, inl, inr}
use mathlib.Core.Bool.{Bool, true, false}
use mathlib.Core.List.{List, [], ◌∷◌}
use native.Mathlib.Omega.{arith}
use autophage.Base.Tests.{if◌then◌else◌, str_eq, str_eq_iff, Bool-cases}
use autophage.Base.Results.{Result, ok, err, invalid}

-- What such a variable holds: a constant of the vocabulary, or a text outside of it.
pub data Spelling (A : Type 0) : Type 0 where
  known : A → Spelling A
  other : String → Spelling A

-- The zero value of a string type.
abbrev pub blank : {A : Type 0} → Spelling A
blank = other ""

-- The loop over the listed constants.
unfoldable pub parse_enum : {A : Type 0} → (A → String) → List A → String → Result A
parse_enum spell [] v = err invalid
parse_enum spell (x ∷ xs) v = if str_eq (spell x) v then ok x else parse_enum spell xs v

-- What a text is as a value of the string type.
unfoldable pub read : {A : Type 0} → (A → String) → List A → String → Spelling A
read spell all v = elim (parse_enum spell all v) [ ok a ↦ known a | err e ↦ other v ]

-- `ParseX(string(x))`: every constant is accepted, any other text is ErrInvalid.
abbrev pub parse : {A : Type 0} → Spelling A → Result A
parse (known a) = ok a
parse (other v) = err invalid

-- Go's `x == C` for a constant C, by the test on constants.
abbrev pub is : {A : Type 0} → (A → Bool) → Spelling A → Bool
is test (known a) = test a
is test (other v) = false

-- A text outside of the vocabulary.
abbrev pub is_other : {A : Type 0} → Spelling A → Bool
is_other (known a) = false
is_other (other v) = true

-- What parses is spelled by the constant that comes out.
spell-parse_enum :
    {A : Type 0} (spell : A → String) (all : List A) (v : String) (a : A)
    → parse_enum spell all v ≡ ok a
    → spell a ≡ v
unfolding parse_enum
spell-parse_enum spell [] v a h = ground arith
spell-parse_enum spell (x ∷ xs) v a h =
    ground (arith, str_eq_iff (spell x) v, spell-parse_enum spell xs v a)

-- The loop finds a constant or reports ErrInvalid, never ErrRefused.
parse_enum-cases :
    {A : Type 0} (spell : A → String) (all : List A) (v : String)
    → ((a : A) × (parse_enum spell all v ≡ ok a)) ⊎ (parse_enum spell all v ≡ err invalid)
unfolding parse_enum
parse_enum-cases spell [] v = inr refl
parse_enum-cases spell (x ∷ xs) v = elim (Bool-cases (str_eq (spell x) v)) [
  | inl hit ↦ inl (x, rw hit)
  | inr miss ↦ rw miss (parse_enum-cases spell xs v)
]

-- The model's `parse`, on the value that a text is, is the loop of the code on the text.
pub parse-read :
    {A : Type 0} (spell : A → String) (all : List A) (v : String)
    → parse (read spell all v) ≡ parse_enum spell all v
unfolding read
parse-read spell all v = elim (parse_enum-cases spell all v) [
  | inl (a, found) ↦ rw (found, read)
  | inr missing ↦ rw (missing, read)
]

-- `if _, err := ParseX(string(x)); err != nil { return err }`.
abbrev pub check : {A : Type 0} → Spelling A → Result (Unit {0})
check (known a) = ok tt
check (other v) = err invalid

pub Spelling-cases :
    {A : Type 0} (x : Spelling A) → ((a : A) × (x ≡ known a)) ⊎ ((v : String) × (x ≡ other v))
Spelling-cases (known a) = inl (a, refl)
Spelling-cases (other v) = inr (v, refl)

-- Every constant parses from its own text, and no other text parses to it.
pub record IsVocabulary {A : Type 0} (spell : A → String) (all : List A) : Type 0 where
  pub parses : (a : A) → parse_enum spell all (spell a) ≡ ok a
  pub only : (v : String) (a : A) → parse_enum spell all v ≡ ok a → spell a ≡ v

pub vocabulary :
    {A : Type 0} (spell : A → String) (all : List A)
    → ((a : A) → parse_enum spell all (spell a) ≡ ok a)
    → IsVocabulary spell all
vocabulary spell all h = record { parses = h; only = spell-parse_enum spell all }
