-- ===== src/Base/Results.antt =====
-- Go errors as values. `errors.go` of the resolution package has two sentinels, and callers only
-- ask which of the two an error wraps: the formatted detail is left out.
use mathlib.Core.Path.{◌≡◌, refl}
use mathlib.Core.Logic.{◌⊎◌, inl, inr}
use mathlib.Core.Bool.{Bool}
use autophage.Base.Tests.{if◌then◌else◌}

-- `invalid` is ErrInvalid, a value that a constructor would not build; `refused` is ErrRefused, a
-- transition that the aggregate does not allow in its state.
pub data Error : Type 0 where
  invalid refused : Error

pub data Result {ℓ} (A : Type ℓ) : Type ℓ where
  ok : A → Result A
  err : Error → Result A

-- A method on a mutable receiver: it maps the receiver to the receiver that it leaves behind,
-- whether it returns a value or an error.
abbrev pub Method : Type 0 → Type 0 → Type 0
Method S A = S → S × Result A

abbrev then_call : {S A B : Type 0} → S × Result A → (A → Method S B) → S × Result B
then_call m f = elim m.1 [ ok a ↦ f a m.0 | err e ↦ (m.0, err e) ]

infixl 5 ◌>>=◌ ◌>>◌
abbrev pub ◌>>=◌ : {S A B : Type 0} → Method S A → (A → Method S B) → Method S B
◌>>=◌ m f s = then_call (m s) f

abbrev pub ◌>>◌ : {S B : Type 0} → Method S (Unit {0}) → Method S B → Method S B
◌>>◌ m k s = then_call (m s) (λ _. k)

-- `return a`, and `return err`.
abbrev pub give : {S A : Type 0} → A → Method S A
give a s = (s, ok a)

abbrev pub fail : {S A : Type 0} → Error → Method S A
fail e s = (s, err e)

-- The receiver, and a write to it.
abbrev pub get : {S : Type 0} → Method S S
get s = (s, ok s)

abbrev pub modify : {S : Type 0} → (S → S) → Method S (Unit {0})
modify f s = (f s, ok tt)

-- `if bad { return err }`.
abbrev pub reject_if : {S : Type 0} → Bool → Error → Method S (Unit {0})
reject_if bad e s = (s, if bad then err e else ok tt)

-- `x, err := f(); if err != nil { return err }` for an `f` that reads no receiver.
abbrev pub try : {S A : Type 0} → Result A → Method S A
try r s = (s, r)

-- A call whose value the caller drops.
abbrev pub forget : {A : Type 0} → Result A → Result (Unit {0})
forget (ok a) = ok tt
forget (err e) = err e

abbrev pub discard : {S A : Type 0} → Method S A → Method S (Unit {0})
discard m s = ((m s).0, forget (m s).1)

pub err_of-forget : {A : Type 0} (r : Result A) {e : Error} → forget r ≡ err e → r ≡ err e
err_of-forget (ok a) h = cc
err_of-forget (err e) h = cc

pub Result-cases :
    {A : Type 0} (r : Result A) → ((a : A) × (r ≡ ok a)) ⊎ ((e : Error) × (r ≡ err e))
Result-cases (ok a) = inl (a, refl)
Result-cases (err e) = inr (e, refl)
