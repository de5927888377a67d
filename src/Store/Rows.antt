-- ===== src/Store/Rows.antt =====
-- The rows of the cases under a write to one of them.
use autophage.Base.{
  subst, ◌≡◌, refl, sym, ap, ◌∙◌, ◌≢◌, inl, inr, ℕ, ◌+◌, ℤ, pos, negsuc, eqb_ℤ, String, Bool, true,
  false, ◌&&◌, some, List, [], ◌∷◌, All, arith, str_eq, str_eq_iff, Bool-cases,
}
use mathlib.Core.Path.{ap₂}
use autophage.Resolution.Case.State.{Case}
use autophage.Resolution.Case.Attempts.{opens}
use autophage.Store.Database.{CaseKey, key_of, has_key, find_case, put_case}

eqb_ℤ-sound : (a b : ℤ) → eqb_ℤ a b ≡ true → a ≡ b
eqb_ℤ-sound (pos m) (pos n) h = ap pos (ground (arith, h))
eqb_ℤ-sound (pos m) (negsuc n) h = absurd (ground (arith, h))
eqb_ℤ-sound (negsuc m) (pos n) h = absurd (ground (arith, h))
eqb_ℤ-sound (negsuc m) (negsuc n) h = ap negsuc (ground (arith, h))

eqb_ℤ-refl : (a : ℤ) → eqb_ℤ a a ≡ true
eqb_ℤ-refl (pos m) = ground arith
eqb_ℤ-refl (negsuc m) = ground arith

both_true : (a b : Bool) → (a && b) ≡ true → (a ≡ true) × (b ≡ true)
both_true true b h = (refl, h)
both_true false b h = absurd (ground (arith, h))

pub has_key_sound : (k : CaseKey) (c : Case) → has_key k c ≡ true → key_of c ≡ k
has_key_sound k c h =
    let (r, n) = both_true (str_eq c.repository k.repository) (eqb_ℤ c.number k.number) h in
    ap₂ (λ (x : String) (y : ℤ). record { repository = x; number = y })
      ((str_eq_iff c.repository k.repository).0 r) (eqb_ℤ-sound c.number k.number n)

pub has_key-own : (c : Case) → has_key (key_of c) c ≡ true
has_key-own c = ground (arith, (str_eq_iff c.repository c.repository).1 refl, eqb_ℤ-refl c.number)

pub has_key-other : (k : CaseKey) (c : Case) → key_of c ≢ k → has_key k c ≡ false
has_key-other k c other = elim (Bool-cases (has_key k c)) [
  | inl same ↦ absurd (other (has_key_sound k c same))
  | inr differs ↦ differs
]

pub has_key-same : (k : CaseKey) (c : Case) → key_of c ≡ k → has_key k c ≡ true
has_key-same k c e = rw (sym e) (has_key-own c)

pub find_case-key :
    (k : CaseKey) (cs : List Case) (s : Case) → find_case k cs ≡ some s → key_of s ≡ k
unfolding find_case
find_case-key k [] s h = absurd (ground (arith, h))
find_case-key k (c ∷ cs) s h = elim (Bool-cases (has_key k c)) [
  | inl same ↦ ground (arith, h, same, has_key_sound k c same)
  | inr differs ↦ find_case-key k cs s (ground (arith, h, differs))
]

-- A write is read back.
pub find_case-put_same :
    (k : CaseKey) (c s : Case) (cs : List Case)
    → find_case k cs ≡ some s
    → key_of c ≡ k
    → find_case k (put_case k c cs) ≡ some c
unfolding find_case put_case
find_case-put_same k c s [] h e = absurd (ground (arith, h))
find_case-put_same k c s (d ∷ cs) h e = elim (Bool-cases (has_key k d)) [
  | inl same ↦ ground (arith, same, has_key-same k c e)
  | inr differs ↦ ground (arith, h, differs, find_case-put_same k c s cs)
]

-- No other key sees it.
pub find_case-put_other :
    (j k : CaseKey) (c : Case) (cs : List Case)
    → key_of c ≡ k
    → k ≢ j
    → find_case j (put_case k c cs) ≡ find_case j cs
unfolding find_case put_case
find_case-put_other j k c [] e other = refl
find_case-put_other j k c (d ∷ cs) e other = elim (Bool-cases (has_key k d)) [
  | inl same ↦ ground (
    arith,
    same,
    has_key-other j c (λ x. other (sym e ∙ x)),
    has_key-other j d (λ x. other (sym (has_key_sound k d same) ∙ x)),
  )
  | inr differs ↦ ground (arith, differs, find_case-put_other j k c cs e other)
]

pub put_case-All :
    (P : Case → Type 0) (k : CaseKey) (c : Case) (cs : List Case)
    → P c
    → All P cs
    → All P (put_case k c cs)
unfolding put_case
put_case-All P k c [] p h = h
put_case-All P k c (d ∷ cs) p h = elim (Bool-cases (has_key k d)) [
  | inl same ↦ rw (put_case, same) (p, h.1)
  | inr differs ↦ rw (put_case, differs) (h.0, put_case-All P k c cs p h.1)
]

pub find_case-All :
    (P : Case → Type 0) (k : CaseKey) (cs : List Case) {s : Case}
    → All P cs
    → find_case k cs ≡ some s
    → P s
unfolding find_case
find_case-All P k [] h e = absurd (ground (arith, e))
find_case-All P k (d ∷ cs) {s} h e = elim (Bool-cases (has_key k d)) [
  | inl same ↦ subst P (ground (arith, e, same)) h.0
  | inr differs ↦ find_case-All P k cs h.1 (ground (arith, e, differs))
]

-- The open attempts of all cases.
abbrev pub open_total : List Case → ℕ
open_total [] = 0
open_total (c ∷ cs) = opens c.attempts + open_total cs

pub open_total-put_case :
    (k : CaseKey) (c s : Case) (cs : List Case)
    → find_case k cs ≡ some s
    → open_total (put_case k c cs) + opens s.attempts ≡ open_total cs + opens c.attempts
unfolding find_case put_case
open_total-put_case k c s [] h = absurd (ground (arith, h))
open_total-put_case k c s (d ∷ cs) h = elim (Bool-cases (has_key k d)) [
  | inl same ↦ ground (arith, h, same)
  | inr differs ↦ ground (arith, h, differs, open_total-put_case k c s cs)
]
