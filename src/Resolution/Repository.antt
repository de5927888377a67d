-- ===== src/Resolution/Repository.antt =====
-- internal/resolution/repository.go: an enrolled repository. A full name is its bytes, cut at '/'.
use autophage.Base.{
  ℕ, ℤ, pos, leb_ℤ, String, Bool, true, false, ◌||◌, not, Option, none, some, List, [], ◌∷◌, any_if,
  ◌==◌, Result, ok, err, invalid, if◌then◌else◌, is_blank, is_none, codes,
}
use autophage.Resolution.Facts.{Time}

pub record Repository : Type 0 where
  pub full_name : String
  pub installation_id : ℤ
  pub default_branch : String
  pub enrolled_at : Time
  pub removed : Option Time

-- strings.Cut(s, "/"): what stands before the first slash, and what follows it if there is one.
unfoldable pub cut : List ℕ → List ℕ × Option (List ℕ)
cut [] = ([], none)
cut (c ∷ s) = elim (c == b'/') [
  | true ↦ ([], some s)
  | false ↦ let (before, after) = cut s in (c ∷ before, after)
]

abbrev is_nil : List ℕ → Bool
is_nil [] = true
is_nil (c ∷ s) = false

-- The guard of NewRepository: an owner and a name, with no further slash.
abbrev pub is_full_name : List ℕ × Option (List ℕ) → Bool
is_full_name (owner, none) = false
is_full_name (owner, some name) = not (is_nil owner || is_nil name || any_if (λ c. c == b'/') name)

unfoldable pub new_repository : String → ℤ → String → Time → Result Repository
unfolding cut
new_repository full_name installation_id default_branch at =
    if not (is_full_name (cut (codes full_name)))
    then err invalid
    else if leb_ℤ installation_id (pos 0)
    then err invalid
    else if is_blank default_branch
    then err invalid
    else ok (record {
      full_name = full_name;
      installation_id = installation_id;
      default_branch = default_branch;
      enrolled_at = at;
      removed = none;
    })

-- Enrolled.
abbrev pub is_enrolled : Repository → Bool
is_enrolled r = is_none r.removed
