-- ===== src/Resolution/Vocabularies.antt =====
-- The vocabularies of internal/resolution/enums.go, against their parsers.
use autophage.Base.{◌≡◌, ok, String}
use autophage.Resolution.Enums.{Association, association_text, parse_association}

-- ParseAssociation takes every constant in the spellings that `lower` brings to its text, and no
-- other text.
pub record IsFolded (lower : String → String) : Type 0 where
  pub parses :
      (a : Association) (v : String)
      → lower v ≡ association_text a
      → parse_association lower v ≡ ok a
  pub only :
      (a : Association) (v : String)
      → parse_association lower v ≡ ok a
      → lower v ≡ association_text a
