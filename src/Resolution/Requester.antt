-- ===== src/Resolution/Requester.antt =====
-- internal/resolution/requester.go: who opened the issue or added the label, with the trust
-- verdict made at the time.
use autophage.Base.{String, is_blank, Result, ok, err, invalid, if◌then◌else◌}
use autophage.Resolution.Enums.{
  Association, association_owner, association_member, association_collaborator, Trust, trusted,
  untrusted, parse_association,
}

pub record Requester : Type 0 where
  pub login : String
  pub association : Association
  pub trust : Trust

-- Owner, member and collaborator are trusted; everything else is not.
unfoldable pub trust_of : Association → Trust
trust_of association_owner = trusted
trust_of association_member = trusted
trust_of association_collaborator = trusted
trust_of _ = untrusted

-- NewRequester is the only way to build a Requester. `lower` is Go's strings.ToLower.
unfoldable pub new_requester : (String → String) → String → String → Result Requester
new_requester lower login assoc =
    if is_blank login then err invalid else elim (parse_association lower assoc) [
      | ok parsed ↦ ok (record { login = login; association = parsed; trust = trust_of parsed })
      | err e ↦ err e
    ]
