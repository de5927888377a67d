-- ===== src/Store/Cases/Names.antt =====
-- Cases up to what the database makes of the rows: the ids that it generates for attempts and
-- approvals, and the delivery of an approval that no label gave.
use autophage.Base.{◌≡◌, refl, ap, ℕ, suc, String, List, [], ◌∷◌, ◌++◌, map, arith, length}
use mathlib.Core.Path.{ap₂}
use autophage.Resolution.Facts.{Approval, Attempt, Run, Outcome}
use autophage.Resolution.Case.State.{Case, Changes}
use autophage.Resolution.Case.Attempts.{opens, Numbered}
use autophage.Resolution.Case.Rows.{patch}
use autophage.Resolution.Case.Persist.{replay}
use autophage.Resolution.Case.Invariant.{IsValid}
use autophage.Store.Database.{Server}
use autophage.Store.Cases.{identify, stored_approval, stored_approvals, persist_changes}

abbrev pub unnamed : Attempt → Attempt
unnamed a = record a { id = "" }

abbrev pub unnamed_approval : Approval → Approval
unnamed_approval a = stored_approval "" a

-- The case without the ids of its attempts and approvals, and with the deliveries of labels only.
abbrev pub nameless : Case → Case
nameless c = record c {
  approvals = map unnamed_approval c.approvals;
  attempts = map unnamed c.attempts;
}

module _ (server : Server) (id : String) (rs : List (ℕ × Run)) (os : List (ℕ × Outcome)) where
  identify-unnamed :
      (l : List Attempt)
      → map unnamed (map (patch rs os) (map (identify server id) l))
        ≡ map unnamed (map (patch rs os) l)
  identify-unnamed [] = refl
  identify-unnamed (a ∷ l) =
      ap (λ (x : List Attempt). unnamed (patch rs os a) ∷ x) (identify-unnamed l)

  pub rows_unnamed :
      (l m : List Attempt)
      → map unnamed (map (patch rs os) (l ++ map (identify server id) m))
        ≡ map unnamed (map (patch rs os) (l ++ m))
  rows_unnamed [] m = identify-unnamed m
  rows_unnamed (a ∷ l) m = ap (λ (x : List Attempt). unnamed (patch rs os a) ∷ x) (rows_unnamed l m)

stored_approval-unnamed :
    (id : String) (a : Approval) → unnamed_approval (stored_approval id a) ≡ unnamed_approval a
stored_approval-unnamed id a = ground arith

approvals_unnamed :
    (server : Server) (id : String) (n : ℕ) (l m : List Approval)
    → map unnamed_approval (l ++ stored_approvals server id n m) ≡ map unnamed_approval (l ++ m)
approvals_unnamed server id n [] [] = refl
approvals_unnamed server id n [] (a ∷ m) =
    ap₂ (λ (x : Approval) (y : List Approval). x ∷ y)
      (stored_approval-unnamed (server.approval_id id n) a)
      (approvals_unnamed server id (suc n) [] m)
approvals_unnamed server id n (a ∷ l) m =
    ap (λ (y : List Approval). unnamed_approval a ∷ y) (approvals_unnamed server id n l m)

pub persist_changes-nameless :
    (server : Server) (s : Case) (ch : Changes)
    → nameless (persist_changes server s ch) ≡ nameless (replay s ch)
unfolding persist_changes
persist_changes-nameless server s ch =
    ap₂
      (λ (p : List Approval) (l : List Attempt). record (replay s ch) {
        approvals = p;
        attempts = l;
      })
      (approvals_unnamed server s.id (length s.approvals) s.approvals ch.approvals)
      (rows_unnamed server s.id ch.runs ch.outcomes s.attempts ch.attempts)

pub opens-unnamed : (l : List Attempt) → opens (map unnamed l) ≡ opens l
opens-unnamed [] = refl
opens-unnamed (a ∷ l) = ground (arith, opens-unnamed l)

Numbered-unnamed : (n : ℕ) (l : List Attempt) → Numbered n l → Numbered n (map unnamed l)
Numbered-unnamed n [] h = tt
Numbered-unnamed n (a ∷ l) h = (h.0, Numbered-unnamed (suc n) l h.1)

Numbered-named : (n : ℕ) (l : List Attempt) → Numbered n (map unnamed l) → Numbered n l
Numbered-named n [] h = tt
Numbered-named n (a ∷ l) h = (h.0, Numbered-named (suc n) l h.1)

empty-named : (l : List Attempt) → map unnamed l ≡ [] → l ≡ []
empty-named [] h = refl
empty-named (a ∷ l) h = ground arith

pub nameless-IsValid : (c : Case) → IsValid c → IsValid (nameless c)
nameless-IsValid c v =
    ground (arith, opens-unnamed c.attempts, Numbered-unnamed 1 c.attempts v.numbered)

pub named-IsValid : (c : Case) → IsValid (nameless c) → IsValid c
named-IsValid c v = ground (
  arith,
  opens-unnamed c.attempts,
  Numbered-named 1 c.attempts v.numbered,
  empty-named c.attempts,
)
