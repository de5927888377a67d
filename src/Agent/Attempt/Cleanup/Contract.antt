-- ===== src/Agent/Attempt/Cleanup/Contract.antt =====
-- The order of the pipeline's calls on the sandbox, against the contract of its port in
-- docs/specs/2026-09-04-autophage-contracts.md: CommitAndPush removes the container before it runs git,
-- Tools is invalid after it, ConflictMarkers is valid only after it, and Teardown comes last.
use autophage.Base.{
  ◌≡◌, refl, inl, inr, String, Option, none, some, Option-cases, List, [], ◌∷◌, ◌++◌, ◌∙◌, arith,
}
use autophage.Agent.World.{
  reads_markers, prepares, enrolls, pushes, closes_tools, runs_agent, dials_tools, Answer, got,
  lost, Moment, World, Call, opens_pull_request, tears_down, starts, End, Step, goes_on, returns,
  prepend, ◌>>=◌, deferred,
}
use autophage.Agent.Attempt.{attempt, calls_of}

-- Before the container, while it runs, once CommitAndPush has removed it, and once Teardown has given
-- up the workspace.
pub data Phase : Type 0 where
  idle running removed released : Phase

-- What a call makes of the phase; `none` where the contract does not allow the call.
abbrev pub allows : Phase → Call → Option Phase
allows idle (enrolls b) = some idle
allows idle (prepares b t) = some idle
allows idle starts = some running
allows running dials_tools = some running
allows running runs_agent = some running
allows running closes_tools = some running
allows running (pushes t) = some removed
allows running tears_down = some released
allows removed reads_markers = some removed
allows removed (opens_pull_request head part) = some removed
allows removed closes_tools = some removed
allows removed tears_down = some released
allows _ _ = none

abbrev pub follows : Phase → List Call → Option Phase
follows p [] = some p
follows p (c ∷ cs) = elim (allows p c) [ none ↦ none | some q ↦ follows q cs ]

pub follows-append :
    (p q : Phase) (cs ds : List Call) → follows p cs ≡ some q → follows p (cs ++ ds) ≡ follows q ds
follows-append p q [] ds h = ground (arith, h)
follows-append p q (c ∷ cs) ds h = elim (Option-cases (allows p c)) [
  | inl refused ↦ absurd (ground (arith, refused, h))
  | inr (next, taken) ↦ ground (arith, taken, h, follows-append next q cs ds)
]

pub one_step : (p q : Phase) (c : Call) → allows p c ≡ some q → follows p (c ∷ []) ≡ some q
one_step p q c h = ground (arith, h)

-- The part keeps to the contract from `p` on, and leaves a phase of which `Q` holds.
pub record Reaches (p : Phase) (Q : Phase → Type 0) (m : Step End) : Type 0 where
  pub final : Phase
  pub way : follows p (calls_of m) ≡ some final
  pub good : Q final

pub prepend-Reaches :
    (p p' : Phase) (Q : Phase → Type 0) (cs : List Call) (m : Step End)
    → follows p cs ≡ some p'
    → Reaches p' Q m
    → Reaches p Q (prepend cs m)
prepend-Reaches p p' Q cs (goes_on ds a) h k = record {
  final = k.final;
  way = follows-append p p' cs ds h ∙ k.way;
  good = k.good;
}
prepend-Reaches p p' Q cs (returns ds e) h k = record {
  final = k.final;
  way = follows-append p p' cs ds h ∙ k.way;
  good = k.good;
}

pub deferred-Reaches :
    (p : Phase) (P Q : Phase → Type 0) (c : Call) (m : Step End)
    → ((q : Phase) → P q → (r : Phase) × (allows q c ≡ some r) × Q r)
    → Reaches p P m
    → Reaches p Q (deferred c m)
deferred-Reaches p P Q c (goes_on ds a) last k =
    let (r, taken, good) = last k.final k.good in
    record {
      final = r;
      way = follows-append p k.final ds (c ∷ []) k.way ∙ one_step k.final r c taken;
      good = good;
    }
deferred-Reaches p P Q c (returns ds e) last k =
    let (r, taken, good) = last k.final k.good in
    record {
      final = r;
      way = follows-append p k.final ds (c ∷ []) k.way ∙ one_step k.final r c taken;
      good = good;
    }

pub attempt-Reaches :
    {A : Type 0} (p : Phase) (Q : Phase → Type 0) (w : World) (m : Moment) (step : String)
    (r : Answer A) (f : A → Step End)
    → ((text : String) → r ≡ lost text → Q p)
    → ((a : A) → Reaches p Q (f a))
    → Reaches p Q (attempt w m step r >>= f)
attempt-Reaches p Q w m step (got a) f h k = prepend-Reaches p p Q [] (f a) refl (k a)
attempt-Reaches p Q w m step (lost text) f h k = record {
  final = p;
  way = refl;
  good = h text refl;
}
