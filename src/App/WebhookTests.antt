-- ===== src/App/WebhookTests.antt =====
-- The theorems on the translator of deliveries, applied to concrete deliveries.
use autophage.Base.{str_eq, ◌≡◌, refl, pos, [], ◌∷◌, All}
use autophage.Store.Cases.Updates.{IsStored}
use autophage.Github.Events.{Translator, IssuesEvent, issues, Delivery}
use autophage.Github.Translator.{Inbox, translate, process_all}
use autophage.Github.Translator.Stored.{process_all-IsStored}
use autophage.Github.Translator.Repeats.{LeavesCases, translate-LeavesCases}
use autophage.Github.Translator.Rows.{row_ids, process_all-rows}
use autophage.App.Examples.{queued_case, server, database, found_queued}

abbrev translator : Translator
translator = record {
  server = server;
  now = λ n. n;
  approved_label = "approved";
  bot_login = "autophage[bot]";
  lower = λ s. "owner";
}

abbrev issue_opened : IssuesEvent
issue_opened = record {
  action = "opened";
  repository = "o/r";
  number = pos 7;
  author_login = "ada";
  author_association = "OWNER";
  label = "";
  sender_login = "ada";
}

abbrev delivery : Delivery
delivery = record { id = "d1"; sender_login = "ada"; event = issues issue_opened }

-- The same event under another id.
abbrev repeated : Delivery
repeated = record delivery { id = "d2" }

abbrev inbox : Inbox
inbox = record { database = record (database queued_case) { cases = [] }; processings = [] }

process_all-IsStored_example :
    All IsStored (process_all translator (delivery ∷ repeated ∷ []) inbox).database.cases
process_all-IsStored_example = process_all-IsStored translator (delivery ∷ repeated ∷ []) inbox tt

translate-LeavesCases_example :
    LeavesCases (database queued_case) (translate translator delivery (database queued_case))
translate-LeavesCases_example =
    translate-LeavesCases translator "d1" "ada" issue_opened (database queued_case) queued_case refl
      found_queued

process_all-rows_example :
    row_ids (process_all translator (delivery ∷ repeated ∷ []) inbox) ≡ "d1" ∷ "d2" ∷ []
unfolding str_eq
process_all-rows_example =
    process_all-rows translator (delivery ∷ repeated ∷ []) inbox (λ n. refl) tt (refl, (refl, tt))
