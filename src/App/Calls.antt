-- ===== src/App/Calls.antt =====
-- Sequences of calls of the store that return at the first failure.
use autophage.Store.Database.{Failure, Reply, done, fails, Access}

abbrev after : {A B : Type 0} → Reply A → (A → Access B) → Access B
after (done a) f db = f a db
after (fails e) f db = (db, fails e)

infixl 5 ◌>>=◌
abbrev pub ◌>>=◌ : {A B : Type 0} → Access A → (A → Access B) → Access B
◌>>=◌ m f db = after (m db).1 f (m db).0

abbrev pub give : {A : Type 0} → A → Access A
give a db = (db, done a)

abbrev pub fail : {A : Type 0} → Failure → Access A
fail e db = (db, fails e)
