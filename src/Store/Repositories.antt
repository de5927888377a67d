-- ===== src/Store/Repositories.antt =====
-- internal/store/repositories.go: enrolment and removal. The row of a repository is joined with that
-- of its removal.
use autophage.Base.{none, some, String, List, [], ◌∷◌, if◌then◌else◌, str_eq, is_none}
use autophage.Resolution.Facts.{Time}
use autophage.Resolution.Repository.{Repository}
use autophage.Store.Database.{done, Server, Access, tx}

-- `on conflict (full_name) do update`, and the removal deleted: the first enrolment's time stays.
unfoldable pub enroll_row : Repository → List Repository → List Repository
enroll_row r [] = record r { removed = none } ∷ []
enroll_row r (x ∷ xs) =
    if str_eq x.full_name r.full_name
    then record x {
      installation_id = r.installation_id;
      default_branch = r.default_branch;
      removed = none;
    }
      ∷ xs
    else x ∷ enroll_row r xs

-- EnrollRepository.
unfoldable pub enroll_repository : Server → Repository → Access (Unit {0})
unfolding enroll_row
enroll_repository server r =
    tx server (λ db. (record db { repositories = enroll_row r db.repositories }, done tt))

-- `on conflict (repository) do nothing`: the first removal's time stays.
unfoldable pub remove_row : String → Time → List Repository → List Repository
remove_row name at [] = []
remove_row name at (x ∷ xs) =
    if str_eq x.full_name name
    then (if is_none x.removed then record x { removed = some at } else x) ∷ xs
    else x ∷ remove_row name at xs

-- RemoveRepository. Unknown repositories are ignored.
unfoldable pub remove_repository : Server → String → Time → Access (Unit {0})
unfolding remove_row
remove_repository server name at =
    tx server (λ db. (record db { repositories = remove_row name at db.repositories }, done tt))
