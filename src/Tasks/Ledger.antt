-- ===== src/Tasks/Ledger.antt =====
-- backend/src/backend/domain/ledger/task_ledger.py and
-- infrastructure/database/repositories/ledger_repository.py: the ledger, whose `task_id` column is
-- unique.
use automated_short_drama.Prelude.{
  ℕ, String, ◌==◌, Bool, ◌||◌, Option, List, [], ◌∷◌, ◌++◌, if◌then◌else◌, select, any, find,
}
use automated_short_drama.Prelude.Rows.{update_where}
use automated_short_drama.Errors.{Result, ok, err, value_error, integrity}

pub record TaskLedger : Type 0 where
  pub task_id : String
  pub drama_name : String
  pub platform : String
  pub album_id : String
  pub product_id : String
  pub external_task_id : String
  pub task_name : String
  pub final_status : String
  pub rule_version : String
  pub config_version : String
  pub completed_at : Option ℕ
  pub id : String

abbrev pub Ledgers : Type 0
Ledgers = List TaskLedger

abbrev pub is_ledger : String → TaskLedger → Bool
is_ledger id l = l.id == id

abbrev pub of_task : String → TaskLedger → Bool
of_task task_id l = l.task_id == task_id

unfoldable pub add : TaskLedger → Ledgers → Result (TaskLedger × Ledgers)
add ledger ls =
    if any (is_ledger ledger.id) ls || any (of_task ledger.task_id) ls
    then err integrity
    else ok (ledger, ls ++ ledger ∷ [])

unfoldable pub get : String → Ledgers → Option TaskLedger
get id ls = find (is_ledger id) ls

unfoldable pub update : TaskLedger → Ledgers → Result (TaskLedger × Ledgers)
update ledger ls =
    if any (is_ledger ledger.id) ls
    then ok (ledger, update_where (is_ledger ledger.id) (λ _. ledger) ls)
    else err value_error

unfoldable pub list_by_task : String → Ledgers → List TaskLedger
list_by_task task_id ls = select (of_task task_id) ls
