-- ===== src/Queue/Machine.antt =====
-- backend/src/backend/domain/queue/state_machine.py
use automated_short_drama.Prelude.{◌≡◌, refl, Bool, true, false, List, [], ◌∷◌, any, if◌then◌else◌}
use automated_short_drama.Errors.{Result, ok, err, conflict, illegal_transition}
use automated_short_drama.Queue.Item.{
  QueueState, waiting_time, queued, claimed, running, retry_wait, paused, manual_review, failed,
  dry_run, completed, cancelled, state_eq,
}

abbrev pub transitions : QueueState → List QueueState
transitions waiting_time = queued ∷ []
transitions queued = claimed ∷ paused ∷ cancelled ∷ []
transitions claimed = running ∷ queued ∷ paused ∷ manual_review ∷ completed ∷ cancelled ∷ []
transitions running =
    completed ∷ dry_run ∷ retry_wait ∷ paused ∷ manual_review ∷ failed ∷ cancelled ∷ queued ∷ []
transitions retry_wait = queued ∷ manual_review ∷ []
transitions paused = queued ∷ running ∷ cancelled ∷ []
transitions manual_review = queued ∷ cancelled ∷ []
transitions completed = []
transitions cancelled = []
transitions failed = queued ∷ []
transitions dry_run = []

unfoldable pub can_transition : QueueState → QueueState → Bool
can_transition current target = any (state_eq target) (transitions current)

unfoldable pub transition : QueueState → QueueState → Result QueueState
unfolding can_transition
transition current target =
    if can_transition current target then ok target else err (conflict illegal_transition)

-- A chain of allowed transitions.
pub data Reaches (s : QueueState) : QueueState → Type 0 where
  here : Reaches s s
  step : {t u : QueueState} → Reaches s t → can_transition t u ≡ true → Reaches s u

abbrev pub is_final : QueueState → Bool
is_final completed = true
is_final cancelled = true
is_final dry_run = true
is_final _ = false

from_queued : {s : QueueState} → Reaches s queued → Reaches s completed
unfolding can_transition
from_queued p = step (step {u = claimed} p refl) refl

-- From every state that is not final a chain of transitions leads to completion.
not_final-Reaches_completed : (s : QueueState) → is_final s ≡ false → Reaches s completed
unfolding can_transition
not_final-Reaches_completed waiting_time e = from_queued (step here refl)
not_final-Reaches_completed queued e = from_queued here
not_final-Reaches_completed claimed e = step here refl
not_final-Reaches_completed running e = step here refl
not_final-Reaches_completed retry_wait e = from_queued (step here refl)
not_final-Reaches_completed paused e = from_queued (step here refl)
not_final-Reaches_completed manual_review e = from_queued (step here refl)
not_final-Reaches_completed failed e = from_queued (step here refl)
not_final-Reaches_completed completed e = here
not_final-Reaches_completed cancelled e = cc
not_final-Reaches_completed dry_run e = cc
