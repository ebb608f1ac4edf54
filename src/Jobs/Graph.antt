-- ===== src/Jobs/Graph.antt =====
-- The transition graph of services/api/honor_api/jobs.py: `ALLOWED` and `assert_job_transition`.
use honor.Common.{
  String, ◌≡◌, ◌↔◌, refl, not, List, [], ◌∷◌, member, Result, ok, raise_if, ◌==◌, if◌then◌else◌,
}
use honor.Jobs.{
  JobState, queued, running, retrying, blocked_owner_action, failed_terminal, succeeded, cancelled,
  state_name,
}

abbrev pub allowed : List (String × List String)
allowed =
    ("queued", "running" ∷ "cancelled" ∷ [])
    ∷ (
      "running",
      "succeeded" ∷ "retrying" ∷ "blocked-owner-action" ∷ "failed-terminal" ∷ "cancelled" ∷ [],
    )
    ∷ ("retrying", "queued" ∷ "failed-terminal" ∷ "cancelled" ∷ [])
    ∷ ("blocked-owner-action", "queued" ∷ "cancelled" ∷ [])
    ∷ ("failed-terminal", [])
    ∷ ("succeeded", [])
    ∷ ("cancelled", [])
    ∷ []

-- `ALLOWED.get(old, set())`
unfoldable pub successors : String → List (String × List String) → List String
successors old [] = []
successors old ((name, news) ∷ rest) = if name == old then news else successors old rest

-- `ValueError(f"invalid job transition {old}->{new}")`
pub data TransitionError : Type 0 where
  invalid_transition : String → String → TransitionError

unfoldable pub assert_job_transition : String → String → Result TransitionError (Unit {0})
unfolding successors
assert_job_transition old new =
    raise_if (not (member new (successors old allowed))) (invalid_transition old new)

-- The graph as a relation on states.
infix 40 ◌⟶◌
pub data ◌⟶◌ : JobState → JobState → Type 0 where
  claim : queued ⟶ running
  cancel_queued : queued ⟶ cancelled
  succeed : running ⟶ succeeded
  retry : running ⟶ retrying
  block : running ⟶ blocked_owner_action
  give_up : running ⟶ failed_terminal
  cancel_running : running ⟶ cancelled
  requeue : retrying ⟶ queued
  abandon : retrying ⟶ failed_terminal
  cancel_retrying : retrying ⟶ cancelled
  resume : blocked_owner_action ⟶ queued
  cancel_blocked : blocked_owner_action ⟶ cancelled

pub ruleset edges = (
  claim, cancel_queued, succeed, retry, block, give_up, cancel_running, requeue, abandon,
  cancel_retrying, resume, cancel_blocked,
)

edge_accepted :
    {s t : JobState} → s ⟶ t → assert_job_transition (state_name s) (state_name t) ≡ ok tt
unfolding assert_job_transition state_name
edge_accepted claim = refl
edge_accepted _ = refl

accepted_edge :
    (s t : JobState) → assert_job_transition (state_name s) (state_name t) ≡ ok tt → s ⟶ t
unfolding assert_job_transition state_name
accepted_edge queued queued h = cc
accepted_edge running queued h = cc
accepted_edge retrying running h = cc
accepted_edge blocked_owner_action running h = cc
accepted_edge failed_terminal queued h = cc
accepted_edge succeeded queued h = cc
accepted_edge cancelled queued h = cc
accepted_edge s t h = first_of (search edges, cc)

-- `assert_job_transition` accepts the names of two states exactly if the transition graph has an
-- edge between them.
pub assert_job_transition_iff :
    (s t : JobState) → (assert_job_transition (state_name s) (state_name t) ≡ ok tt) ↔ (s ⟶ t)
assert_job_transition_iff s t = (accepted_edge s t, edge_accepted)
