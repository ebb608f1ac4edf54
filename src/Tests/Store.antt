-- ===== src/Tests/Store.antt =====
-- The job store at a concrete job.
use honor.Common.{◌≤◌, String, ◌≡◌, ◌≢◌, refl, true, List, [], ◌∷◌, none, ok, err, arith}
use Prim.Native.String.{count}
use honor.Common.Text.{concat}
use honor.Common.Platform.{Platform}
use honor.Common.Table.{find}
use honor.Jobs.{EventRow, event_key, JobRow, Database}
use honor.Jobs.Spec.{JobSpec, key_reused, unique_violation, IsValidSpec, IsUuid, is_valid_stage}
use honor.Jobs.Store.{DurableJob, event_key_of, canonical, canonical_optional, new_row, enqueue}
use honor.Jobs.Store.Replay.{SameJob, IsAccepted, job_id_of, token_of}
use honor.Jobs.Store.Fresh.{IsFresh, IsCanonical, row_of, after, enqueue_twice}
use honor.Jobs.Store.Insertion.{IsNewJob, IsNewEvent, IsViewOf, enqueue-stored}
use honor.Jobs.Store.Identity.{enqueue_collision, enqueue_twice_noncanonical}
use honor.Tests.Samples.{plain, with_upper, spec, request, empty}

valid :
    (s : JobSpec) (lib : Platform)
    → ((t : String) → IsUuid lib t)
    → s.run_id ≡ none
    → is_valid_stage s.stage ≡ true
    → s.idempotency_key ≢ ""
    → count s.idempotency_key ≤ 500
    → 1 ≤ s.max_attempts
    → 1 ≤ s.timeout_seconds
    → IsValidSpec lib s
valid s lib uuids none_run stage given short attempts timeout = record {
  stage_known = stage;
  entity = uuids s.domain_entity_id;
  correlation = uuids s.correlation_id;
  run = rw none_run tt;
  key_given = given;
  key_short = short;
  attempts = attempts;
  timeout = timeout;
}

spec-IsValidSpec : IsValidSpec plain spec
unfolding is_valid_stage
spec-IsValidSpec =
    valid spec plain (λ t. refl) refl refl (λ h. cc) (omega arith) (omega arith) (omega arith)

abbrev accepted : (s : JobSpec) → IsValidSpec plain s → IsAccepted plain request s
accepted s v = record { spec_valid = v; event_valid = refl; event_named = refl; owner = refl }

pub request-IsAccepted : IsAccepted plain request spec
request-IsAccepted = accepted spec spec-IsValidSpec

pub spec-IsFresh : IsFresh plain spec empty.jobs
unfolding find
spec-IsFresh = record { key_free = refl; id_free = refl; token_free = refl }

no_event : find event_key (event_key_of spec request.event_name) empty.events ≡ none
unfolding find
no_event = refl

enqueue-stored_example :
    (job : DurableJob) × (r : JobRow) × (e : EventRow) × (enqueue plain request spec empty
      ≡ (ok job, record { jobs = r ∷ []; events = e ∷ [] }))
    × IsNewJob plain request spec r
    × IsNewEvent plain request spec e
    × IsViewOf plain job r
enqueue-stored_example =
    enqueue-stored plain request spec empty request-IsAccepted spec-IsFresh no_event

spec-IsCanonical : IsCanonical plain spec
unfolding canonical canonical_optional
spec-IsCanonical = record { entity = refl; correlation = refl; run = refl }

enqueue_twice_example :
    enqueue plain request spec (enqueue plain request spec empty).1
    ≡ enqueue plain request spec empty
enqueue_twice_example =
    enqueue_twice plain request request spec empty request-IsAccepted request-IsAccepted
      spec-IsCanonical spec-IsFresh

-- The row of the job, and one with its key for another job.
abbrev row : JobRow
row = row_of plain request spec

abbrev stored : Database
stored = record { jobs = row ∷ []; events = [] }

row-SameJob : SameJob spec (job_id_of plain spec) (token_of plain spec) row
unfolding new_row canonical canonical_optional
row-SameJob = record {
  same_id = refl;
  same_token = refl;
  same_type = refl;
  same_entity_type = refl;
  same_entity = refl;
  same_stage = refl;
  same_correlation = refl;
  same_run = refl;
  same_attempts = refl;
  same_timeout = refl;
}

abbrev longer : JobSpec
longer = record spec { timeout_seconds = 90 }

abbrev nested : JobSpec
nested = record spec { job_type = "render:clip" }

abbrev nested_key : JobSpec
nested_key = record spec { idempotency_key = "clip:k1" }

nested-IsAccepted : IsAccepted plain request nested
unfolding is_valid_stage
nested-IsAccepted =
    accepted nested
      (valid nested plain (λ t. refl) refl refl (λ h. cc) (omega arith) (omega arith) (omega arith))

nested_key-IsAccepted : IsAccepted plain request nested_key
unfolding is_valid_stage
nested_key-IsAccepted = accepted nested_key (
    valid nested_key plain (λ t. refl) refl refl (λ h. cc) (omega arith) (omega arith)
      (omega arith))

nested-IsFresh : IsFresh plain nested empty.jobs
unfolding find
nested-IsFresh = record { key_free = refl; id_free = refl; token_free = refl }

enqueue_collision_example :
    let db' = (enqueue plain request nested empty).1 in
    enqueue plain request nested_key db' ≡ (err unique_violation, db')
unfolding find concat
enqueue_collision_example =
    enqueue_collision plain request request nested nested_key empty "render" "clip" "k1"
      nested-IsAccepted nested_key-IsAccepted nested-IsFresh refl refl refl refl refl (λ h. cc)

abbrev upper : JobSpec
upper = record spec { domain_entity_id = "E-1" }

upper-IsAccepted : IsAccepted with_upper request upper
unfolding is_valid_stage
upper-IsAccepted = record {
  spec_valid =
      valid upper with_upper (λ t. refl) refl refl (λ h. cc) (omega arith) (omega arith)
        (omega arith);
  event_valid = refl;
  event_named = refl;
  owner = refl;
}

upper-IsFresh : IsFresh with_upper upper empty.jobs
unfolding find
upper-IsFresh = record { key_free = refl; id_free = refl; token_free = refl }

upper_differs : canonical with_upper upper.domain_entity_id ≢ upper.domain_entity_id
unfolding canonical
upper_differs h = cc

enqueue_twice_noncanonical_example :
    (names : List String) × (enqueue with_upper request upper
        (enqueue with_upper request upper empty).1
      ≡ (err (key_reused names), after with_upper request upper empty))
enqueue_twice_noncanonical_example =
    enqueue_twice_noncanonical with_upper request request upper empty upper-IsAccepted
      upper-IsAccepted upper-IsFresh upper_differs
