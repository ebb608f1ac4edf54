-- ===== src/Tests/Samples.antt =====
-- Sample data for the tests.
use honor.Common.{
  String, ◌≡◌, refl, ap, subst, inl, inr, Bool-cases, true, [], ◌∷◌, Option, none, some, ◌==◌,
  if◌then◌else◌, arith,
}
use honor.Common.Text.{concat}
use honor.Common.Platform.{Platform}
use honor.Jobs.{JobRow, Database, queued, running}
use honor.Jobs.Spec.{JobSpec}
use honor.Jobs.Store.{Request}

-- Every text is a UUID in its canonical form.
abbrev pub plain : Platform
plain = record {
  parse_uuid = λ text. some text;
  uuid5 = λ namespace name. concat (namespace ∷ "/" ∷ name ∷ []);
  digest_prefix = λ text. 1000;
  is_valid_event = λ text. true;
  parse_canonical = λ text canonical h. refl;
  parse-uuid5 = λ namespace name. refl;
  digest_prefix_bound = λ text. omega arith;
}

abbrev pub lower : String → String
lower text = if text == "E-1" then "e-1" else text

lower_twice : (text : String) → lower (lower text) ≡ lower text
lower_twice text = elim (Bool-cases (text == "E-1")) [
  | inl hit ↦ rw hit refl
  | inr miss ↦ rw (miss, miss) refl
]

pub lower_fixed :
    (text canonical : String)
    → ◌≡◌ {A = Option String} (some (lower text)) (some canonical)
    → ◌≡◌ {A = Option String} (some (lower canonical)) (some canonical)
lower_fixed text canonical h =
    let e : lower text ≡ canonical = cc in
    subst (λ c. ◌≡◌ {A = Option String} (some (lower c)) (some c)) e
      (ap (λ c. some c) (lower_twice text))

-- One UUID has another form.
abbrev pub with_upper : Platform
with_upper = record plain {
  parse_uuid = λ text. some (lower text);
  uuid5 = λ namespace name. "u-5";
  parse_canonical = lower_fixed;
  parse-uuid5 = λ namespace name. refl;
}

abbrev pub spec : JobSpec
spec = record {
  job_type = "render";
  domain_entity_type = "clip";
  domain_entity_id = "e-1";
  stage = "render";
  idempotency_key = "k1";
  correlation_id = "c-1";
  max_attempts = 3;
  timeout_seconds = 60;
  run_id = none;
}

abbrev pub request : Request
request = record {
  owner_user_id = "o-1";
  event_name = "JOB_ENQUEUED";
  event_payload = record { event_name = some "JOB_ENQUEUED"; json = "{}" };
  actor_type = "SYSTEM";
  source_service = "api";
  client_now = 5;
  now = 6;
}

abbrev pub empty : Database
empty = record { jobs = []; events = [] }

-- A queued job on its first attempt.
abbrev pub waiting : JobRow
waiting = record {
  id = "j-1";
  job_type = "render";
  domain_entity_type = "clip";
  domain_entity_id = "e-1";
  state = queued;
  stage = "render";
  attempt = 0;
  max_attempts = 3;
  idempotency_key = "k1";
  dispatch_token = "t-1";
  correlation_id = "c-1";
  run_id = none;
  timeout_seconds = 60;
  available_at = 0;
  started_at = none;
  heartbeat_at = none;
  lease_expires_at = none;
  finished_at = none;
  failure_code = none;
  failure_detail_redacted = none;
  owner_action_id = none;
  version = 1;
  updated_at = 0;
}

-- The same job, run on a lease that ends at 100.
abbrev pub leased : JobRow
leased = record waiting { state = running; attempt = 1; lease_expires_at = some 100; version = 2 }

abbrev pub stored : JobRow → Database
stored r = record { jobs = r ∷ []; events = [] }
