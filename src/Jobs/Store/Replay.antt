-- ===== src/Jobs/Store/Replay.antt =====
-- `enqueue` on an idempotency key that a row has already.
use honor.Common.{
  String, ◌≡◌, ◌≢◌, ◌↔◌, refl, ap, Bool, true, false, List, [], ◌∷◌, Option, none, some, eqb_iff,
  opt_eq, ok, err, All, eq_iff, arith,
}
use honor.Common.Text.{sort}
use honor.Common.Table.{find}
use honor.Common.Platform.{Platform}
use honor.Jobs.{JobRow, Database, job_key}
use honor.Jobs.Spec.{
  JobSpec, key_reused, check_uuid_iff, IsValidSpec, IsUuid, validate_iff, deterministic_job_id,
  deterministic_dispatch_token,
}
use honor.Jobs.Store.{
  Request, durable, insert_job, failing, new_row, replay_checks, raise_mismatches, committed,
  replay, enqueue_rows, enqueue_checked, enqueue,
}

failing_iff : (cs : List (String × Bool)) → (failing cs ≡ []) ↔ All (λ c. c.1 ≡ true) cs
unfolding failing
failing_iff [] = (λ h. tt, λ h. refl)
failing_iff ((name, true) ∷ cs) = (λ h. (refl, (failing_iff cs).0 h), λ h. (failing_iff cs).1 h.1)
failing_iff ((name, false) ∷ cs) = (λ h. cc, λ h. cc h.0)

pub opt_eq_iff : (a b : Option String) → (opt_eq a b ≡ true) ↔ (a ≡ b)
opt_eq_iff none none = (λ h. refl, λ h. refl)
opt_eq_iff none (some b) = (λ h. cc, λ h. cc)
opt_eq_iff (some a) none = (λ h. cc, λ h. cc)
opt_eq_iff (some a) (some b) = (λ h. ap some ((eq_iff a b).0 h), λ h. (eq_iff a b).1 (ground arith))

-- A stored row means the job of a spec: every column that `expected` names is the spec's.
pub record SameJob (spec : JobSpec) (id token : String) (r : JobRow) : Type 0 where
  pub same_id : r.id ≡ id
  pub same_token : r.dispatch_token ≡ token
  pub same_type : r.job_type ≡ spec.job_type
  pub same_entity_type : r.domain_entity_type ≡ spec.domain_entity_type
  pub same_entity : r.domain_entity_id ≡ spec.domain_entity_id
  pub same_stage : r.stage ≡ spec.stage
  pub same_correlation : r.correlation_id ≡ spec.correlation_id
  pub same_run : r.run_id ≡ spec.run_id
  pub same_attempts : r.max_attempts ≡ spec.max_attempts
  pub same_timeout : r.timeout_seconds ≡ spec.timeout_seconds

same_job :
    (spec : JobSpec) (id token : String) (r : JobRow)
    → All (λ c. c.1 ≡ true) (replay_checks spec id token r)
    → SameJob spec id token r
unfolding replay_checks
same_job spec id token r (a, (b, (c, (d, (e, (f, (g, (h, (i, (j, _)))))))))) = record {
  same_id = (eq_iff _ _).0 a;
  same_token = (eq_iff _ _).0 b;
  same_type = (eq_iff _ _).0 c;
  same_entity_type = (eq_iff _ _).0 d;
  same_entity = (eq_iff _ _).0 e;
  same_stage = (eq_iff _ _).0 f;
  same_correlation = (eq_iff _ _).0 g;
  same_run = (opt_eq_iff _ _).0 h;
  same_attempts = (eqb_iff _ _).0 i;
  same_timeout = (eqb_iff _ _).0 j;
}

SameJob-All :
    (spec : JobSpec) (id token : String) (r : JobRow)
    → SameJob spec id token r
    → All (λ c. c.1 ≡ true) (replay_checks spec id token r)
unfolding replay_checks
SameJob-All spec id token r s = (
  (eq_iff _ _).1 s.same_id,
  (
    (eq_iff _ _).1 s.same_token,
    (
      (eq_iff _ _).1 s.same_type,
      (
        (eq_iff _ _).1 s.same_entity_type,
        (
          (eq_iff _ _).1 s.same_entity,
          (
            (eq_iff _ _).1 s.same_stage,
            (
              (eq_iff _ _).1 s.same_correlation,
              (
                (opt_eq_iff _ _).1 s.same_run,
                ((eqb_iff _ _).1 s.same_attempts, ((eqb_iff _ _).1 s.same_timeout, tt)),
              ),
            ),
          ),
        ),
      ),
    ),
  ),
)

pub replay_checks_iff :
    (spec : JobSpec) (id token : String) (r : JobRow)
    → (failing (replay_checks spec id token r) ≡ []) ↔ SameJob spec id token r
replay_checks_iff spec id token r = (
  λ h. same_job spec id token r ((failing_iff _).0 h),
  λ s. (failing_iff _).1 (SameJob-All spec id token r s),
)

module _ (lib : Platform) where
  open lib use {parse_uuid, is_valid_event, uuid5}

  -- The requests that reach the database.
  pub record IsAccepted (q : Request) (spec : JobSpec) : Type 0 where
    pub spec_valid : IsValidSpec lib spec
    pub event_valid : is_valid_event q.event_payload.json ≡ true
    pub event_named : q.event_payload.event_name ≡ some q.event_name
    pub owner : IsUuid lib q.owner_user_id

  abbrev pub job_id_of : JobSpec → String
  job_id_of spec = deterministic_job_id lib spec.job_type spec.idempotency_key

  abbrev pub token_of : JobSpec → String
  token_of spec = uuid5 "fa6f3458-037a-42e0-88f4-8151abbbfe7d" (job_id_of spec)

  job_id_of-IsUuid : (spec : JobSpec) → IsUuid lib (job_id_of spec)
  unfolding deterministic_job_id
  job_id_of-IsUuid spec = rw lib.parse-uuid5

  pub enqueue_checked_lem :
      (q : Request) (spec : JobSpec) (db : Database)
      → IsAccepted q spec
      → enqueue_checked lib q spec db ≡ enqueue_rows lib q spec (job_id_of spec) (token_of spec) db
  unfolding enqueue_checked deterministic_dispatch_token
  enqueue_checked_lem q spec db a =
      rw
        (
          (validate_iff lib spec).1 a.spec_valid,
          a.event_valid,
          (opt_eq_iff q.event_payload.event_name (some q.event_name)).1 a.event_named,
          (check_uuid_iff lib (job_id_of spec)).1 (job_id_of-IsUuid spec),
          (check_uuid_iff lib q.owner_user_id).1 a.owner,
        )
        refl

  module _ (q : Request) (spec : JobSpec) (db : Database) (a : IsAccepted q spec) where
    -- An accepted request whose idempotency key a row has that means the same job returns that
    -- row and changes nothing.
    pub enqueue-replay :
        (r : JobRow)
        → find job_key spec.idempotency_key db.jobs ≡ some r
        → SameJob spec (job_id_of spec) (token_of spec) r
        → enqueue lib q spec db ≡ (ok (durable r), db)
    unfolding enqueue enqueue_rows insert_job new_row replay raise_mismatches committed
    enqueue-replay r found same =
        rw
          (
            enqueue_checked_lem q spec db a,
            found,
            found,
            (replay_checks_iff spec (job_id_of spec) (token_of spec) r).1 same,
          )
          refl

    pub enqueue-reused :
        (r : JobRow)
        → find job_key spec.idempotency_key db.jobs ≡ some r
        → ¬ SameJob spec (job_id_of spec) (token_of spec) r
        → enqueue lib q spec db ≡ (
          err (key_reused (sort (failing (replay_checks spec (job_id_of spec) (token_of spec) r)))),
          db,
        )
    unfolding enqueue enqueue_rows insert_job new_row replay raise_mismatches committed
    enqueue-reused r found other =
        rw
          (
            enqueue_checked_lem q spec db a,
            found,
            found,
            raised (failing (replay_checks spec (job_id_of spec) (token_of spec) r))
                λ e. other ((replay_checks_iff spec (job_id_of spec) (token_of spec) r).0 e),
          )
          refl
      where
        raised : (ms : List String) → ms ≢ [] → raise_mismatches ms ≡ err (key_reused (sort ms))
        raised [] h = absurd (h refl)
        raised (m ∷ ms) h = refl
