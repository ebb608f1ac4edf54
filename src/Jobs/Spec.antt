-- ===== src/Jobs/Spec.antt =====
-- `JobSpec.validate` and the deterministic ids of services/api/honor_api/jobs.py.
use Prim.Native.String.{count}
use honor.Common.{
  ℕ, ◌≤◌, String, ◌≡◌, ◌≢◌, ◌↔◌, eq_iff, refl, Bool, true, not, ◌||◌, List, [], ◌∷◌, Option, none,
  some, member, ltb, Result, ok, err, ◌>>◌, raise_if, ◌==◌, is_some, arith,
}
use honor.Common.Text.{concat}
use honor.Common.Platform.{Platform}

abbrev pub valid_stages : List String
valid_stages =
    "campaign_import" ∷ "rules_normalization" ∷ "source_ingest" ∷ "rights_verification"
    ∷ "transcription" ∷ "candidate_discovery" ∷ "candidate_scoring" ∷ "finalist_selection"
    ∷ "edit_plan" ∷ "audio_plan" ∷ "render" ∷ "qc" ∷ "schedule" ∷ "analytics_ingest"
    ∷ "payout_reconcile" ∷ "cost_reconcile" ∷ "backup" ∷ []

-- `stage in VALID_STAGES`
unfoldable pub is_valid_stage : String → Bool
is_valid_stage stage = member stage valid_stages

-- The integers are naturals: validation refuses 0 and all that is below it alike.
pub record JobSpec : Type 0 where
  pub job_type : String
  pub domain_entity_type : String
  pub domain_entity_id : String
  pub stage : String
  pub idempotency_key : String
  pub correlation_id : String
  pub max_attempts : ℕ
  pub timeout_seconds : ℕ
  pub run_id : Option String

-- What the job store raises, in the order of the source.
pub data JobError : Type 0 where
  unsupported_stage : String → JobError
  invalid_uuid : String → JobError
  invalid_idempotency_key : JobError
  max_attempts_below_one : JobError
  timeout_not_positive : JobError
  event_schema_violation : JobError
  event_name_mismatch : JobError
  unique_violation : JobError
  job_lookup_failed : JobError
  key_reused : List String → JobError

module _ (lib : Platform) where
  open lib use {parse_uuid, uuid5}

  -- `UUID(text)`, called for its exception.
  unfoldable pub check_uuid : String → Result JobError (Unit {0})
  check_uuid text = elim (parse_uuid text) [ none ↦ err (invalid_uuid text) | some u ↦ ok tt ]

  unfoldable pub check_optional_uuid : Option String → Result JobError (Unit {0})
  check_optional_uuid none = ok tt
  check_optional_uuid (some text) = check_uuid text

  unfoldable pub validate : JobSpec → Result JobError (Unit {0})
  validate spec = do
    raise_if (not (is_valid_stage spec.stage)) (unsupported_stage spec.stage)
    check_uuid spec.domain_entity_id
    check_uuid spec.correlation_id
    check_optional_uuid spec.run_id
    raise_if (spec.idempotency_key == "" || ltb 500 (count spec.idempotency_key))
        invalid_idempotency_key
    raise_if (ltb spec.max_attempts 1) max_attempts_below_one
    raise_if (ltb spec.timeout_seconds 1) timeout_not_positive

  unfoldable pub deterministic_job_id : String → String → String
  deterministic_job_id job_type idempotency_key =
      uuid5 "b19f5c48-1e3c-4c73-9a59-5dc847ae9d8d" (concat (job_type ∷ ":" ∷ idempotency_key ∷ []))

  unfoldable pub deterministic_dispatch_token : String → Result JobError String
  unfolding check_uuid
  deterministic_dispatch_token job_id =
      check_uuid job_id >> ok (uuid5 "fa6f3458-037a-42e0-88f4-8151abbbfe7d" job_id)

  unfoldable pub deterministic_event_id : String → String
  deterministic_event_id idempotency_key =
      uuid5 "4bd29c0c-5ac1-4cd3-afdb-a9b25ef3ac30" idempotency_key

  abbrev pub IsUuid : String → Type 0
  IsUuid text = is_some (parse_uuid text) ≡ true

  abbrev pub IsOptionalUuid : Option String → Type 0
  IsOptionalUuid none = Unit
  IsOptionalUuid (some text) = IsUuid text

  -- What a spec that passes has.
  pub record IsValidSpec (spec : JobSpec) : Type 0 where
    pub stage_known : is_valid_stage spec.stage ≡ true
    pub entity : IsUuid spec.domain_entity_id
    pub correlation : IsUuid spec.correlation_id
    pub run : IsOptionalUuid spec.run_id
    pub key_given : spec.idempotency_key ≢ ""
    pub key_short : count spec.idempotency_key ≤ 500
    pub attempts : 1 ≤ spec.max_attempts
    pub timeout : 1 ≤ spec.timeout_seconds

  pub check_uuid_iff : (text : String) → (check_uuid text ≡ ok tt) ↔ IsUuid text
  unfolding check_uuid
  check_uuid_iff text = (λ h. ground arith, λ h. ground arith)

  check_optional_uuid_iff : (o : Option String) → (check_optional_uuid o ≡ ok tt) ↔ IsOptionalUuid o
  unfolding check_optional_uuid
  check_optional_uuid_iff none = (λ h. tt, λ h. refl)
  check_optional_uuid_iff (some text) = check_uuid_iff text

  validate-IsValidSpec : (spec : JobSpec) → validate spec ≡ ok tt → IsValidSpec spec
  unfolding validate
  validate-IsValidSpec spec h = ground (
    arith,
    check_uuid_iff spec.domain_entity_id,
    check_uuid_iff spec.correlation_id,
    check_optional_uuid_iff spec.run_id,
    eq_iff spec.idempotency_key "",
  )

  IsValidSpec-validate : (spec : JobSpec) → IsValidSpec spec → validate spec ≡ ok tt
  unfolding validate
  IsValidSpec-validate spec v =
      rw
        (
          v.stage_known,
          (check_uuid_iff spec.domain_entity_id).1 v.entity,
          (check_uuid_iff spec.correlation_id).1 v.correlation,
          (check_optional_uuid_iff spec.run_id).1 v.run,
        )
        (ground (arith, eq_iff spec.idempotency_key ""))

  -- `validate` passes exactly the specs with a known stage, valid UUIDs, a key of 1 to 500
  -- characters, and at least one attempt and one second.
  pub validate_iff : (spec : JobSpec) → (validate spec ≡ ok tt) ↔ IsValidSpec spec
  validate_iff spec = (validate-IsValidSpec spec, IsValidSpec-validate spec)
