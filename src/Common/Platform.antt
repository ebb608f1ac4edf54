-- ===== src/Common/Platform.antt =====
-- What the code calls and does not implement: UUIDs and hashes of Python's standard library, and
-- the validator of third-party package `jsonschema`. The laws are those documented for them.
use honor.Common.{ℕ, ◌<◌, String, ◌≡◌, Bool, Option, some}

pub record Platform : Type 0 where
  -- `str(UUID(text))`, the canonical text; `none` where `UUID(text)` raises ValueError.
  pub parse_uuid : String → Option String
  -- `str(uuid5(UUID(namespace), name))`
  pub uuid5 : String → String → String
  -- `int.from_bytes(sha256(text.encode()).digest()[:2], "big")`
  pub digest_prefix : String → ℕ
  -- `Draft202012Validator(event.payload.v1)` on a payload's JSON text
  pub is_valid_event : String → Bool
  -- The canonical text is its own canonical text.
  pub parse_canonical :
      (text canonical : String)
      → parse_uuid text ≡ some canonical
      → parse_uuid canonical ≡ some canonical
  -- `uuid5` returns a UUID.
  pub parse-uuid5 :
      (namespace name : String) → parse_uuid (uuid5 namespace name) ≡ some (uuid5 namespace name)
  -- Two bytes.
  pub digest_prefix_bound : (text : String) → digest_prefix text < 65536
