-- ===== src/Api/Idempotency.antt =====
-- services/api/honor_api/idempotency.py: `IdempotencyRepository` over the table `api_idempotency_records`.
-- `uuid4()` and `statement_timestamp()` come with the call. Whether the driver can send the response's
-- dict and the seconds of `ttl_seconds` is an argument. The owner's foreign key is left out: an owner
-- here is one of `auth.users`.
pub mod Replay
use honor.Common.{
  ℕ, ◌+◌, String, Bool, true, false, not, ◌&&◌, ◌||◌, List, [], ◌∷◌, Option, none, some, any, all,
  member, leb, eqb, length, Result, ok, err, ◌>>=◌, ◌>>◌, raise_if, ◌==◌, if◌then◌else◌,
}
use honor.Common.Table.{insert}
use honor.Common.Text.{codes}
use honor.Common.Platform.{Platform}
use honor.Api.Json.{Fields}

pub record IdempotencyRow : Type 0 where
  pub id : String
  pub owner_user_id : String
  pub idempotency_key : String
  pub http_method : String
  pub path : String
  pub request_sha256 : String
  pub response_status : ℕ
  pub response_body : Fields
  pub expires_at : ℕ

abbrev pub Table : Type 0
Table = List IdempotencyRow

pub data IdempotencyError : Type 0 where
  invalid_uuid : IdempotencyError
  -- `ValueError("IDEMPOTENCY_KEY_REUSED")`
  key_reused : IdempotencyError
  argument_refused : IdempotencyError
  check_violation : IdempotencyError
  unique_violation : IdempotencyError

-- The arguments of `record`, with the id and the time of the call.
pub record Call : Type 0 where
  pub owner_user_id : String
  pub key : String
  pub method : String
  pub path : String
  pub request_sha256 : String
  pub response_status : ℕ
  pub response_body : Fields
  pub ttl_seconds : ℕ
  pub id : String
  pub now : ℕ

-- `WHERE owner_user_id=… AND idempotency_key=…`
unfoldable pub select : String → String → Table → Option IdempotencyRow
select owner key [] = none
select owner key (row ∷ rows) =
    if row.owner_user_id == owner && row.idempotency_key == key
    then some row
    else select owner key rows

-- `$1::uuid`
unfoldable pub owner_of : Platform → String → Result IdempotencyError String
owner_of lib owner = elim (lib.parse_uuid owner) [
  | none ↦ err invalid_uuid
  | some canonical ↦ ok canonical
]

-- `find`
unfoldable pub find :
    Platform → String → String → Table → Result IdempotencyError (Option IdempotencyRow)
unfolding owner_of select
find lib owner key rows = owner_of lib owner >>= λ canonical. ok (select canonical key rows)

is_hex : ℕ → Bool
is_hex c = (leb 97 c && leb c 102) || (leb 48 c && leb c 57)

-- The columns' CHECK constraints.
unfoldable pub is_storable : Call → Bool
unfolding is_hex
is_storable c =
    member c.method ("POST" ∷ "PUT" ∷ "PATCH" ∷ "DELETE" ∷ [])
    && (eqb (length (codes c.request_sha256)) 64 && all is_hex (codes c.request_sha256))
    && (leb 100 c.response_status && leb c.response_status 599)

unfoldable pub new_row : Call → String → IdempotencyRow
new_row c owner = record {
  id = c.id;
  owner_user_id = owner;
  idempotency_key = c.key;
  http_method = c.method;
  path = c.path;
  request_sha256 = c.request_sha256;
  response_status = c.response_status;
  response_body = c.response_body;
  expires_at = c.now + c.ttl_seconds;
}

-- The stored request is another one.
unfoldable pub is_reused : Call → IdempotencyRow → Bool
is_reused c row =
    not (row.request_sha256 == c.request_sha256)
    || (not (row.http_method == c.method) || not (row.path == c.path))

module _ (encodes : Fields → ℕ → Bool) where
  unfoldable pub recorded :
      Call
      → String
      → Table
      → Option IdempotencyRow
      → Result IdempotencyError (IdempotencyRow × Table)
  unfolding is_reused is_storable new_row
  recorded c owner rows (some existing) =
      raise_if (is_reused c existing) key_reused >> ok (existing, rows)
  recorded c owner rows none = do
    raise_if (not (encodes c.response_body c.ttl_seconds)) argument_refused
    raise_if (not (is_storable c)) check_violation
    raise_if (any (λ row. row.id == c.id) rows) unique_violation
    ok (new_row c owner, insert (new_row c owner) rows)

  -- `record`
  unfoldable pub record_response :
      Platform → Call → Table → Result IdempotencyError (IdempotencyRow × Table)
  unfolding owner_of recorded select
  record_response lib c rows =
      owner_of lib c.owner_user_id >>= λ owner. recorded c owner rows (select owner c.key rows)
