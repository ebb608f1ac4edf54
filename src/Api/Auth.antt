-- ===== src/Api/Auth.antt =====
-- services/api/honor_api/auth.py: `validate_owner_token` and `require_owner`. PyJWT and its key client,
-- and the query of the owner's profile, are arguments.
pub mod Owner
use Prim.Native.String
use Prim.Native.Char.{code}
use honor.Common.{
  ℕ, String, Bool, true, false, not, ◌&&◌, ◌||◌, List, [], ◌∷◌, Option, none, some, is_some, eqb,
  Result, ok, err, ◌>>=◌, ◌>>◌, raise_if, ◌==◌, if◌then◌else◌,
}
use honor.Common.Platform.{Platform}
use honor.Api.Json.{end}
use honor.Api.Errors.{HonorError}

after_prefix : String → String → Option String
after_prefix String.[] text = some text
after_prefix (String.◌∷◌ c cs) String.[] = none
after_prefix (String.◌∷◌ c cs) (String.◌∷◌ d ds) =
    let rest = after_prefix cs ds in if eqb (code c) (code d) then rest else none

-- A text that begins with "Bearer ", and what follows.
unfoldable pub bearer : String → Option String
unfolding after_prefix
bearer text = after_prefix "Bearer " text

-- Verifying a token: the key client reports a lost connection or another failure, the decoder a bad
-- token; else there are the claims, here `claims.get("sub", "")`.
pub data Verification : Type 0 where
  connection_error : Verification
  client_error : Verification
  bad_token : Verification
  claims : (sub : String) → Verification

-- `owner_profile_is_active`: its answer, an HonorError of its own, or any other exception.
pub data Profile : Type 0 where
  active : Bool → Profile
  refuses : HonorError → Profile
  fails : Profile

abbrev error : ℕ → String → String → HonorError
error status code message = record {
  status = status;
  code = code;
  message = message;
  details = end;
}

abbrev pub provider_unavailable : HonorError
provider_unavailable =
    error 503 "AUTH_PROVIDER_UNAVAILABLE" "Authentication provider is temporarily unavailable."

abbrev pub auth_invalid : HonorError
auth_invalid = error 401 "AUTH_INVALID" "Authentication token is invalid."

abbrev pub auth_required : HonorError
auth_required = error 401 "AUTH_REQUIRED" "Owner authentication required."

abbrev pub not_configured_owner : HonorError
not_configured_owner =
    error 403 "OWNER_FORBIDDEN" "Authenticated user is not the configured HONOR owner."

abbrev pub not_active_owner : HonorError
not_active_owner = error 403 "OWNER_FORBIDDEN" "Authenticated user is not an active HONOR owner."

abbrev pub database_unavailable : HonorError
database_unavailable =
    error 503 "PROVIDER_UNAVAILABLE" "Owner authorization database is unavailable."

unfoldable pub verified_sub : Verification → Result HonorError String
verified_sub connection_error = err provider_unavailable
verified_sub client_error = err auth_invalid
verified_sub bad_token = err auth_invalid
verified_sub (claims sub) = ok sub

-- `validate_owner_token`, from the verification of the token.
unfoldable pub validate_owner_token : Platform → String → Verification → Result HonorError String
unfolding verified_sub
validate_owner_token lib configured v = do
  sub ← verified_sub v
  raise_if (not (is_some (lib.parse_uuid sub))) auth_invalid
  raise_if (not (sub == configured)) not_configured_owner
  ok sub

unfoldable pub authorized : String → Profile → Result HonorError String
authorized owner (refuses e) = err e
authorized owner fails = err database_unavailable
authorized owner (active b) = raise_if (not b) not_active_owner >> ok owner

-- `require_owner` on the header, by the token in it, if it has one.
unfoldable pub with_token :
    Platform
    → String
    → (String → Verification)
    → (String → Profile)
    → Option String
    → Result HonorError String
unfolding validate_owner_token authorized
with_token lib configured verify profile none = err auth_required
with_token lib configured verify profile (some token) = do
  owner ← validate_owner_token lib configured (verify token)
  authorized owner (profile owner)

unfoldable pub require_owner :
    Platform
    → String
    → (String → Verification)
    → (String → Profile)
    → Option String
    → Result HonorError String
unfolding with_token bearer
require_owner lib configured verify profile none = err auth_required
require_owner lib configured verify profile (some header) =
    with_token lib configured verify profile (bearer header)
