-- ===== src/Api/Config.antt =====
-- services/api/honor_api/config.py: `Settings` from the environment, its bounds, and the URLs made from
-- it (`redis_url`, and the broker's URL in services/api/honor_api/dispatcher.py). How pydantic reads an
-- integer from a text is an argument.
use honor.Common.{
  ℕ, String, Bool, true, ◌||◌, [], ◌∷◌, Option, none, some, ltb, length, Result, ok, err, ◌>>=◌,
  ◌>>◌, raise_if,
}
use honor.Common.Int.{ℤ, pos, negsuc}
use honor.Common.Text.{codes, concat}

pub record Settings : Type 0 where
  pub honor_env : String
  pub log_level : String
  pub honor_owner_user_id : String
  pub honor_upload_max_bytes : ℤ
  pub supabase_url : String
  pub supabase_jwks_url : String
  pub database_app_url : String
  pub redis_host : String
  pub redis_port : ℤ
  pub redis_password : String
  pub redis_cache_db : ℤ
  pub celery_broker_db : ℤ
  pub celery_result_db : ℤ
  pub r2_endpoint : String
  pub r2_bucket_media : String
  pub r2_media_access_key_id : String
  pub r2_media_secret_access_key : String
  pub r2_presigned_url_ttl_seconds : ℤ
  pub honor_month1_hard_cap_usd : String
  pub honor_optional_pause_usd : String
  pub honor_reserve_mode_usd : String

-- Why a field is refused.
pub data SettingsError : Type 0 where
  missing : String → SettingsError
  not_an_integer : String → SettingsError
  too_short : String → SettingsError
  out_of_range : String → SettingsError

abbrev pub Environment : Type 0
Environment = String → Option String

abbrev pub given : String → Option String → Result SettingsError String
given name none = err (missing name)
given name (some text) = ok text

abbrev pub or_default : String → Option String → String
or_default default none = default
or_default default (some text) = text

abbrev read : String → Option ℤ → Result SettingsError ℤ
read name none = err (not_an_integer name)
read name (some n) = ok n

abbrev pub integer_or : (String → Option ℤ) → String → ℤ → Option String → Result SettingsError ℤ
integer_or parse_int name default none = ok default
integer_or parse_int name default (some text) = read name (parse_int text)

-- `Field(min_length=…)`
unfoldable pub check_length : String → ℕ → String → Result SettingsError (Unit {0})
check_length name least text = raise_if (ltb (length (codes text)) least) (too_short name)

abbrev pub outside : ℕ → ℕ → ℤ → Bool
outside least most (pos n) = ltb n least || ltb most n
outside least most (negsuc n) = true

-- `Field(ge=…, le=…)`
unfoldable pub check_range : String → ℕ → ℕ → ℤ → Result SettingsError (Unit {0})
check_range name least most n = raise_if (outside least most n) (out_of_range name)

-- `Settings()`. The first field that is refused is the error.
unfoldable pub get_settings : (String → Option ℤ) → Environment → Result SettingsError Settings
unfolding check_length check_range
get_settings parse_int env = do
  let text = λ (name default : String). or_default default (env name)
  let int = λ (name : String) (default : ℤ). integer_or parse_int name default (env name)
  owner ← given "HONOR_OWNER_USER_ID" (env "HONOR_OWNER_USER_ID")
  check_length "HONOR_OWNER_USER_ID" 36 owner
  upload_max_bytes ← int "HONOR_UPLOAD_MAX_BYTES" (pos 2147483648)
  supabase_url ← given "SUPABASE_URL" (env "SUPABASE_URL")
  jwks_url ← given "SUPABASE_JWKS_URL" (env "SUPABASE_JWKS_URL")
  database_url ← given "DATABASE_APP_URL" (env "DATABASE_APP_URL")
  port ← int "REDIS_PORT" (pos 6379)
  password ← given "REDIS_PASSWORD" (env "REDIS_PASSWORD")
  check_length "REDIS_PASSWORD" 32 password
  cache_db ← int "REDIS_CACHE_DB" (pos 0)
  broker_db ← int "CELERY_BROKER_DB" (pos 1)
  result_db ← int "CELERY_RESULT_DB" (pos 2)
  ttl ← int "R2_PRESIGNED_URL_TTL_SECONDS" (pos 300)
  check_range "R2_PRESIGNED_URL_TTL_SECONDS" 60 900 ttl
  ok (record {
    honor_env = text "HONOR_ENV" "development";
    log_level = text "LOG_LEVEL" "INFO";
    honor_owner_user_id = owner;
    honor_upload_max_bytes = upload_max_bytes;
    supabase_url = supabase_url;
    supabase_jwks_url = jwks_url;
    database_app_url = database_url;
    redis_host = text "REDIS_HOST" "redis";
    redis_port = port;
    redis_password = password;
    redis_cache_db = cache_db;
    celery_broker_db = broker_db;
    celery_result_db = result_db;
    r2_endpoint = text "R2_ENDPOINT" "";
    r2_bucket_media = text "R2_BUCKET_MEDIA" "honor-media";
    r2_media_access_key_id = text "R2_MEDIA_ACCESS_KEY_ID" "";
    r2_media_secret_access_key = text "R2_MEDIA_SECRET_ACCESS_KEY" "";
    r2_presigned_url_ttl_seconds = ttl;
    honor_month1_hard_cap_usd = text "HONOR_MONTH1_HARD_CAP_USD" "56.03";
    honor_optional_pause_usd = text "HONOR_OPTIONAL_PAUSE_USD" "43.00";
    honor_reserve_mode_usd = text "HONOR_RESERVE_MODE_USD" "51.03";
  })

-- The URL of a Redis database; the numbers are those of `str(n)`.
unfoldable pub url_of : (ℤ → String) → Settings → ℤ → String
unfolding concat
url_of str s db = concat (
    "redis://:"
    ∷ s.redis_password
    ∷ "@"
    ∷ s.redis_host
    ∷ ":"
    ∷ str s.redis_port
    ∷ "/"
    ∷ str db
    ∷ [])

-- `Settings.redis_url`
unfoldable pub redis_url : (ℤ → String) → Settings → String
unfolding url_of
redis_url str s = url_of str s s.redis_cache_db

-- The broker of `_celery`.
unfoldable pub broker_url : (ℤ → String) → Settings → String
unfolding url_of
broker_url str s = url_of str s s.celery_broker_db
