-- ===== src/Worker/Monitoring.antt =====
-- The health signals of the worker: `publish_reconciler_liveness` and the loop `_main` of
-- services/worker/honor_worker/reconciler.py, `health_is_live` and `run_once` of monitoring.py, `ping` of
-- heartbeat.py and the settings of celery_app.py. Times are seconds. What Celery, Redis and the URL answer
-- is an argument; `err` is an exception of theirs.
pub mod Rounds
use honor.Common.{
  ℕ, ◌+◌, String, Bool, true, false, not, ◌&&◌, ◌||◌, List, [], ◌∷◌, Option, none, some, any, leb,
  ltb, length, max, Result, ok, err, ◌>>=◌, ◌>>◌, raise_if, ◌==◌, if◌then◌else◌,
}
use honor.Common.Text.{codes, concat}

-- The key `honor:health:reconciler` of Redis: its value, and when it expires.
pub record HealthKey : Type 0 where
  pub text : String
  pub expires_at : ℕ

-- `GET` at a time.
unfoldable pub read_key : ℕ → Option HealthKey → Option String
read_key now none = none
read_key now (some k) = if ltb now k.expires_at then some k.text else none

-- The `ex` of `publish_reconciler_liveness`, from the environment's number of seconds.
unfoldable pub health_ttl : ℕ → ℕ
health_ttl configured = max 45 configured

-- `publish_reconciler_liveness` at a time, if Redis takes the value.
unfoldable pub publish_reconciler_liveness :
    ℕ → ℕ → Bool → Option HealthKey → Result (Unit {0}) (Unit {0}) × Option HealthKey
unfolding health_ttl
publish_reconciler_liveness configured now sets key =
    if sets
    then (ok tt, some (record { text = "ok"; expires_at = now + health_ttl configured }))
    else (err tt, key)

-- The pause between two rounds, from the environment's number of seconds.
unfoldable pub pause : ℕ → ℕ
pause configured = max 5 configured

-- One round of the loop: how long `reconcile_once` takes, whether it returns, and whether Redis takes the
-- value then.
pub record Round : Type 0 where
  pub duration : ℕ
  pub reconciles : Bool
  pub sets : Bool

-- The clock of the loop, and the key.
pub record Signal : Type 0 where
  pub clock : ℕ
  pub key : Option HealthKey

module _ (ttl interval : ℕ) where
  -- The body of `while True`; an exception is logged and the loop goes on.
  unfoldable pub round : Signal → Round → Signal
  unfolding publish_reconciler_liveness pause
  round s r = record {
    clock = s.clock + r.duration + pause interval;
    key =
        if r.reconciles
        then (publish_reconciler_liveness ttl (s.clock + r.duration) r.sets s.key).1
        else s.key;
  }

  -- The first rounds of `_main`.
  unfoldable pub main_rounds : Signal → List Round → Signal
  unfolding round
  main_rounds s [] = s
  main_rounds s (r ∷ rs) = main_rounds (round s r) rs

-- A worker's reply to `ping`: the text under "ok", if there is a reply and it has one.
abbrev pub Reply : Type 0
Reply = Option String

abbrev pub is_pong : Reply → Bool
is_pong none = false
is_pong (some text) = text == "pong"

-- `health_is_live`, by the replies (`None` counts as none), the key as it is read, and whether the client
-- closes without an exception.
unfoldable pub health_is_live :
    Result (Unit {0}) (List Reply) → Result (Unit {0}) (Option String) → Bool → Bool
health_is_live (err e) reads closes = false
health_is_live (ok replies) (err e) closes = false
health_is_live (ok replies) (ok none) closes = false
health_is_live (ok replies) (ok (some text)) closes =
    closes && (any is_pong replies && text == "ok")

pub data LogCode : Type 0 where
  heartbeat_disabled heartbeat_suppressed_unhealthy heartbeat_send_failed heartbeat_sent : LogCode

unfoldable pub is_success : ℕ → Bool
is_success status = leb 200 status && ltb status 300

-- The answer of the URL: its status, or an exception.
unfoldable pub after_request : Result (Unit {0}) ℕ → Bool × LogCode
unfolding is_success
after_request (err e) = (false, heartbeat_send_failed)
after_request (ok status) =
    if is_success status then (true, heartbeat_sent) else (false, heartbeat_send_failed)

-- `run_once`, by the URL without surrounding white space.
unfoldable pub run_once : String → Bool → Result (Unit {0}) ℕ → Bool × LogCode
unfolding after_request
run_once url live response =
    if url == ""
    then (true, heartbeat_disabled)
    else if live
    then after_request response
    else (false, heartbeat_suppressed_unhealthy)

-- `ping`
unfoldable pub ping : String → Result (Unit {0}) ℕ → Result (Unit {0}) Bool
unfolding is_success
ping url response = if url == "" then ok false else response >>= λ status. ok (is_success status)

pub data CeleryError : Type 0 where
  missing_password : CeleryError
  password_too_short : CeleryError

-- The URLs of celery_app.py.
pub record CeleryUrls : Type 0 where
  pub broker : String
  pub backend : String

abbrev setting : String → Option String → String
setting default none = default
setting default (some text) = text

-- The module's settings from `os.environ`.
unfoldable pub celery_urls : (String → Option String) → Result CeleryError CeleryUrls
unfolding concat
celery_urls env = do
  pwd ← elim (env "REDIS_PASSWORD") [ none ↦ err missing_password | some text ↦ ok text ]
  raise_if (ltb (length (codes pwd)) 32) password_too_short
  let host = setting "redis" (env "REDIS_HOST")
  let port = setting "6379" (env "REDIS_PORT")
  let url = λ (db : String). concat ("redis://:" ∷ pwd ∷ "@" ∷ host ∷ ":" ∷ port ∷ "/" ∷ db ∷ [])
  ok (record {
    broker = url (setting "1" (env "CELERY_BROKER_DB"));
    backend = url (setting "2" (env "CELERY_RESULT_DB"));
  })
