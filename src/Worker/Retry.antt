-- ===== src/Worker/Retry.antt =====
-- `retry_delay` of services/worker/honor_worker/durable_jobs.py.
pub mod Bounds
use honor.Common.{
  ℕ, zero, suc, ◌+◌, ◌-◌, ◌*◌, ◌%◌, min, max, String, List, [], ◌∷◌, Option, none, some,
}
use honor.Common.Text.{concat, decimal}
use honor.Common.Rounding.{div_half_even}
use honor.Common.Platform.{Platform}

abbrev pub retry_delays_seconds : List ℕ
retry_delays_seconds = 30 ∷ 120 ∷ 600 ∷ 1800 ∷ 7200 ∷ []

abbrev pub get_or : List ℕ → ℕ → ℕ → ℕ
get_or [] i d = d
get_or (x ∷ xs) zero d = x
get_or (x ∷ xs) (suc i) d = get_or xs i d

-- `RETRY_DELAYS_SECONDS[max(0, min(attempt - 1, 4))]`; attempts are not negative, and `-` stops at 0
-- where the source takes the maximum.
unfoldable pub base_delay : ℕ → ℕ
base_delay attempt = get_or retry_delays_seconds (min (attempt - 1) 4) 0

-- The base times 10000 + basis points, where the basis points are `digest % 2001 - 1000`.
unfoldable pub jittered : ℕ → ℕ → ℕ
jittered base digest = max 1 (div_half_even (base * (9000 + digest % 2001)) 10000)

module _ (lib : Platform) where
  unfoldable pub retry_delay : ℕ → Option String → ℕ
  retry_delay attempt none = base_delay attempt
  retry_delay attempt (some jitter_key) =
      jittered (base_delay attempt)
        (lib.digest_prefix (concat (jitter_key ∷ ":" ∷ decimal attempt ∷ [])))
