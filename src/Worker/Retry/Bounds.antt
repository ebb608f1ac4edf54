-- ===== src/Worker/Retry/Bounds.antt =====
-- The jitter stays within a tenth of the base, so the delays of later attempts are longer.
use honor.Common.{
  ℕ, zero, suc, ◌+◌, ◌-◌, ◌*◌, ◌%◌, ◌≤◌, ◌<◌, min, String, ◌≡◌, Option, none, some, arith,
}
use native.Mathlib.Decide.{ℕ_discrete}
use honor.Common.Rounding.{div_half_even_nearest}
use honor.Common.Platform.{Platform}
use honor.Worker.Retry.{base_delay, jittered, retry_delay}

spread : (tenth j : ℕ) → j ≤ 2000 → tenth * j ≤ tenth * 2000
spread tenth j h = grind arith

-- A base that ten divides keeps its exact tenths.
jittered_bounds :
    (tenth digest : ℕ)
    → 1 ≤ tenth
    → (9 * tenth ≤ jittered (10 * tenth) digest) × (jittered (10 * tenth) digest ≤ 11 * tenth)
unfolding jittered
jittered_bounds tenth digest h =
    let j = digest % 2001 in
    let small = spread tenth j (omega arith) in
    let near = div_half_even_nearest (10 * tenth * (9000 + j)) 10000 (omega arith) in
    (omega (arith, near, small), omega (arith, near, small))

last : (n : ℕ) → base_delay (suc (suc (suc (suc (suc n))))) ≡ 7200
unfolding base_delay
last n = let e : min (suc (suc (suc (suc (suc n)))) - 1) 4 ≡ 4 = omega arith in rw e

base_tenths : (attempt : ℕ) → (t : ℕ) × (1 ≤ t) × (base_delay attempt ≡ 10 * t)
unfolding base_delay
base_tenths zero = (3, omega arith, omega arith)
base_tenths (suc zero) = (3, omega arith, omega arith)
base_tenths (suc (suc zero)) = (12, omega arith, omega arith)
base_tenths (suc (suc (suc zero))) = (60, omega arith, omega arith)
base_tenths (suc (suc (suc (suc zero)))) = (180, omega arith, omega arith)
base_tenths (suc (suc (suc (suc (suc n))))) = (720, omega arith, last n)

base_step : (n : ℕ) → 1 ≤ n → n ≤ 4 → 11 * base_delay n < 9 * base_delay (suc n)
unfolding base_delay
base_step zero h k = absurd (omega arith)
base_step (suc zero) h k = omega arith
base_step (suc (suc zero)) h k = omega arith
base_step (suc (suc (suc zero))) h k = omega arith
base_step (suc (suc (suc (suc zero)))) h k = omega arith
base_step (suc (suc (suc (suc (suc n))))) h k = absurd (omega arith)

-- The bases leave a gap that the jitter cannot close.
base_gap : (a b : ℕ) → 1 ≤ a → a < b → b ≤ 5 → 11 * base_delay a < 9 * base_delay b
base_gap a zero ha hb hc = absurd (omega arith)
base_gap a (suc b) ha hb hc = elim (ℕ_discrete a b) [
  | yes same ↦ rw same (base_step b (omega arith) (omega arith))
  | no other ↦
      omega (
        arith,
        base_gap a b ha (omega arith) (omega arith),
        base_step b (omega arith) (omega arith),
      )
]

module _ (lib : Platform) where
  -- For any attempt and any jitter key, the retry delay lies within ten percent of the attempt's
  -- base delay.
  pub retry_delay_bounds :
      (attempt : ℕ) (key : Option String)
      → (9 * base_delay attempt ≤ 10 * retry_delay lib attempt key)
        × (10 * retry_delay lib attempt key ≤ 11 * base_delay attempt)
  unfolding retry_delay
  retry_delay_bounds attempt none = (omega arith, omega arith)
  retry_delay_bounds attempt (some key) =
      let (t, pos, e) = base_tenths attempt in
      rw e (omega (arith, jittered_bounds t _ pos), omega (arith, jittered_bounds t _ pos))

  -- For attempts from 1 to 5, a later attempt's delay is longer than an earlier one's, whatever
  -- the jitter keys.
  pub retry_delay_grows :
      (a b : ℕ) (key key' : Option String)
      → 1 ≤ a
      → a < b
      → b ≤ 5
      → retry_delay lib a key < retry_delay lib b key'
  retry_delay_grows a b key key' ha hb hc =
      omega (arith, retry_delay_bounds a key, retry_delay_bounds b key', base_gap a b ha hb hc)
