-- ===== src/Worker/Monitoring/Rounds.antt =====
-- When the reconciler counts as live.
use honor.Common.{
  ℕ, ◌+◌, ◌≤◌, String, ◌≡◌, ◌↔◌, refl, sym, ◌∙◌, eq_iff, Bool, true, false, ◌&&◌, ◌||◌, List, [],
  ◌∷◌, Option, none, some, any, ltb, ok, Bool-cases, inl, inr, arith, if◌then◌else◌,
}
use honor.Worker.Monitoring.{
  HealthKey, read_key, health_ttl, publish_reconciler_liveness, pause, Round, Reply, is_pong,
  health_is_live, round, main_rounds, Signal,
}

or_swap : (a b c : Bool) → (c ≡ true → b ≡ true) → (a || b) ≡ ((b || a) || c)
or_swap true true c h = refl
or_swap true false c h = refl
or_swap false true c h = refl
or_swap false false true h = cc (h refl)
or_swap false false false h = refl

or_false : (a : Bool) → (a || false) ≡ a
or_false true = refl
or_false false = refl

live_iff :
    (replies : List Reply) (o : Option String)
    → (health_is_live (ok replies) (ok o) true ≡ true)
      ↔ ((any is_pong replies ≡ true) × (o ≡ some "ok"))
unfolding health_is_live
live_iff replies none = (λ h. cc, λ h. cc)
live_iff replies (some text) =
    (λ h. ground (arith, eq_iff text "ok"), λ h. ground (arith, eq_iff text "ok"))

module _ (ttl interval : ℕ) where
  -- The times at which rounds published, from a clock on.
  abbrev pub publications : ℕ → List Round → List ℕ
  publications clock [] = []
  publications clock (r ∷ rs) =
      let rest = publications (clock + r.duration + pause interval) rs in
      if r.reconciles && r.sets then (clock + r.duration) ∷ rest else rest

  -- One of the times is less than the key's time to live ago.
  abbrev pub is_recent : ℕ → List ℕ → Bool
  is_recent now times = any (λ t. ltb now (t + health_ttl ttl)) times

  abbrev holds : ℕ → Option HealthKey → Bool
  holds now none = false
  holds now (some k) = ltb now k.expires_at

  abbrev IsWithin : ℕ → Option HealthKey → Type 0
  IsWithin clock none = Unit
  IsWithin clock (some k) = (k.text ≡ "ok") × (k.expires_at ≤ clock + health_ttl ttl)

  read-holds :
      (now : ℕ) (key : Option HealthKey) (clock : ℕ)
      → IsWithin clock key
      → (read_key now key ≡ some "ok") ↔ (holds now key ≡ true)
  unfolding read_key
  read-holds now none clock w = (λ h. cc, λ h. cc)
  read-holds now (some k) clock w = elim (Bool-cases (ltb now k.expires_at)) [
    | inl early ↦ rw (early, w.0) (λ h. refl, λ h. refl)
    | inr late ↦ rw late (λ h. cc, λ h. cc)
  ]

  -- A key that holds is within the time to live of every later publication.
  absorbed :
      (now clock published : ℕ) (key : Option HealthKey)
      → IsWithin clock key
      → clock ≤ published
      → holds now key ≡ true
      → ltb now (published + health_ttl ttl) ≡ true
  absorbed now clock published none w le h = cc
  absorbed now clock published (some k) (same, within) le h = ground arith

  later-IsWithin :
      (clock clock' : ℕ) (key : Option HealthKey)
      → clock ≤ clock'
      → IsWithin clock key
      → IsWithin clock' key
  later-IsWithin clock clock' none le w = tt
  later-IsWithin clock clock' (some k) le (same, within) = (same, omega arith)

  -- What the key says after a round: that the round published lately, or what it said before.
  abbrev published : Signal → Round → Bool
  published s r = r.reconciles && r.sets

  round-published :
      (s : Signal) (r : Round)
      → r.reconciles && r.sets ≡ true
      → (round ttl interval s r).key
        ≡ some (record { text = "ok"; expires_at = (s.clock + r.duration) + health_ttl ttl })
  unfolding round publish_reconciler_liveness
  round-published s r h = ground arith

  round-kept :
      (s : Signal) (r : Round)
      → r.reconciles && r.sets ≡ false
      → (round ttl interval s r).key ≡ s.key
  unfolding round publish_reconciler_liveness
  round-kept s r h = ground arith

  round-clock :
      (s : Signal) (r : Round)
      → (round ttl interval s r).clock ≡ s.clock + r.duration + pause interval
  unfolding round
  round-clock s r = refl

  round-IsWithin :
      (s : Signal) (r : Round)
      → IsWithin s.clock s.key
      → IsWithin (round ttl interval s r).clock (round ttl interval s r).key
  round-IsWithin s r w = elim (Bool-cases (r.reconciles && r.sets)) [
    | inl sent ↦ rw (round-published s r sent, round-clock s r) (refl, omega arith)
    | inr silent ↦
        rw (round-kept s r silent, round-clock s r)
          (later-IsWithin s.clock (s.clock + r.duration + pause interval) s.key (omega arith) w)
  ]

  main_rounds-holds :
      (now : ℕ) (rs : List Round) (s : Signal)
      → IsWithin s.clock s.key
      → (holds now (main_rounds ttl interval s rs).key
          ≡ (is_recent now (publications s.clock rs) || holds now s.key))
        × IsWithin (main_rounds ttl interval s rs).clock (main_rounds ttl interval s rs).key
  unfolding main_rounds
  main_rounds-holds now [] s w = (refl, w)
  main_rounds-holds now (r ∷ rs) s w =
      let (ih, within) = main_rounds-holds now rs (round ttl interval s r) (round-IsWithin s r w) in
      let clock = round-clock s r in
      (
        elim (Bool-cases (r.reconciles && r.sets)) [
          | inl sent ↦ rw sent (
              ih
              ∙ rw (clock, round-published s r sent) refl
              ∙ or_swap (is_recent now (publications (s.clock + r.duration + pause interval) rs))
                  (ltb now (s.clock + r.duration + health_ttl ttl)) (holds now s.key)
                  (absorbed now s.clock (s.clock + r.duration) s.key w (omega arith)))
          | inr silent ↦ rw silent (ih ∙ rw (clock, round-kept s r silent) refl)
        ],
        within,
      )

  pub main_rounds-live_iff :
      (rs : List Round) (start now : ℕ)
      → (read_key now (main_rounds ttl interval (record { clock = start; key = none }) rs).key
          ≡ some "ok")
        ↔ (is_recent now (publications start rs) ≡ true)
  main_rounds-live_iff rs start now =
      let (ends, within) = main_rounds-holds now rs (record { clock = start; key = none }) tt in
      let (reads, held) = read-holds now _ _ within in
      let same = ends ∙ or_false (is_recent now (publications start rs)) in
      (λ h. sym same ∙ reads h, λ h. held (same ∙ h))

  -- When Redis and Celery answer, `health_is_live` is True after some rounds of the reconciler's
  -- loop exactly if a worker replied pong and one of the rounds that returned published its key
  -- less than the time to live ago.
  pub health_is_live_iff :
      (rs : List Round) (start now : ℕ) (replies : List Reply)
      → (health_is_live
            (ok replies)
            (ok (
              read_key now
                (main_rounds ttl interval (record { clock = start; key = none }) rs).key))
            true
          ≡ true)
        ↔ ((any is_pong replies ≡ true) × (is_recent now (publications start rs) ≡ true))
  health_is_live_iff rs start now replies =
      let (recent, read) = main_rounds-live_iff rs start now in
      let (both, live) = live_iff replies _ in
      (λ h. ((both h).0, recent (both h).1), λ h. live (h.0, read h.1))
