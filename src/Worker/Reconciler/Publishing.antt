-- ===== src/Worker/Reconciler/Publishing.antt =====
-- What one call of `reconcile_once` publishes, for every environment.
use honor.Common.{
  ℕ, ◌+◌, String, ◌≡◌, inl, inr, refl, ◌∙◌, Bool, true, false, List, [], ◌∷◌, ◌++◌, Option, none,
  some, arith, leb, length, length-append, Bool-cases, if◌then◌else◌,
}
use honor.Common.Platform.{Platform}
use honor.Jobs.{JobRow, Database}
use honor.Worker.Reconciler.{
  Stats, Visit, no_stats, Message, Broker, publish_all, redispatch_all, redispatch,
  publish_and_redispatch, Env, Outcome, recover_row, recover_one, recover_all, recover_expired,
  reconcile_once, is_expired,
}

publish_all-published :
    (broker : Broker) (ms sent : List Message) (stats : Stats)
    → stats.published ≡ length sent
    → (publish_all broker ms sent stats).2.published ≡ length (publish_all broker ms sent stats).1
unfolding publish_all
publish_all-published broker [] sent stats e = e
publish_all-published broker (m ∷ ms) sent stats e = elim (Bool-cases (broker stats.published)) [
  | inl hit ↦ rw hit (
      publish_all-published broker ms (sent ++ m ∷ []) _
        (ground (arith, length-append sent (m ∷ []))))
  | inr miss ↦ rw miss e
]

redispatch_all-published :
    (broker : Broker) (visits : ℕ → Visit) (n : ℕ) (ms sent : List Message) (stats : Stats)
    (db : Database)
    → stats.published ≡ length sent
    → (redispatch_all broker visits n ms sent stats db).2.published
      ≡ length (redispatch_all broker visits n ms sent stats db).1
unfolding redispatch_all
redispatch_all-published broker visits n [] sent stats db e = e
redispatch_all-published broker visits n (m ∷ ms) sent stats db e =
    elim (Bool-cases (broker stats.published)) [
      | inl hit ↦ rw hit (
          redispatch_all-published broker visits (n + 1) ms (sent ++ m ∷ []) _ _
            (ground (arith, length-append sent (m ∷ []))))
      | inr miss ↦ rw miss e
    ]

redispatch-published :
    (env : Env) (sent : List Message) (stats : Stats) (db : Database)
    → stats.published ≡ length sent
    → (redispatch env sent stats db).stats.published ≡ length (redispatch env sent stats db).sent
unfolding redispatch
redispatch-published env sent stats db e =
    redispatch_all-published env.broker env.touches 0 _ sent stats _ e

abbrev IsCounted : Outcome → Type 0
IsCounted o = o.stats.published ≡ length o.sent

if-IsCounted :
    (b : Bool) (x y : Outcome) → IsCounted x → IsCounted y → IsCounted (if b then x else y)
if-IsCounted true x y p q = p
if-IsCounted false x y p q = q

publish_and_redispatch-published :
    (env : Env) (due : List Message) (stats : Stats) (db : Database)
    → stats.published ≡ 0
    → (publish_and_redispatch env due stats db).stats.published
      ≡ length (publish_and_redispatch env due stats db).sent
unfolding publish_and_redispatch
publish_and_redispatch-published env due stats db e =
    let counted = publish_all-published env.broker due [] stats e in
    elim (Bool-cases (publish_all env.broker due [] stats).0) [
      | inl hit ↦ rw hit (redispatch-published env _ _ db counted)
      | inr miss ↦ rw miss counted
    ]

module _ (lib : Platform) where
  recover_row-published :
      (now : ℕ) (stats : Stats) (db : Database) (o : Option JobRow)
      → (recover_row lib now stats db o).0.published ≡ stats.published
  unfolding recover_row
  recover_row-published now stats db none = refl
  recover_row-published now stats db (some r) = elim (Bool-cases (is_expired now r)) [
    | inr miss ↦ rw miss refl
    | inl hit ↦ elim (Bool-cases (leb r.max_attempts r.attempt)) [
      | inl last ↦ rw (hit, last) refl
      | inr more ↦ rw (hit, more) refl
    ]
  ]

  recover_one-published :
      (v : Visit) (id : String) (stats : Stats) (db : Database)
      → (recover_one lib v id stats db).0.published ≡ stats.published
  unfolding recover_one
  recover_one-published v id stats db = elim (Bool-cases v.acquired) [
    | inl hit ↦ rw hit (recover_row-published v.now stats (v.between db) _)
    | inr miss ↦ rw miss refl
  ]

  recover_all-published :
      (visits : ℕ → Visit) (n : ℕ) (ids : List String) (stats : Stats) (db : Database)
      → (recover_all lib visits n ids stats db).0.published ≡ stats.published
  unfolding recover_all
  recover_all-published visits n [] stats db = refl
  recover_all-published visits n (id ∷ rest) stats db =
      recover_all-published visits (n + 1) rest _ _ ∙ recover_one-published (visits n) id stats db

  -- Whatever the surroundings, the `published` count that `reconcile_once` leaves is the number
  -- of messages that it sent, whether it returned or the broker raised.
  pub reconcile_once-published :
      (env : Env) (db : Database)
      → (reconcile_once lib env db).stats.published ≡ length (reconcile_once lib env db).sent
  unfolding reconcile_once recover_expired
  reconcile_once-published env db =
      if-IsCounted env.leader_lock_free _ _
        (publish_and_redispatch-published env _
          (record (recover_expired lib env.candidates_at env.recovery
            (record no_stats { leader = true }) db).0 { retrying_to_queued = _ })
          _ (recover_all-published env.recovery 0 _ _ db))
        refl
