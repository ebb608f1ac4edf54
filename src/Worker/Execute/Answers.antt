-- ===== src/Worker/Execute/Answers.antt =====
-- What the answer of each transaction on a job says of the job's row.
use honor.Common.{
  ℕ, String, ◌≡◌, inl, inr, refl, sym, ap, ◌∙◌, subst, Bool, true, false, ◌&&◌, Option, none, some,
  Result, ok, err, ltb, >>=-eq-ok, >>=-eq-err, ok-injective, Bool-cases, ◌≢◌, if_then, if_else,
  arith,
}
use honor.Common.Table.{find, find-updated}
use honor.Common.Platform.{Platform}
use honor.Jobs.{JobRow, Database, job_id, state_name}
use honor.Jobs.Spec.{JobError, invalid_uuid, check_uuid}
use honor.Jobs.Store.{canonical}
use honor.Worker.Transitions.{
  completed, blocked, delayed, failed, transition, claim_row, claim, if_running, is_claimable,
  running_row, succeed_row, Failure, retry_or_give_up, fail_running,
}

false-ne-true : ◌≢◌ {A = Bool} false true
false-ne-true h = cc

some-ne-none : (r : JobRow) → ◌≢◌ {A = Option JobRow} (some r) none
some-ne-none r h = cc

module _ (lib : Platform) (id : String) where
  -- The job's row is in the state of this name.
  abbrev pub IsIn : String → Database → Type 0
  IsIn name db =
      (r : JobRow) × (find job_id (canonical lib id) db.jobs ≡ some r) × (state_name r.state ≡ name)

  transition-IsIn :
      (f : JobRow → JobRow) (name : String) (now : ℕ) (r : JobRow) (event state : String)
      (reason evidence : Option String) (db : Database)
      → ((x : JobRow) → job_id (f x) ≡ job_id x)
      → state_name (f r).state ≡ name
      → find job_id (canonical lib id) db.jobs ≡ some r
      → IsIn name (transition lib now r f event state reason evidence db)
  unfolding transition
  transition-IsIn f name now r event state reason evidence db same named found =
      (f r, find-updated job_id (canonical lib id) f same db.jobs r found, named)

  if_running-some :
      (token : String) (o : Option JobRow) (r : JobRow) → if_running token o ≡ some r → o ≡ some r
  unfolding if_running
  if_running-some token none r h = cc
  if_running-some token (some q) r h = ground arith

  -- The row of the job, where the running row is one.
  abbrev pub IsRow : Database → Option JobRow → Type 0
  IsRow db o = (r : JobRow) → o ≡ some r → find job_id (canonical lib id) db.jobs ≡ some r

  pub running_row-IsRow : (token : String) (db : Database) → IsRow db (running_row lib id token db)
  unfolding running_row
  running_row-IsRow token db r h = if_running-some (canonical lib token) _ r h

  retry_or_give_up-IsIn :
      (f : Failure) (key : String) (now : ℕ) (r : JobRow) (db : Database)
      → find job_id (canonical lib id) db.jobs ≡ some r
      → IsIn (retry_or_give_up lib f key now r db).0 (retry_or_give_up lib f key now r db).1
  unfolding retry_or_give_up delayed failed state_name
  retry_or_give_up-IsIn f key now r db found =
      elim (Bool-cases (f.retryable && ltb r.attempt r.max_attempts)) [
        | inl again ↦
            rw again (transition-IsIn _ "retrying" now r _ _ _ _ db (λ x. refl) refl found)
        | inr over ↦
            rw over (transition-IsIn _ "failed-terminal" now r _ _ _ _ db (λ x. refl) refl found)
      ]

  pub fail_running-IsIn :
      (f : Failure) (key : String) (now : ℕ) (r : JobRow) (db : Database) (action : Option String)
      (state : String) (db' : Database)
      → find job_id (canonical lib id) db.jobs ≡ some r
      → fail_running lib f key now r db action ≡ ok (state, db')
      → IsIn state db'
  unfolding fail_running blocked state_name
  fail_running-IsIn f key now r db none state db' found h =
      subst (λ (q : String × Database). IsIn q.0 q.1) (ok-injective h)
        (retry_or_give_up-IsIn f key now r db found)
  fail_running-IsIn f key now r db (some action) state db' found h =
      let (_, _, h') = >>=-eq-ok (check_uuid lib action) _ h in
      subst (λ (q : String × Database). IsIn q.0 q.1) (ok-injective h')
        (transition-IsIn _ "blocked-owner-action" now r _ _ _ _ db (λ x. refl) refl found)

  pub succeed_row-IsIn :
      (now : ℕ) (db db' : Database) (o : Option JobRow)
      → IsRow db o
      → succeed_row lib now db o ≡ (true, db')
      → IsIn "succeeded" db'
  unfolding succeed_row completed state_name
  succeed_row-IsIn now db db' none at h =
      absurd (false-ne-true (ap (λ (q : Bool × Database). q.0) h))
  succeed_row-IsIn now db db' (some r) at h =
      subst (IsIn "succeeded") (ap (λ (q : Bool × Database). q.1) h)
        (transition-IsIn _ "succeeded" now r _ _ _ _ db (λ x. refl) refl (at r refl))

  pub claim_row-none :
      (token : String) (client_now now : ℕ) (db db' : Database) (o : Option JobRow)
      → claim_row token client_now now db o ≡ (none, db')
      → db' ≡ db
  unfolding claim_row
  claim_row-none token client_now now db db' none h =
      sym (ap (λ (q : Option JobRow × Database). q.1) h)
  claim_row-none token client_now now db db' (some r) h =
      elim (Bool-cases (is_claimable token client_now r)) [
        | inl free ↦ absurd (
            some-ne-none _
              (ap (λ (q : Option JobRow × Database). q.0) (sym (if_then _ _ _ free) ∙ h)))
        | inr other ↦
            sym (ap (λ (q : Option JobRow × Database). q.1) (sym (if_else _ _ _ other) ∙ h))
      ]

  -- `UUID(text)` raised.
  abbrev pub IsRefusal : JobError → Type 0
  IsRefusal e = (text : String) × (lib.parse_uuid text ≡ none) × (e ≡ invalid_uuid text)

  refused_text :
      (text : String) (o : Option String) (e : JobError)
      → ◌≡◌ {A = Result JobError (Unit {0})}
          (elim o [ none ↦ err (invalid_uuid text) | some u ↦ ok tt ])
          (err e)
      → (o ≡ none) × (e ≡ invalid_uuid text)
  refused_text text none e h = (refl, cc)
  refused_text text (some u) e h = cc

  pub check_uuid-IsRefusal :
      (text : String) (e : JobError) → check_uuid lib text ≡ err e → IsRefusal e
  unfolding check_uuid
  check_uuid-IsRefusal text e h =
      let (refused, is) = refused_text text (lib.parse_uuid text) e h in (text, refused, is)

  pub fail_running-IsRefusal :
      (f : Failure) (key : String) (now : ℕ) (r : JobRow) (db : Database) (action : Option String)
      (e : JobError)
      → fail_running lib f key now r db action ≡ err e
      → IsRefusal e
  unfolding fail_running
  fail_running-IsRefusal f key now r db none e h = cc
  fail_running-IsRefusal f key now r db (some action) e h =
      elim (>>=-eq-err (check_uuid lib action) _ h) [
        | inl raised ↦ check_uuid-IsRefusal action e raised
        | inr (_, after) ↦ cc
      ]

  pub claim-IsRefusal :
      (owner token : String) (client_now now : ℕ) (db : Database) (e : JobError)
      → claim lib owner id token client_now now db ≡ err e
      → IsRefusal e
  unfolding claim
  claim-IsRefusal owner token client_now now db e h = elim (>>=-eq-err (check_uuid lib id) _ h) [
    | inl raised ↦ check_uuid-IsRefusal id e raised
    | inr (_, h1) ↦ elim (>>=-eq-err (check_uuid lib token) _ h1) [
      | inl raised ↦ check_uuid-IsRefusal token e raised
      | inr (_, h2) ↦ elim (>>=-eq-err (check_uuid lib owner) _ h2) [
        | inl raised ↦ check_uuid-IsRefusal owner e raised
        | inr (_, h3) ↦ cc
      ]
    ]
  ]
