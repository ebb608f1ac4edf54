-- ===== src/Api/Database.antt =====
-- services/api/honor_api/db.py: `owner_transaction`, `owner_profile_is_active` and `database_ready`. What
-- the pool and the connection do is an argument: which of their calls raise, and whether a commit that
-- raises took effect. The tables are any type `S`; the settings of a transaction are those that
-- `set_config(…, true)` gives it, which end with it.
pub mod Transaction
use honor.Common.{
  ℕ, String, Bool, true, false, not, ◌&&◌, List, Option, none, some, is_some, any, eqb, Result, ok,
  err, ◌>>=◌, ◌>>◌, raise_if, ◌==◌, if◌then◌else◌,
}
use honor.Common.Platform.{Platform}

-- What `current_setting` gives in the transaction.
pub record Context : Type 0 where
  pub owner_user_id : String
  pub request_id : Option String

pub data DatabaseError {ℓ} (E : Type ℓ) : Type ℓ where
  invalid_uuid : DatabaseError E
  connection_failed : DatabaseError E
  -- What the body of the `async with` raised.
  raised : E → DatabaseError E

-- Which calls of the driver return: acquiring a connection, the start, the two settings, the commit and
-- the rollback. A commit that raises (it timed out, or the connection was lost) may have taken effect:
-- `unconfirmed` says that it did.
pub record Driver : Type 0 where
  pub acquires : Bool
  pub starts : Bool
  pub sets_owner : Bool
  pub sets_request : Bool
  pub commits : Bool
  pub unconfirmed : Bool
  pub rolls_back : Bool

-- The connection's session: the tables that are committed, and those of its open transaction.
pub record Session {ℓ} (S : Type ℓ) : Type ℓ where
  pub durable : S
  pub pending : Option S

-- A session without a transaction.
abbrev pub idle {ℓ} : {S : Type ℓ} → S → Session S
idle tables = record { durable = tables; pending = none }

-- The tables as the session sees them, which a commit makes durable.
unfoldable pub seen {ℓ} : {S : Type ℓ} → Session S → S
seen s = elim s.pending [ none ↦ s.durable | some tables ↦ tables ]

-- `UUID(owner_user_id)` and `UUID(request_id)`.
unfoldable pub checked {ℓ} :
    {E : Type ℓ} → Platform → String → Option String → Result (DatabaseError E) (Unit {0})
checked lib owner none = raise_if (not (is_some (lib.parse_uuid owner))) invalid_uuid
checked lib owner (some request_id) =
    raise_if (not (is_some (lib.parse_uuid owner))) invalid_uuid
    >> raise_if (not (is_some (lib.parse_uuid request_id))) invalid_uuid

-- The calls of `set_config` return.
unfoldable pub sets : Driver → Option String → Bool
sets d none = d.sets_owner
sets d (some request_id) = d.sets_owner && d.sets_request

module _ {ℓ μ} {E : Type ℓ} {S : Type μ} where
  -- `transaction.start()`
  unfoldable pub start : Driver → Session S → Result (DatabaseError E) (Unit {0}) × Session S
  start d s =
      if d.starts
      then (ok tt, record s { pending = some s.durable })
      else (err connection_failed, s)

  -- `transaction.commit()`
  unfoldable pub commit : Driver → Session S → Result (DatabaseError E) (Unit {0}) × Session S
  unfolding seen
  commit d s =
      if d.commits
      then (ok tt, record { durable = seen s; pending = none })
      else if d.unconfirmed
      then (err connection_failed, record s { durable = seen s })
      else (err connection_failed, s)

  -- `transaction.rollback()`
  unfoldable pub rollback : Driver → Session S → Result (DatabaseError E) (Unit {0}) × Session S
  rollback d s =
      if d.rolls_back then (ok tt, record s { pending = none }) else (err connection_failed, s)

module _ {ℓ κ μ} {E : Type ℓ} {A : Type κ} {S : Type μ} where
  -- After the commit: the value of the body, or the exception of the commit.
  unfoldable pub after_commit :
      A → Result (DatabaseError E) (Unit {0}) × Session S → Result (DatabaseError E) A × Session S
  after_commit a (ok _, s) = (ok a, s)
  after_commit a (err e, s) = (err e, s)

  -- The body ends: with the commit, if it returned. It raises an `Exception`, which no cancellation is.
  unfoldable pub after_body :
      Driver → Session S → Result E A × S → Result (DatabaseError E) A × Session S
  unfolding commit after_commit
  after_body d s (ok a, tables) = after_commit a (commit d (record s { pending = some tables }))
  after_body d s (err e, tables) = (err (raised e), record s { pending = some tables })

  -- `raise`, after the rollback: the exception, or the one of the rollback.
  unfoldable pub raise_again :
      DatabaseError E
      → Result (DatabaseError E) (Unit {0}) × Session S
      → Result (DatabaseError E) A × Session S
  raise_again e (ok _, s) = (err e, s)
  raise_again e (err e', s) = (err e', s)

  -- `except Exception:`
  unfoldable pub excepted :
      Driver → Result (DatabaseError E) A × Session S → Result (DatabaseError E) A × Session S
  unfolding rollback raise_again
  excepted d (ok a, s) = (ok a, s)
  excepted d (err e, s) = raise_again e (rollback d s)

  -- `try:`, on the transaction's tables.
  unfoldable pub attempted :
      Driver
      → Context
      → (Context → S → Result E A × S)
      → Session S
      → Result (DatabaseError E) A × Session S
  unfolding sets seen after_body
  attempted d context body s =
      let run = after_body d s (body context (seen s)) in
      if sets d context.request_id then run else (err connection_failed, s)

  -- After the start.
  unfoldable pub within :
      Driver
      → Context
      → (Context → S → Result E A × S)
      → Result (DatabaseError E) (Unit {0}) × Session S
      → Result (DatabaseError E) A × Session S
  unfolding attempted excepted
  within d context body (ok _, s) = excepted d (attempted d context body s)
  within d context body (err e, s) = (err e, s)

  -- The connection, after the checks.
  unfoldable pub connected :
      Driver
      → Context
      → (Context → S → Result E A × S)
      → Session S
      → Result (DatabaseError E) (Unit {0})
      → Result (DatabaseError E) A × Session S
  unfolding start within
  connected d context body s (err e) = (err e, s)
  connected d context body s (ok _) =
      if d.acquires then within d context body (start d s) else (err connection_failed, s)

  -- `async with owner_transaction(owner_user_id, request_id) as connection: body`, on tables that the
  -- connection finds without a transaction of its own.
  unfoldable pub owner_transaction :
      Platform
      → Driver
      → String
      → Option String
      → (Context → S → Result E A × S)
      → S
      → Result (DatabaseError E) A × Session S
  unfolding checked connected
  owner_transaction lib d owner request_id body tables =
      connected d (record { owner_user_id = owner; request_id = request_id }) body (idle tables)
        (checked lib owner request_id)

-- A row of `owner_profiles`; the column `user_id` is a UUID, whose text is canonical.
pub record ProfileRow : Type 0 where
  pub user_id : String
  pub active : Bool

-- The policy `honor_owner_direct`: the rows that the transaction sees.
unfoldable pub is_visible : Context → ProfileRow → Bool
is_visible context row = row.user_id == context.owner_user_id && row.active

-- `SELECT EXISTS(SELECT 1 FROM owner_profiles WHERE user_id=$1::uuid AND active=true)`; the cast raises
-- on a text that is no UUID.
unfoldable pub exists_row : Context → List ProfileRow → Option String → Result (Unit {0}) Bool
unfolding is_visible
exists_row context rows none = err tt
exists_row context rows (some owner) =
    ok (any (λ row. is_visible context row && (row.user_id == owner && row.active)) rows)

unfoldable pub profile_exists :
    Platform → String → Context → List ProfileRow → Result (Unit {0}) Bool × List ProfileRow
unfolding exists_row
profile_exists lib owner context rows = (exists_row context rows (lib.parse_uuid owner), rows)

-- `owner_profile_is_active`, on the rows of `owner_profiles`.
unfoldable pub owner_profile_is_active :
    Platform → Driver → List ProfileRow → String → Result (DatabaseError (Unit {0})) Bool
unfolding owner_transaction profile_exists
owner_profile_is_active lib d rows owner =
    (owner_transaction lib d owner none (profile_exists lib owner) rows).0

-- `database_ready`, on the answer to `SELECT 1`, or the exception of the pool or the connection.
unfoldable pub database_ready : Result (Unit {0}) ℕ → Bool
database_ready (ok n) = eqb n 1
database_ready (err e) = false
