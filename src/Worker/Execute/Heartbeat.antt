-- ===== src/Worker/Execute/Heartbeat.antt =====
-- `_heartbeat_loop` of services/worker/honor_worker/durable_jobs.py: a renewal after each interval,
-- until `stop` is set or a renewal is rejected.
use honor.Common.{ℕ, String, inl, inr, List, [], ◌∷◌, Option, none, some, if◌then◌else◌, Bool-cases}
use honor.Common.Platform.{Platform}
use honor.Jobs.{Database}
use honor.Worker.Transitions.{heartbeat}
use honor.Worker.Execute.{JobException, heartbeat_error}
use honor.Worker.System.History.{joined, History, begin, later, beats}

-- An interval that ends before `stop` is set: what other sessions do in it, and the time of the renewal.
pub record Interval : Type 0 where
  pub between : Database → Database
  pub now : ℕ

module _ (lib : Platform) (id token : String) where
  unfoldable pub heartbeat_loop : List Interval → Database → Option JobException × Database
  heartbeat_loop [] db = (none, db)
  heartbeat_loop (i ∷ is) db =
      let (accepted, db') = heartbeat lib id token i.now (i.between db) in
      let rest = heartbeat_loop is db' in
      if accepted
      then rest
      else (some (heartbeat_error "running job heartbeat renewal was rejected"), db')

  abbrev pub AreHistories : List Interval → Type 0
  AreHistories [] = Unit
  AreHistories (i ∷ is) = ((db : Database) → History lib db (i.between db)) × AreHistories is

  -- The loop's renewals are transactions like any others.
  pub heartbeat_loop-History :
      (is : List Interval) (db : Database)
      → AreHistories is
      → History lib db (heartbeat_loop is db).1
  unfolding heartbeat_loop
  heartbeat_loop-History [] db h = begin
  heartbeat_loop-History (i ∷ is) db h =
      let beat = later (h.0 db) (beats id token i.now) in
      elim (Bool-cases (heartbeat lib id token i.now (i.between db)).0) [
        | inl hit ↦ rw hit (joined lib beat (heartbeat_loop-History is _ h.1))
        | inr miss ↦ rw miss beat
      ]
