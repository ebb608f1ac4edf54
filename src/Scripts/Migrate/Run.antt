-- ===== src/Scripts/Migrate/Run.antt =====
-- What one run of the migrations leaves: what is recorded stays, and a run that succeeds leaves
-- nothing for the next.
use honor.Common.{
  String, ◌≡◌, ◌⊎◌, inl, inr, refl, sym, ap, ◌∙◌, subst, List, [], ◌∷◌, Option, none, some, Result,
  ok, err, >>=-eq-ok, ok-injective, ◌==◌, eq_iff, eq_refl, Bool-cases, All,
}
use honor.Common.Table.{find, find-key, insert, find-insert}
use honor.Scripts.Migrate.{
  Migration, MigrationError, Applied, applied_version, Database, Execute, executed, apply_one,
  continued, apply_migrations,
}

-- The row that records a migration.
abbrev pub row_of : Migration → Applied
row_of m = record { version = m.version; checksum_sha256 = m.sha256 }

same_row :
    (m : Migration) (a : Applied)
    → a.version ≡ m.version
    → a.checksum_sha256 ≡ m.sha256
    → a ≡ row_of m
same_row m a v c = cc

-- The migration is recorded with its checksum.
abbrev pub IsRecorded : List Applied → Migration → Type 0
IsRecorded ledger m = find applied_version m.version ledger ≡ some (row_of m)

module _ {ℓ} {S : Type ℓ} (execute : Execute S) where
  abbrev Kept : List Applied → List Applied → Type 0
  Kept before after =
      (k : String) (a : Applied)
      → find applied_version k before ≡ some a
      → find applied_version k after ≡ some a

  executed-ledger :
      (m : Migration) (db db' : Database S) (o : Option S)
      → executed execute m db o ≡ ok db'
      → insert (row_of m) db.ledger ≡ db'.ledger
  unfolding executed
  executed-ledger m db db' none h = cc
  executed-ledger m db db' (some schema) h = ap (λ (d : Database S). d.ledger) (ok-injective h)

  -- A migration is recorded as it is, or an insertion records it.
  one_step :
      (m : Migration) (db : Database S) (o : Option Applied) (now : List String) (db' : Database S)
      → apply_one execute m db o ≡ ok (now, db')
      → ((a : Applied) × (o ≡ some a) × (a.checksum_sha256 ≡ m.sha256) × (db ≡ db') × ([] ≡ now))
        ⊎ ((o ≡ none) × (insert (row_of m) db.ledger ≡ db'.ledger))
  unfolding apply_one
  one_step m db none now db' h =
      let (d, e, h') = >>=-eq-ok (executed execute m db _) _ h in
      inr (
        refl,
        subst (λ (x : Database S). insert (row_of m) db.ledger ≡ x.ledger)
            (ap (λ q. q.1) (ok-injective h')) (executed-ledger m db d _ e),
      )
  one_step m db (some a) now db' h = elim (Bool-cases (a.checksum_sha256 == m.sha256)) [
    | inl hit ↦
        let e = ok-injective (rw hit at h) in
        inl (a, refl, (eq_iff a.checksum_sha256 m.sha256).0 hit, ap (λ q. q.1) e, ap (λ q. q.0) e)
    | inr miss ↦ absurd (let h' = rw miss at h in cc)
  ]

  apply_one-Kept :
      (m : Migration) (db : Database S) (now : List String) (db' : Database S)
      → apply_one execute m db (find applied_version m.version db.ledger) ≡ ok (now, db')
      → Kept db.ledger db'.ledger
  apply_one-Kept m db now db' h k a e =
      elim (one_step m db (find applied_version m.version db.ledger) now db' h) [
        | inl (_, _, _, same, _) ↦
            subst (λ (d : Database S). find applied_version k d.ledger ≡ some a) same e
        | inr (_, same) ↦
            subst (λ l. find applied_version k l ≡ some a) same
              (find-insert applied_version k _ db.ledger ∙ rw e refl)
      ]

  apply_one-IsRecorded :
      (m : Migration) (db : Database S) (now : List String) (db' : Database S)
      → apply_one execute m db (find applied_version m.version db.ledger) ≡ ok (now, db')
      → find applied_version m.version db'.ledger ≡ some (row_of m)
  apply_one-IsRecorded m db now db' h =
      elim (one_step m db (find applied_version m.version db.ledger) now db' h) [
        | inl (a, there, sum, same, _) ↦
            subst (λ (d : Database S). find applied_version m.version d.ledger ≡ some (row_of m))
              same
              (there
                ∙ ap (λ x. some x)
                    (same_row m a (find-key applied_version m.version db.ledger a there) sum))
        | inr (new, same) ↦
            subst (λ l. find applied_version m.version l ≡ some (row_of m)) same
              (find-insert applied_version m.version _ db.ledger ∙ rw (new, eq_refl m.version) refl)
      ]

  continued-Kept :
      (db : Database S) (r : Result MigrationError (List String × Database S))
      (rest : Database S → Result MigrationError (List String) × Database S)
      → ((now : List String) (db' : Database S) → r ≡ ok (now, db') → Kept db.ledger db'.ledger)
      → ((db' : Database S) → Kept db'.ledger (rest db').1.ledger)
      → Kept db.ledger (continued execute db r rest).1.ledger
  unfolding continued
  continued-Kept db (err e) rest first more = λ k a h. h
  continued-Kept db (ok (now, db')) rest first more =
      λ k a h. more db' k a (first now db' refl k a h)

  -- A run of the migrations, whether it returns or raises, keeps every record of an applied
  -- migration with its checksum.
  pub apply_migrations-Kept :
      (ms : List Migration) (db : Database S)
      → Kept db.ledger (apply_migrations execute ms db).1.ledger
  unfolding apply_migrations
  apply_migrations-Kept [] db = λ k a h. h
  apply_migrations-Kept (m ∷ ms) db =
      continued-Kept db _ (apply_migrations execute ms) (apply_one-Kept m db)
        (apply_migrations-Kept ms)

  continued-ok :
      (db : Database S) (r : Result MigrationError (List String × Database S))
      (rest : Database S → Result MigrationError (List String) × Database S) (all : List String)
      → (continued execute db r rest).0 ≡ ok all
      → (now : List String) × (db' : Database S) × (more : List String) × (r ≡ ok (now, db'))
        × ((rest db').0 ≡ ok more)
        × ((continued execute db r rest).1 ≡ (rest db').1)
  unfolding continued
  continued-ok db (err e) rest all h = cc
  continued-ok db (ok (now, db')) rest all h =
      let (more, e, _) = >>=-eq-ok (rest db').0 _ h in (now, db', more, refl, e, refl)

  -- After a run of the migrations that returned, every migration is recorded with its checksum.
  pub apply_migrations-IsRecorded :
      (ms : List Migration) (db : Database S) (now : List String)
      → (apply_migrations execute ms db).0 ≡ ok now
      → All (IsRecorded (apply_migrations execute ms db).1.ledger) ms
  unfolding apply_migrations
  apply_migrations-IsRecorded [] db now h = tt
  apply_migrations-IsRecorded (m ∷ ms) db now h =
      let (first, db', more, e, e', same) = continued-ok db _ (apply_migrations execute ms) now h in
      subst (λ (d : Database S). All (IsRecorded d.ledger) (m ∷ ms)) (sym same)
        (
          apply_migrations-Kept ms db' m.version _ (apply_one-IsRecorded m db first db' e),
          apply_migrations-IsRecorded ms db' more e',
        )

  apply_migrations-recorded :
      (ms : List Migration) (db : Database S)
      → All (IsRecorded db.ledger) ms
      → apply_migrations execute ms db ≡ (ok [], db)
  unfolding apply_migrations continued apply_one
  apply_migrations-recorded [] db h = refl
  apply_migrations-recorded (m ∷ ms) db h =
      rw (h.0, eq_refl m.sha256, apply_migrations-recorded ms db h.1) refl

  -- After a run of the migrations that returned, a second run applies none and changes nothing.
  pub apply_migrations_again :
      (ms : List Migration) (db db' : Database S) (now : List String)
      → apply_migrations execute ms db ≡ (ok now, db')
      → apply_migrations execute ms db' ≡ (ok [], db')
  apply_migrations_again ms db db' now h = apply_migrations-recorded ms db' (
      subst (λ (d : Database S). All (IsRecorded d.ledger) ms) (ap (λ q. q.1) h)
        (apply_migrations-IsRecorded ms db now (ap (λ q. q.0) h)))
