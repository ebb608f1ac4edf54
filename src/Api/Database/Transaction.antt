-- ===== src/Api/Database/Transaction.antt =====
-- What an owner's transaction does to the tables, and when a profile counts as active.
use honor.Common.{
  false, String, ◌≡◌, ◌≢◌, ◌↔◌, ◌⊎◌, inl, inr, refl, sym, ap, ◌∙◌, Bool, true, ◌&&◌, List, [], ◌∷◌,
  Option, none, some, any, Result, ok, err, ◌==◌, Bool-cases, eq_iff, ok-injective, arith,
}
use honor.Common.Platform.{Platform}
use honor.Api.Database.{
  Context, DatabaseError, connection_failed, raised, Driver, Session, idle, seen, checked, sets,
  start, commit, rollback, after_commit, after_body, raise_again, excepted, attempted, within,
  connected, owner_transaction, ProfileRow, is_visible, exists_row, profile_exists,
  owner_profile_is_active,
}

err-ne-ok {ℓ κ} : {E : Type ℓ} {A : Type κ} (e : E) (a : A) → ◌≢◌ {A = Result E A} (err e) (ok a)
err-ne-ok e a h = cc

-- The call raised and left the tables as they were; or it returned what the body did, run with this
-- context on those tables, and left the tables of the body; or the body returned, its commit raised all
-- the same, and its tables are there.
abbrev pub IsAtomic {ℓ κ μ} :
    {E : Type ℓ} {A : Type κ} {S : Type μ}
    → Driver
    → (Context → S → Result E A × S)
    → Context
    → S
    → Result (DatabaseError E) A × Session S
    → Type (ℓ ⊔ κ ⊔ μ)
IsAtomic {E = E} {A = A} d body context tables outcome =
    ((e : DatabaseError E) × (outcome.0 ≡ err e) × (outcome.1.durable ≡ tables))
    ⊎ (((a : A) × (outcome.0 ≡ ok a) × (body context tables ≡ (ok a, outcome.1.durable)))
        ⊎ ((e : DatabaseError E) × (a : A) × (outcome.0 ≡ err e)
            × (body context tables ≡ (ok a, outcome.1.durable))
            × (d.commits ≡ false)
            × (d.unconfirmed ≡ true)))

-- No transaction is left open, unless the rollback itself raises.
abbrev pub IsClosed {ℓ κ μ} :
    {E : Type ℓ} {A : Type κ} {S : Type μ}
    → Driver
    → Result (DatabaseError E) A × Session S
    → Type μ
IsClosed d outcome = (d.rolls_back ≡ false) ⊎ (outcome.1.pending ≡ none)

module _ {ℓ κ μ} {E : Type ℓ} {A : Type κ} {S : Type μ} (d : Driver)
    (body : Context → S → Result E A × S) (context : Context) (tables : S) where
  -- A value is only returned with the transaction at its end.
  abbrev IsEnded : Result (DatabaseError E) A × Session S → Type μ
  IsEnded (ok a, s) = s.pending ≡ none
  IsEnded (err e, s) = Unit {μ}

  after_body-IsAtomic :
      (s : Session S) (done : Result E A × S)
      → s.durable ≡ tables
      → body context tables ≡ done
      → IsAtomic d body context tables (after_body d s done) × IsEnded (after_body d s done)
  unfolding after_body commit after_commit seen
  after_body-IsAtomic s (err e, end) same ran = (inl (raised e, refl, same), tt)
  after_body-IsAtomic s (ok a, end) same ran = elim (Bool-cases d.commits) [
    | inl commits ↦ rw commits (inr (inl (a, refl, ran)), refl)
    | inr refused ↦ elim (Bool-cases d.unconfirmed) [
      | inl effective ↦
          rw (refused, effective) (inr (inr (connection_failed, a, refl, ran, refl, refl)), tt)
      | inr lost ↦ rw (refused, lost) (inl (connection_failed, refl, same), tt)
    ]
  ]

  attempted-IsAtomic :
      (s : Session S)
      → s.durable ≡ tables
      → seen s ≡ tables
      → IsAtomic d body context tables (attempted d context body s)
        × IsEnded (attempted d context body s)
  unfolding attempted
  attempted-IsAtomic s same view = elim (Bool-cases (sets d context.request_id)) [
    | inl set ↦ rw (set, view) (after_body-IsAtomic s (body context tables) same refl)
    | inr unset ↦ rw unset (inl (connection_failed, refl, same), tt)
  ]

  -- The rollback ends the transaction and leaves what is durable.
  rolled_back :
      (e : DatabaseError E) (s : Session S)
      → ((e' : DatabaseError E) × ((raise_again {A = A} e (rollback d s)).0 ≡ err e'))
        × ((raise_again {A = A} e (rollback d s)).1.durable ≡ s.durable)
        × IsClosed d (raise_again {A = A} e (rollback d s))
  unfolding raise_again rollback
  rolled_back e s = elim (Bool-cases d.rolls_back) [
    | inl returns ↦ rw returns ((e, refl), refl, inr refl)
    | inr raises ↦ rw raises ((connection_failed, refl), refl, inl refl)
  ]

  excepted-IsAtomic :
      (o : Result (DatabaseError E) A × Session S)
      → IsAtomic d body context tables o
      → IsEnded o
      → IsAtomic d body context tables (excepted d o) × IsClosed d (excepted d o)
  unfolding excepted
  excepted-IsAtomic (ok a, s) atomic ended = (atomic, inr ended)
  excepted-IsAtomic (err e, s) (inl (e0, failed, same)) ended =
      let ((e', again), kept, closed) = rolled_back e s in (inl (e', again, kept ∙ same), closed)
  excepted-IsAtomic (err e, s) (inr (inl (a, returned, ran))) ended =
      absurd (err-ne-ok e a returned)
  excepted-IsAtomic (err e, s) (inr (inr (e0, a, failed, ran, refused, effective))) ended =
      let ((e', again), kept, closed) = rolled_back e s in
      (inr (inr (e', a, again, ran ∙ ap (λ t. (ok a, t)) (sym kept), refused, effective)), closed)

  connected-IsAtomic :
      (before : Result (DatabaseError E) (Unit {0}))
      → IsAtomic d body context tables (connected d context body (idle tables) before)
        × IsClosed d (connected d context body (idle tables) before)
  unfolding connected start within
  connected-IsAtomic (err e) = (inl (e, refl, refl), inr refl)
  connected-IsAtomic (ok done) = elim (Bool-cases d.acquires) [
    | inr refused ↦ rw refused (inl (connection_failed, refl, refl), inr refl)
    | inl acquired ↦ elim (Bool-cases d.starts) [
      | inr refused ↦ rw (acquired, refused) (inl (connection_failed, refl, refl), inr refl)
      | inl started ↦
          let s : Session S = record { durable = tables; pending = some tables } in
          let (atomic, ended) = attempted-IsAtomic s refl (unfold seen in refl) in
          rw (acquired, started) (excepted-IsAtomic (attempted d context body s) atomic ended)
    ]
  ]

module _ {ℓ κ μ} {E : Type ℓ} {A : Type κ} {S : Type μ} where
  -- Whatever the driver's calls and the body do, a use of `owner_transaction` raises and leaves
  -- the tables as they were; or it returns the value of the body, run on those tables with the
  -- owner and the request as its settings, and leaves the body's tables; or the body returned,
  -- its commit raised though it took effect, the use raises, and the body's tables are there. It
  -- leaves no transaction open unless the rollback itself raises.
  pub owner_transaction-IsAtomic :
      (lib : Platform) (d : Driver) (owner : String) (request_id : Option String)
      (body : Context → S → Result E A × S) (tables : S)
      → IsAtomic d body
          (record { owner_user_id = owner; request_id = request_id })
          tables
          (owner_transaction lib d owner request_id body tables)
        × IsClosed d (owner_transaction lib d owner request_id body tables)
  unfolding owner_transaction
  owner_transaction-IsAtomic lib d owner request_id body tables =
      connected-IsAtomic d body _ tables (checked lib owner request_id)

abbrev pub HasActiveRow : String → List ProfileRow → Type 0
HasActiveRow owner rows = any (λ row. row.user_id == owner && row.active) rows ≡ true

-- Both conditions of the query with both of the policy.
seen_row :
    (owner canonical : String) (rows : List ProfileRow)
    → any
        (λ row.
          is_visible (record { owner_user_id = owner; request_id = none }) row
          && (row.user_id == canonical && row.active))
        rows
      ≡ true
    → (owner ≡ canonical) × HasActiveRow owner rows
unfolding is_visible
seen_row owner canonical [] h = cc
seen_row owner canonical (row ∷ rows) h =
    ground
      (arith, eq_iff row.user_id owner, eq_iff row.user_id canonical, seen_row owner canonical rows)

own_row :
    (owner : String) (rows : List ProfileRow)
    → HasActiveRow owner rows
    → any
        (λ row.
          is_visible (record { owner_user_id = owner; request_id = none }) row
          && (row.user_id == owner && row.active))
        rows
      ≡ true
unfolding is_visible
own_row owner [] h = h
own_row owner (row ∷ rows) h = ground (arith, own_row owner rows)

module _ (lib : Platform) where
  answer-canonical :
      (owner : String) (rows : List ProfileRow) (parsed : Option String)
      → lib.parse_uuid owner ≡ parsed
      → exists_row (record { owner_user_id = owner; request_id = none }) rows parsed ≡ ok true
      → (lib.parse_uuid owner ≡ some owner) × HasActiveRow owner rows
  unfolding exists_row
  answer-canonical owner rows none e h = cc
  answer-canonical owner rows (some canonical) e h =
      let (same, row) = seen_row owner canonical rows (ok-injective h) in
      (e ∙ ap some (sym same), row)

  of_atomic :
      (d : Driver) (owner : String) (rows : List ProfileRow)
      (outcome : Result (DatabaseError (Unit {0})) Bool × Session (List ProfileRow))
      → IsAtomic d
          (profile_exists lib owner)
          (record { owner_user_id = owner; request_id = none })
          rows
          outcome
      → outcome.0 ≡ ok true
      → (lib.parse_uuid owner ≡ some owner) × HasActiveRow owner rows
  unfolding profile_exists
  of_atomic d owner rows outcome (inl (e, failed, _)) h = absurd (err-ne-ok e true (sym failed ∙ h))
  of_atomic d owner rows outcome (inr (inl (a, returned, ran))) h =
      answer-canonical owner rows (lib.parse_uuid owner) refl
        (ap (λ q. q.0) ran ∙ ap ok (ok-injective (sym returned ∙ h)))
  of_atomic d owner rows outcome (inr (inr (e, a, failed, _, _, _))) h =
      absurd (err-ne-ok e true (sym failed ∙ h))

  pub active-canonical :
      (d : Driver) (rows : List ProfileRow) (owner : String)
      → owner_profile_is_active lib d rows owner ≡ ok true
      → (lib.parse_uuid owner ≡ some owner) × HasActiveRow owner rows
  unfolding owner_profile_is_active
  active-canonical d rows owner h =
      of_atomic d owner rows (owner_transaction lib d owner none (profile_exists lib owner) rows)
        (owner_transaction-IsAtomic lib d owner none (profile_exists lib owner) rows).0 h

  active_row :
      (d : Driver) (rows : List ProfileRow) (owner : String)
      → d.acquires && (d.starts && (d.sets_owner && d.commits)) ≡ true
      → lib.parse_uuid owner ≡ some owner
      → HasActiveRow owner rows
      → owner_profile_is_active lib d rows owner ≡ ok true
  unfolding owner_profile_is_active owner_transaction checked connected start within attempted sets
      seen after_body commit after_commit excepted profile_exists exists_row
  active_row d rows owner works canonical row = ground (arith, own_row owner rows row)

  -- If the driver's calls return, `owner_profile_is_active` answers True exactly if the text of
  -- the owner's UUID is in canonical form and an active row has it.
  pub owner_profile_is_active_iff :
      (d : Driver) (rows : List ProfileRow) (owner : String)
      → d.acquires && (d.starts && (d.sets_owner && d.commits)) ≡ true
      → (owner_profile_is_active lib d rows owner ≡ ok true)
        ↔ ((lib.parse_uuid owner ≡ some owner) × HasActiveRow owner rows)
  owner_profile_is_active_iff d rows owner works =
      (λ h. active-canonical d rows owner h, λ p. active_row d rows owner works p.0 p.1)
