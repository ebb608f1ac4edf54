-- ===== src/Api/Idempotency/Replay.antt =====
-- What a second call with an idempotency key gives.
use honor.Common.{
  ℕ, String, ◌≡◌, ◌≢◌, ◌⊎◌, refl, ap, ◌∙◌, subst, Bool, true, false, not, [], ◌∷◌, Option, none,
  some, any, ok, err, >>=-eq-ok, ok-injective, raise_if, ◌==◌, eq_iff, eq_refl, arith,
}
use honor.Common.Table.{insert}
use honor.Common.Platform.{Platform}
use honor.Api.Json.{Fields}
use honor.Api.Idempotency.{
  IdempotencyRow, Table, key_reused, Call, select, owner_of, find, is_storable, new_row, is_reused,
  recorded, record_response,
}

-- After an insertion that nothing hides, the row is found.
select-insert :
    (row : IdempotencyRow) (owner key : String) (rows : Table)
    → select owner key rows ≡ none
    → row.owner_user_id ≡ owner
    → row.idempotency_key ≡ key
    → select owner key (insert row rows) ≡ some row
unfolding select insert
select-insert row owner key [] absent same_owner same_key =
    rw (same_owner, same_key, eq_refl owner, eq_refl key) refl
select-insert row owner key (r ∷ rows) absent same_owner same_key =
    ground (arith, select-insert row owner key rows)

-- The same request: its owner, key, method, path and hash.
pub record SameRequest (c d : Call) : Type 0 where
  pub same_owner : d.owner_user_id ≡ c.owner_user_id
  pub same_key : d.key ≡ c.key
  pub same_method : d.method ≡ c.method
  pub same_path : d.path ≡ c.path
  pub same_hash : d.request_sha256 ≡ c.request_sha256

raise_if-false : (b : Bool) → raise_if b key_reused ≡ ok tt → b ≡ false
raise_if-false true h = cc
raise_if-false false h = refl

own_row : (c : Call) (owner : String) → is_reused c (new_row c owner) ≡ false
unfolding is_reused new_row
own_row c owner = rw (eq_refl c.request_sha256, eq_refl c.method, eq_refl c.path) refl

reused-same :
    (c d : Call) (row : IdempotencyRow) → SameRequest c d → is_reused d row ≡ is_reused c row
unfolding is_reused
reused-same c d row s = rw (s.same_hash, s.same_method, s.same_path) refl

-- Another request under the key: its method, path or hash is another.
abbrev pub OtherRequest : Call → Call → Type 0
OtherRequest c d =
    (d.method ≢ c.method) ⊎ ((d.path ≢ c.path) ⊎ (d.request_sha256 ≢ c.request_sha256))

reused-other :
    (c d : Call) (row : IdempotencyRow)
    → is_reused c row ≡ false
    → OtherRequest c d
    → is_reused d row ≡ true
unfolding is_reused
reused-other c d row own o = ground (
  arith,
  eq_iff row.request_sha256 c.request_sha256,
  eq_iff row.http_method c.method,
  eq_iff row.path c.path,
  eq_iff row.request_sha256 d.request_sha256,
  eq_iff row.http_method d.method,
  eq_iff row.path d.path,
)

module _ (encodes : Fields → ℕ → Bool) where
  -- What a call that returned leaves: its row, found under its key and not of another request.
  recorded-found :
      (c : Call) (owner : String) (rows rows' : Table) (found : Option IdempotencyRow)
      (row : IdempotencyRow)
      → select owner c.key rows ≡ found
      → recorded encodes c owner rows found ≡ ok (row, rows')
      → (select owner c.key rows' ≡ some row) × (is_reused c row ≡ false)
  unfolding recorded
  recorded-found c owner rows rows' (some existing) row e h =
      let (_, passed, h') = >>=-eq-ok (raise_if (is_reused c existing) key_reused) _ h in
      let same_row : existing ≡ row = ap (λ q. q.0) (ok-injective h') in
      let same_rows : rows ≡ rows' = ap (λ q. q.1) (ok-injective h') in
      (
        subst (λ (t : Table). select owner c.key t ≡ some row) same_rows (e ∙ ap some same_row),
        subst (λ r. is_reused c r ≡ false) same_row (raise_if-false (is_reused c existing) passed),
      )
  recorded-found c owner rows rows' none row e h =
      let (_, _, h1) = >>=-eq-ok (raise_if (not (encodes c.response_body c.ttl_seconds)) _) _ h in
      let (_, _, h2) = >>=-eq-ok (raise_if (not (is_storable c)) _) _ h1 in
      let (_, _, h3) = >>=-eq-ok (raise_if (any (λ row. row.id == c.id) rows) _) _ h2 in
      let same_row : new_row c owner ≡ row = ap (λ q. q.0) (ok-injective h3) in
      let same_rows : insert (new_row c owner) rows ≡ rows' = ap (λ q. q.1) (ok-injective h3) in
      (
        subst (λ (t : Table). select owner c.key t ≡ some row) same_rows
            (select-insert (new_row c owner) owner c.key rows e (unfold new_row in refl)
                (unfold new_row in refl)
              ∙ ap some same_row),
        subst (λ r. is_reused c r ≡ false) same_row (own_row c owner),
      )

  module _ (lib : Platform) where
    record_response-found :
        (c : Call) (rows rows' : Table) (row : IdempotencyRow)
        → record_response encodes lib c rows ≡ ok (row, rows')
        → (owner : String) × (owner_of lib c.owner_user_id ≡ ok owner)
          × (select owner c.key rows' ≡ some row)
          × (is_reused c row ≡ false)
    unfolding record_response
    record_response-found c rows rows' row h =
        let (owner, parsed, h') = >>=-eq-ok (owner_of lib c.owner_user_id) _ h in
        let (found, own) = recorded-found c owner rows rows' _ row refl h' in
        (owner, parsed, found, own)

    -- After a call of `record` that returned, a call for the same request (owner, key, method,
    -- path and hash), with any response, id and time, returns the row that was recorded and
    -- changes nothing.
    pub record_again :
        (c d : Call) (rows rows' : Table) (row : IdempotencyRow)
        → record_response encodes lib c rows ≡ ok (row, rows')
        → SameRequest c d
        → record_response encodes lib d rows' ≡ ok (row, rows')
    unfolding record_response recorded
    record_again c d rows rows' row h s =
        let (owner, parsed, found, own) = record_response-found c rows rows' row h in
        rw (s.same_owner, s.same_key, parsed, found, reused-same c d row s, own) refl

    -- After a call of `record` that returned, a call with its owner and key but another method,
    -- path or hash raises IDEMPOTENCY_KEY_REUSED.
    pub record_reused :
        (c d : Call) (rows rows' : Table) (row : IdempotencyRow)
        → record_response encodes lib c rows ≡ ok (row, rows')
        → d.owner_user_id ≡ c.owner_user_id
        → d.key ≡ c.key
        → OtherRequest c d
        → record_response encodes lib d rows' ≡ err key_reused
    unfolding record_response recorded
    record_reused c d rows rows' row h same_owner same_key o =
        let (owner, parsed, found, own) = record_response-found c rows rows' row h in
        rw (same_owner, same_key, parsed, found, reused-other c d row own o) refl

    -- After a call of `record` that returned, `find` gives the returned row.
    pub find-record_response :
        (c : Call) (rows rows' : Table) (row : IdempotencyRow)
        → record_response encodes lib c rows ≡ ok (row, rows')
        → find lib c.owner_user_id c.key rows' ≡ ok (some row)
    unfolding find
    find-record_response c rows rows' row h =
        let (owner, parsed, found, own) = record_response-found c rows rows' row h in
        rw (parsed, found) refl
