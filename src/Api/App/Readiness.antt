-- ===== src/Api/App/Readiness.antt =====
-- When the API says that it is ready, and to whom.
use honor.Common.{
  String, ◌≡◌, refl, subst, Bool, true, false, ◌&&◌, List, some, Result, ok, err, >>=-eq-ok, arith,
}
use honor.Common.Platform.{Platform}
use honor.Api.Json.{Fields}
use honor.Api.Auth.{bearer, Verification, claims, active, require_owner}
use honor.Api.Auth.Owner.{require_owner_iff}
use honor.Api.Database.{DatabaseError, Driver, ProfileRow, owner_profile_is_active}
use honor.Api.Database.Transaction.{HasActiveRow, active-canonical}
use honor.Api.App.{checks, has_error, unavailable, ready, readyz, profile_of, get_readyz}

profile_of-active :
    (o : Result (DatabaseError (Unit {0})) Bool) → profile_of o ≡ active true → o ≡ ok true
unfolding profile_of
profile_of-active (ok true) h = refl
profile_of-active (ok false) h = cc
profile_of-active (err e) h = cc

ready-all :
    (time : String) (database redis bucket : Bool) {body : Fields}
    → ready time (checks database redis bucket) ≡ ok body
    → database && (redis && bucket) ≡ true
unfolding ready checks has_error
ready-all time true true true h = refl
ready-all time true true false h = cc
ready-all time true false bucket h = ground arith
ready-all time false redis bucket h = ground arith

module _ (lib : Platform) (configured : String) (verify : String → Verification) (d : Driver)
    (rows : List ProfileRow) (time : String) where
  -- If a request for /readyz with an `Authorization` header gets the ready answer, then the three
  -- probes succeeded, the header is "Bearer " and a token that is verified to be the configured
  -- owner's, and that owner, a UUID in canonical form, has an active row.
  pub get_readyz-ready :
      (header : String) (database redis bucket : Bool) {body : Fields}
      → get_readyz lib configured verify d rows time (some header) database redis bucket ≡ ok body
      → (database && (redis && bucket) ≡ true)
        × ((token : String) × (bearer header ≡ some token) × (verify token ≡ claims configured))
        × (lib.parse_uuid configured ≡ some configured)
        × HasActiveRow configured rows
  unfolding get_readyz readyz
  get_readyz-ready header database redis bucket {body = body} h =
      let profile = λ (o : String). profile_of (owner_profile_is_active lib d rows o) in
      let (owner, passed, h') =
        >>=-eq-ok (require_owner lib configured verify profile (some header)) _ h in
      let (token, is_bearer, (verified, same, uuid), now) =
        (require_owner_iff lib configured verify profile header owner).0 passed in
      let (canonical, row) = active-canonical lib d rows owner (profile_of-active _ now) in
      (
        ready-all time database redis bucket {body = body} h',
        (token, is_bearer, subst (λ o. verify token ≡ claims o) same verified),
        subst (λ o. lib.parse_uuid o ≡ some o) same canonical,
        subst (λ o. HasActiveRow o rows) same row,
      )

  -- If one of the three probes fails, `readyz` raises PROVIDER_UNAVAILABLE with what each of them
  -- gave.
  pub readyz-unavailable :
      (owner : String) (database redis bucket : Bool)
      → database && (redis && bucket) ≡ false
      → readyz time (ok owner) database redis bucket
        ≡ err (unavailable (checks database redis bucket))
  unfolding readyz ready checks has_error
  readyz-unavailable owner false redis bucket h = refl
  readyz-unavailable owner true false bucket h = refl
  readyz-unavailable owner true true false h = refl
  readyz-unavailable owner true true true h = cc
