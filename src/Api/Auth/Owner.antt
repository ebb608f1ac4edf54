-- ===== src/Api/Auth/Owner.antt =====
-- Who passes `require_owner`, and with which errors the others are refused.
use honor.Common.{
  String, ◌≡◌, ◌↔◌, refl, subst, true, false, Option, none, some, is_some, ok, >>=-eq-ok,
  ok-injective, eq_iff, arith,
}
use honor.Common.Platform.{Platform}
use honor.Api.Auth.{
  bearer, Verification, claims, Profile, active, refuses, fails, verified_sub, validate_owner_token,
  authorized, with_token, require_owner,
}

module _ (lib : Platform) (configured : String) where
  -- The configured owner with a verified token.
  abbrev pub IsOwnerToken : Verification → String → Type 0
  IsOwnerToken v owner =
      (v ≡ claims owner) × (owner ≡ configured) × (is_some (lib.parse_uuid owner) ≡ true)

  validate-IsOwnerToken :
      (v : Verification) (owner : String)
      → validate_owner_token lib configured v ≡ ok owner
      → IsOwnerToken v owner
  unfolding validate_owner_token verified_sub
  validate-IsOwnerToken v owner h = ground (arith, eq_iff owner configured)

  IsOwnerToken-validate :
      (v : Verification) (owner : String)
      → IsOwnerToken v owner
      → validate_owner_token lib configured v ≡ ok owner
  unfolding validate_owner_token verified_sub
  IsOwnerToken-validate v owner (e, same, uuid) =
      rw (e, uuid, (eq_iff owner configured).1 same) refl

  authorized-active :
      (owner result : String) (p : Profile)
      → authorized owner p ≡ ok result
      → (owner ≡ result) × (p ≡ active true)
  unfolding authorized
  authorized-active owner result (refuses e) h = cc
  authorized-active owner result fails h = cc
  authorized-active owner result (active true) h = (ok-injective h, refl)
  authorized-active owner result (active false) h = cc

  passes :
      (verify : String → Verification) (profile : String → Profile) (o : Option String)
      (owner : String)
      → with_token lib configured verify profile o ≡ ok owner
      → (token : String) × (o ≡ some token)
        × IsOwnerToken (verify token) owner
        × (profile owner ≡ active true)
  unfolding with_token
  passes verify profile none owner h = cc
  passes verify profile (some token) owner h =
      let (sub, e, h') = >>=-eq-ok (validate_owner_token lib configured (verify token)) _ h in
      let (same, now) = authorized-active sub owner (profile sub) h' in
      (
        token,
        refl,
        validate-IsOwnerToken (verify token) owner
            (subst (λ s. validate_owner_token lib configured (verify token) ≡ ok s) same e),
        subst (λ s. profile s ≡ active true) same now,
      )

  admits :
      (verify : String → Verification) (profile : String → Profile) (token owner : String)
      → IsOwnerToken (verify token) owner
      → profile owner ≡ active true
      → with_token lib configured verify profile (some token) ≡ ok owner
  unfolding with_token authorized
  admits verify profile token owner valid now =
      rw (IsOwnerToken-validate (verify token) owner valid, now) refl

  -- With a header, `require_owner` returns an owner exactly if the header is "Bearer " and a
  -- token whose verified subject is this owner, who is the configured one, has a UUID and has an
  -- active profile.
  pub require_owner_iff :
      (verify : String → Verification) (profile : String → Profile) (header owner : String)
      → (require_owner lib configured verify profile (some header) ≡ ok owner) ↔ (
          (token : String) × (bearer header ≡ some token)
          × IsOwnerToken (verify token) owner
          × (profile owner ≡ active true))
  unfolding require_owner
  require_owner_iff verify profile header owner = (
    passes verify profile (bearer header) owner,
    λ (token, e, valid, now). rw e (admits verify profile token owner valid now),
  )
