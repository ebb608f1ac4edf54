-- ===== src/Api/Outbound/Target.antt =====
-- Which targets pass.
use honor.Common.{
  ◌≡◌, ◌↔◌, refl, Bool, true, false, not, ◌||◌, List, any, Option, none, some, ok, >>=-eq-ok,
  raise_if, arith,
}
use honor.Common.Text.{codes}
use honor.Api.Storage.{Text, same}
use honor.Api.Outbound.{
  ParsedUrl, OutboundError, not_credential_free_https, private_or_reserved, not_allowlisted,
  host_name, is_given, Addresses, is_refused, check_host, check_hostname, validate_https_target,
}

-- An HTTPS URL without credentials, whose host is allowlisted and no private or reserved address.
pub record IsSafe (addresses : Addresses) (allowed_hosts : List Text) (parsed : ParsedUrl)
    (name : Text) : Type 0 where
  pub https : same parsed.scheme (codes "https") ≡ true
  pub named : is_given (some name) ≡ true
  pub no_user : is_given parsed.username ≡ false
  pub no_password : is_given parsed.password ≡ false
  pub public : is_refused (addresses (host_name name)) ≡ false
  pub allowlisted : any (λ item. same (host_name item) (host_name name)) allowed_hosts ≡ true

passed : (b : Bool) (e : OutboundError) → raise_if b e ≡ ok tt → b ≡ false
passed true e h = cc
passed false e h = refl

of_negated : (b : Bool) → not b ≡ false → b ≡ true
of_negated true h = refl
of_negated false h = cc

all_given :
    (a b c d : Bool)
    → (not a || (not b || (c || d))) ≡ false
    → (a ≡ true) × (b ≡ true) × (c ≡ false) × (d ≡ false)
all_given a b c d h = ground arith

module _ (addresses : Addresses) (allowed_hosts : List Text) (url : Text) where
  check_hostname-IsSafe :
      (parsed : ParsedUrl) (o : Option Text)
      → check_hostname addresses allowed_hosts url parsed o ≡ ok url
      → (name : Text) × (o ≡ some name) × IsSafe addresses allowed_hosts parsed name
  unfolding check_hostname check_host
  check_hostname-IsSafe parsed none h = cc
  check_hostname-IsSafe parsed (some name) h =
      let (_, first, h₁) = >>=-eq-ok (raise_if _ not_credential_free_https) _ h in
      let (_, second, h₂) = >>=-eq-ok (raise_if _ private_or_reserved) _ h₁ in
      let (_, third, _) = >>=-eq-ok (raise_if _ not_allowlisted) _ h₂ in
      let (https, named, no_user, no_password) = all_given _ _ _ _ (passed _ _ first) in
      (
        name,
        refl,
        record {
          https = https;
          named = named;
          no_user = no_user;
          no_password = no_password;
          public = passed _ _ second;
          allowlisted = of_negated _ (passed _ _ third);
        },
      )

  IsSafe-check_hostname :
      (parsed : ParsedUrl) (name : Text)
      → IsSafe addresses allowed_hosts parsed name
      → check_hostname addresses allowed_hosts url parsed (some name) ≡ ok url
  unfolding check_hostname check_host
  IsSafe-check_hostname parsed name s =
      rw (s.https, s.named, s.no_user, s.no_password, s.public, s.allowlisted) refl

  -- `validate_https_target` returns a URL exactly if its scheme is https, it has a host and no
  -- credentials, and the host, without dots at its end and in lower case, is no private or
  -- reserved address and is in the allowlist normalized in the same way.
  pub validate_https_target_iff :
      (urlparse : Text → ParsedUrl)
      → (validate_https_target urlparse addresses allowed_hosts url ≡ ok url) ↔ (
          (name : Text) × ((urlparse url).hostname ≡ some name)
          × IsSafe addresses allowed_hosts (urlparse url) name)
  unfolding validate_https_target
  validate_https_target_iff urlparse = (
    check_hostname-IsSafe (urlparse url) (urlparse url).hostname,
    λ (name, e, safe). rw e (IsSafe-check_hostname (urlparse url) name safe),
  )
