-- ===== src/Api/Outbound.antt =====
-- `validate_https_target` of services/api/honor_api/outbound.py. The parts of the URL are those that
-- `urlparse` finds, and `ipaddress` says whether a host is an address and whether it is refused. Texts
-- are lists of ASCII code points.
pub mod Target
use honor.Common.{
  ℕ, ◌+◌, Bool, true, false, not, ◌&&◌, ◌||◌, List, [], ◌∷◌, map, any, Option, none, some, eqb, leb,
  Result, ok, err, ◌>>=◌, raise_if, if◌then◌else◌,
}
use honor.Common.Text.{codes}
use honor.Api.Storage.{Text, same}

pub record ParsedUrl : Type 0 where
  pub scheme : Text
  pub hostname : Option Text
  pub username : Option Text
  pub password : Option Text

pub data OutboundError : Type 0 where
  not_credential_free_https : OutboundError
  private_or_reserved : OutboundError
  not_allowlisted : OutboundError

-- `text.rstrip(".")`
unfoldable pub strip_dots : Text → Text
strip_dots [] = []
strip_dots (c ∷ cs) = stripped c (strip_dots cs)
  where
    stripped : ℕ → Text → Text
    stripped c [] = if eqb c 46 then [] else c ∷ []
    stripped c (d ∷ ds) = c ∷ d ∷ ds

unfoldable pub lower : Text → Text
lower [] = []
lower (c ∷ cs) = (if leb 65 c && leb c 90 then c + 32 else c) ∷ lower cs

unfoldable pub host_name : Text → Text
unfolding strip_dots lower
host_name text = lower (strip_dots text)

-- `part` as a condition, for a part of type `str | None`.
unfoldable pub is_given : Option Text → Bool
is_given none = false
is_given (some []) = false
is_given (some (c ∷ cs)) = true

-- `ip is not None and (ip.is_private or …)`, by whether the host is an address and refused.
abbrev pub Addresses : Type 0
Addresses = Text → Option Bool

unfoldable pub is_refused : Option Bool → Bool
is_refused none = false
is_refused (some refused) = refused

unfoldable pub check_host : Addresses → List Text → Text → Text → Result OutboundError Text
unfolding host_name is_refused
check_host addresses allowed_hosts url host =
    raise_if (is_refused (addresses host)) private_or_reserved >>= λ _.
    raise_if (not (any (λ item. same (host_name item) host) allowed_hosts)) not_allowlisted >>= λ _.
    ok url

unfoldable pub check_hostname :
    Addresses → List Text → Text → ParsedUrl → Option Text → Result OutboundError Text
unfolding check_host is_given
check_hostname addresses allowed_hosts url parsed none = err not_credential_free_https
check_hostname addresses allowed_hosts url parsed (some name) =
    raise_if
      (not (same parsed.scheme (codes "https"))
        || (not (is_given (some name)) || (is_given parsed.username || is_given parsed.password)))
      not_credential_free_https
    >>= λ _. check_host addresses allowed_hosts url (host_name name)

unfoldable pub validate_https_target :
    (Text → ParsedUrl) → Addresses → List Text → Text → Result OutboundError Text
unfolding check_hostname
validate_https_target urlparse addresses allowed_hosts url =
    check_hostname addresses allowed_hosts url (urlparse url) (urlparse url).hostname
