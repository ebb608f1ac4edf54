-- ===== src/Api/Logging/Patterns.antt =====
-- The regular expressions of services/api/honor_api/logging.py, `SECRET_KEYS` and
-- `SECRET_VALUE_PATTERNS`, on the code points of a text. A pattern is the length of its match at the
-- head of a text, 0 where it does not match there; no pattern matches an empty text. The classes that
-- follow one another in a pattern have no character in common where the first is repeated, so the
-- longest match of each part is the match.
use honor.Common.{
  ℕ, zero, suc, ◌+◌, ◌-◌, Bool, not, ◌&&◌, ◌||◌, [], ◌∷◌, ◌++◌, leb, eqb, any, if◌then◌else◌,
}
use honor.Common.Text.{codes}
use honor.Common.Regex.{Text, fold, is_space, literal, any_case, exact, run, skip, search_in}

abbrev pub redacted_mark : Text
redacted_mark = codes "[REDACTED]"

-- The part of a text before its first newline, where `.*` ends.
unfoldable pub line : Text → Text
line [] = []
line (c ∷ cs) = let rest = line cs in if eqb c 10 then [] else c ∷ rest

-- `database.*url`
unfoldable pub database_url : Text → Bool
unfolding literal fold skip search_in line
database_url s =
    any_case (codes "database") s && search_in (any_case (codes "url")) (line (skip 8 s))

-- `SECRET_KEYS` at the head of a text.
unfoldable pub secret_word : Text → Bool
unfolding literal fold database_url
secret_word s =
    any (λ word. any_case (codes word) s)
      ("authorization" ∷ "cookie" ∷ "password" ∷ "secret" ∷ "apikey" ∷ "api_key" ∷ "api-key"
        ∷ "token" ∷ "jwt" ∷ "presigned" ∷ [])
    || database_url s

-- `SECRET_KEYS.search(key)`
unfoldable pub is_secret_key : Text → Bool
unfolding search_in secret_word
is_secret_key = search_in secret_word

-- A length, if a pattern's last part, repeated at least `least` times, is long enough.
abbrev pub at_least : ℕ → ℕ → ℕ → ℕ
at_least least before repeated = if leb least repeated then before + repeated else 0

-- `Bearer\s+[^\s]+`
unfoldable pub bearer_token : Text → ℕ
unfolding literal fold run is_space skip
bearer_token s =
    let spaces = run is_space (skip 6 s) in
    if any_case (codes "bearer") s && leb 1 spaces
    then at_least 1 (6 + spaces) (run (λ c. not (is_space c)) (skip (6 + spaces) s))
    else 0

-- `postgres(?:ql)?://[^\s]+`
unfoldable pub postgres_url : Text → ℕ
unfolding literal fold run is_space skip
postgres_url s =
    if any_case (codes "postgresql://") s
    then at_least 1 13 (run (λ c. not (is_space c)) (skip 13 s))
    else if any_case (codes "postgres://") s
    then at_least 1 11 (run (λ c. not (is_space c)) (skip 11 s))
    else 0

-- `[A-Za-z0-9_-]`
unfoldable pub is_key_character : ℕ → Bool
is_key_character c =
    (leb 65 c && leb c 90)
    || (leb 97 c && leb c 122)
    || (leb 48 c && leb c 57)
    || (eqb c 95 || eqb c 45)

-- `sk-[A-Za-z0-9_-]{16,}`
unfoldable pub sk_key : Text → ℕ
unfolding literal run skip is_key_character
sk_key s = if exact (codes "sk-") s then at_least 16 3 (run is_key_character (skip 3 s)) else 0

-- `[_-]?`
unfoldable pub separator : Text → ℕ
separator [] = 0
separator (c ∷ cs) = if eqb c 95 || eqb c 45 then 1 else 0

-- `(?:secret|access)[_-]?key[^\s,;]*`, after `before` characters.
unfoldable pub named_key : ℕ → Text → ℕ
unfolding literal fold run is_space skip separator
named_key before s =
    let rest = skip 6 s in
    let between = separator rest in
    let ends = skip (3 + between) rest in
    if (any_case (codes "secret") s || any_case (codes "access") s)
      && any_case (codes "key") (skip between rest)
    then before + 9 + between + run (λ c. not (is_space c || (eqb c 44 || eqb c 59))) ends
    else 0

-- `(?:aws|r2)[_-]?(?:secret|access)[_-]?key[^\s,;]*`
unfoldable pub cloud_key : Text → ℕ
unfolding literal fold skip separator named_key
cloud_key s =
    let after_aws = separator (skip 3 s) in
    let after_r2 = separator (skip 2 s) in
    if any_case (codes "aws") s
    then named_key (3 + after_aws) (skip (3 + after_aws) s)
    else if any_case (codes "r2") s
    then named_key (2 + after_r2) (skip (2 + after_r2) s)
    else 0

-- `pattern.sub("[REDACTED]", s)`, with `left` characters of a match still to be passed over.
unfoldable pub substitute : (Text → ℕ) → ℕ → Text → Text
substitute pattern left [] = []
substitute pattern (suc left) (c ∷ cs) = substitute pattern left cs
substitute pattern zero (c ∷ cs) =
    let matched = pattern (c ∷ cs) in
    let rest = substitute pattern (matched - 1) cs in
    if eqb matched 0 then c ∷ rest else redacted_mark ++ rest

-- The loop over `SECRET_VALUE_PATTERNS`.
unfoldable pub redact_text : Text → Text
unfolding substitute bearer_token postgres_url sk_key cloud_key
redact_text s =
    substitute cloud_key 0
      (substitute sk_key 0 (substitute postgres_url 0 (substitute bearer_token 0 s)))
