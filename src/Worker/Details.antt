-- ===== src/Worker/Details.antt =====
-- `_redact_detail` of services/worker/honor_worker/durable_jobs.py: what is stored of an exception's
-- text. A pattern is the length of its match at the head of a text, 0 where it does not match there; no
-- pattern matches an empty text.
pub mod Words
pub mod Urls
use honor.Common.{
  ℕ, zero, suc, ◌+◌, ◌-◌, String, Bool, not, ◌&&◌, ◌||◌, List, [], ◌∷◌, length, leb, eqb,
  if◌then◌else◌,
}
use Prim.Native.String
use honor.Common.Text.{codes}
use honor.Common.Regex.{Text, fold, is_space, literal, any_case, exact, run, skip}
use honor.Api.Logging.Patterns.{at_least, postgres_url}

-- `s[:n]`
unfoldable pub cut : ℕ → String → String
cut n String.[] = ""
cut zero (String.◌∷◌ c rest) = ""
cut (suc n) (String.◌∷◌ c rest) = String.◌∷◌ c (cut n rest)

-- The length of the first of the words that a text begins with.
unfoldable pub word_length : List String → Text → ℕ
unfolding literal fold
word_length [] s = 0
word_length (w ∷ ws) s =
    let rest = word_length ws s in if any_case (codes w) s then length (codes w) else rest

abbrev pub secret_words : List String
secret_words = "authorization" ∷ "cookie" ∷ "token" ∷ "key" ∷ "password" ∷ []

-- `[^\s,;]`
unfoldable pub is_secret_character : ℕ → Bool
unfolding is_space
is_secret_character c = not (is_space c || (eqb c 44 || eqb c 59))

-- `(authorization|cookie|token|key|password)=?[^\s,;]+`; the class has `=` in it.
unfoldable pub named_secret : Text → ℕ
unfolding word_length run skip is_secret_character
named_secret s =
    let n = word_length secret_words s in
    if leb 1 n then at_least 1 n (run is_secret_character (skip n s)) else 0

-- `://[^\s?]+\?[^\s]+`, after `before` characters.
unfoldable pub signed_rest : ℕ → Text → ℕ
unfolding literal run skip is_space
signed_rest before s =
    let path = run (λ c. not (is_space c || eqb c 63)) (skip 3 s) in
    let query = skip (3 + path) s in
    if exact (codes "://") s && (leb 1 path && exact (codes "?") query)
    then at_least 1 (before + 4 + path) (run (λ c. not (is_space c)) (skip 1 query))
    else 0

-- `https?://[^\s?]+\?[^\s]+`
unfoldable pub signed_url : Text → ℕ
unfolding literal skip signed_rest
signed_url s =
    if exact (codes "https") s
    then signed_rest 5 (skip 5 s)
    else if exact (codes "http") s
    then signed_rest 4 (skip 4 s)
    else 0

-- `re.sub`, where `mark` gives the replacement from the text that begins with the match, and `left`
-- characters of a match are still to be passed over.
unfoldable pub substitute : (Text → ℕ) → (String → String) → ℕ → String → String
substitute pattern mark left String.[] = ""
substitute pattern mark (suc left) (String.◌∷◌ c rest) = substitute pattern mark left rest
substitute pattern mark zero (String.◌∷◌ c rest) =
    let matched = pattern (codes (String.◌∷◌ c rest)) in
    let more = substitute pattern mark (matched - 1) rest in
    if eqb matched 0 then String.◌∷◌ c more else String.◌++◌ (mark (String.◌∷◌ c rest)) more

-- `\1=[REDACTED]`
unfoldable pub named_mark : String → String
unfolding cut word_length
named_mark s = String.◌++◌ (cut (word_length secret_words (codes s)) s) "=[REDACTED]"

-- `_redact_detail`, on `str(value)`.
unfoldable pub redact_detail : String → String
unfolding substitute named_secret named_mark postgres_url signed_url cut
redact_detail text = cut 500 (
    substitute signed_url (λ s. "[SIGNED_URL_REDACTED]") 0
      (substitute postgres_url (λ s. "[DATABASE_URL_REDACTED]") 0
        (substitute named_secret named_mark 0 text)))
