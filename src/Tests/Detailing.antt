-- ===== src/Tests/Detailing.antt =====
-- What is stored of an exception's text, at concrete texts.
use honor.Common.{◌≡◌, ◌≤◌, refl, false}
use Prim.Native.String.{count}
use honor.Common.Text.{codes}
use honor.Worker.Details.Words.{has_url}
use honor.Worker.Details.Urls.{redact_detail-HidesUrls}
use honor.Common.Regex.{fold, is_space, literal, run, skip}
use honor.Api.Logging.Patterns.{postgres_url}
use honor.Worker.Details.{
  cut, word_length, is_secret_character, named_secret, signed_rest, signed_url, substitute,
  named_mark, redact_detail,
}

-- Each of the three substitutions.
detail_redacted :
    redact_detail "Token=abc, postgres://u:p@h/d or https://r2/x?sig=1 end"
    ≡ "Token=[REDACTED], [DATABASE_URL_REDACTED] or [SIGNED_URL_REDACTED] end"
unfolding redact_detail cut word_length is_secret_character named_secret signed_rest signed_url
    substitute named_mark postgres_url fold is_space literal run skip
detail_redacted = refl

-- A key without `=`, at the end of another word.
word_redacted : redact_detail "monkeys, password" ≡ "monkey=[REDACTED], password"
unfolding redact_detail cut word_length is_secret_character named_secret signed_rest signed_url
    substitute named_mark postgres_url fold is_space literal run skip
word_redacted = refl

redact_detail-HidesUrls_example :
    (count (redact_detail "could not reach POSTGRES://u:p@h/d") ≤ 500)
    × (has_url (codes (redact_detail "could not reach POSTGRES://u:p@h/d")) ≡ false)
redact_detail-HidesUrls_example = redact_detail-HidesUrls "could not reach POSTGRES://u:p@h/d"
