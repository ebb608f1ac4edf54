-- ===== src/Worker/Details/Urls.antt =====
-- That what is stored of an exception's text is short and has no URL of a database in it.
use honor.Common.{
  ℕ, zero, suc, ◌-◌, ◌≤◌, String, ◌≡◌, ◌⊎◌, inl, inr, refl, sym, ap, ◌∙◌, true, false, ◌||◌, [],
  ◌∷◌, ◌++◌, leb, eqb, All, Bool-cases, arith,
}
use Prim.Native.String.{count}
use Prim.Native.Char
use honor.Common.Text.{codes}
use honor.Common.Regex.{Text, fold, is_space, literal}
use honor.Api.Logging.Patterns.{postgres_url}
use honor.Worker.Details.{cut, substitute, named_secret, named_mark, signed_url, redact_detail}
use honor.Worker.Details.Words.{
  has_url, begins, found, long_scheme, short_scheme, no_p, ℕ-cases, codes-append, cut-found,
  count-cut, weaker, found_cons, no_bracket, not_covered, NoBracket, all-All, p_is_no_space,
  h_is_no_space, false_ne_positive, zero_ne_suc, or_false_left, or_false_right, both_false,
  matched_or_free,
}

-- A match begins with no white space.
abbrev Starts : (Text → ℕ) → Type 0
Starts p = (c : ℕ) (cs : Text) (k : ℕ) → p (c ∷ cs) ≡ suc k → is_space c ≡ false

-- At each place the pattern matches, or there is no URL.
abbrev IsCoveredBy : (Text → ℕ) → String → Type 0
IsCoveredBy p String.[] = Unit
IsCoveredBy p (String.◌∷◌ c s) =
    (((k : ℕ) × (p (codes (String.◌∷◌ c s)) ≡ suc k))
      ⊎ (leb 1 (postgres_url (codes (String.◌∷◌ c s))) ≡ false))
    × IsCoveredBy p s

-- A substitution of one replacement, that begins with a bracket and has no letter p.
module _ (p : Text → ℕ) (m : String) (starts : Starts p) (m_rest : Text)
    (bracket : codes m ≡ 91 ∷ m_rest)
    (no_letter_p : All (λ c. eqb 112 (fold c) ≡ false) (codes m)) where
  abbrev replaced : ℕ → String → String
  replaced left s = substitute p (λ matched. m) left s

  passed :
      (c : Prim.Native.Char.Char) (s : String)
      → p (codes (String.◌∷◌ c s)) ≡ 0
      → replaced 0 (String.◌∷◌ c s) ≡ String.◌∷◌ c (replaced 0 s)
  unfolding substitute
  passed c s h = rw h refl

  masked :
      (c : Prim.Native.Char.Char) (s : String) (k : ℕ)
      → p (codes (String.◌∷◌ c s)) ≡ suc k
      → codes (replaced 0 (String.◌∷◌ c s)) ≡ codes m ++ codes (replaced k s)
  unfolding substitute
  masked c s k h =
      let one : suc k - 1 ≡ k = omega arith in
      let more : eqb (suc k) 0 ≡ false = ground arith in
      rw (h, one, more) (codes-append m (substitute p (λ matched. m) k s))

  skipped :
      (left : ℕ) (c : Prim.Native.Char.Char) (s : String)
      → replaced (suc left) (String.◌∷◌ c s) ≡ replaced left s
  unfolding substitute
  skipped left c s = refl

  replaced-found :
      (w : Text) (s : String)
      → NoBracket w
      → found w (codes (replaced 0 s)) ≡ true
      → found w (codes s) ≡ true
  replaced-found w String.[] n h = unfold substitute in h
  replaced-found [] (String.◌∷◌ c s) n h = elim (ℕ-cases (p (codes (String.◌∷◌ c s)))) [
    | inl none ↦ ap (λ t. begins (codes t)) (sym (passed c s none)) ∙ h
    | inr (k, e) ↦ rw (starts _ _ k e) refl
  ]
  replaced-found (x ∷ w) (String.◌∷◌ c s) n h = elim (ℕ-cases (p (codes (String.◌∷◌ c s)))) [
    | inl none ↦
        let h' = ap (λ t. found (x ∷ w) (codes t)) (sym (passed c s none)) ∙ h in
        found_cons x (fold (Prim.Native.Char.code c)) _ _ (replaced-found w s n.1) h'
    | inr (k, e) ↦
        let h' =
          ap (found (x ∷ w)) (sym (masked c s k e ∙ ap (λ t. t ++ codes (replaced k s)) bracket))
          ∙ h in
        absurd (no_bracket x _ n.0 h')
  ]

  replaced-url :
      (s : String)
      → leb 1 (postgres_url (codes s)) ≡ false
      → leb 1 (postgres_url (codes (replaced 0 s))) ≡ false
  replaced-url s h =
      weaker (codes (replaced 0 s)) (codes s)
        (replaced-found long_scheme s (all-All (λ x. eqb x 91) long_scheme refl))
        (replaced-found short_scheme s (all-All (λ x. eqb x 91) short_scheme refl)) h

  has_url-append :
      (t u : Text) → All (λ c. eqb 112 (fold c) ≡ false) t → has_url (t ++ u) ≡ has_url u
  has_url-append [] u a = refl
  has_url-append (c ∷ t) u a = rw (no_p c (t ++ u) a.0) (has_url-append t u a.1)

  replaced-has_url :
      (left : ℕ) (s : String) → IsCoveredBy p s → has_url (codes (replaced left s)) ≡ false
  replaced-has_url left String.[] a = unfold substitute in refl
  replaced-has_url (suc left) (String.◌∷◌ c s) a =
      ap (λ t. has_url (codes t)) (skipped left c s) ∙ replaced-has_url left s a.1
  replaced-has_url zero (String.◌∷◌ c s) a = elim (ℕ-cases (p (codes (String.◌∷◌ c s)))) [
    | inl none ↦
        let free = not_covered none a.0 in
        ap (λ t. has_url (codes t)) (passed c s none)
        ∙ ap (λ b. b || has_url (codes (replaced 0 s)))
            (ap (λ t. leb 1 (postgres_url (codes t))) (sym (passed c s none))
              ∙ replaced-url (String.◌∷◌ c s) free)
        ∙ replaced-has_url 0 s a.1
    | inr (k, e) ↦
        ap has_url (masked c s k e)
        ∙ has_url-append (codes m) (codes (replaced k s)) no_letter_p
        ∙ replaced-has_url k s a.1
  ]

postgres_url-Starts : Starts postgres_url
postgres_url-Starts c cs k h = elim (Bool-cases (eqb 112 (fold c))) [
  | inl letter ↦ p_is_no_space c letter
  | inr other ↦ absurd (false_ne_positive k (sym (no_p c cs other) ∙ ap (leb 1) h))
]

no_h : (c : ℕ) (cs : Text) → eqb 104 c ≡ false → signed_url (c ∷ cs) ≡ 0
unfolding signed_url literal
no_h c cs h = rw h refl

signed_url-Starts : Starts signed_url
signed_url-Starts c cs k h = elim (Bool-cases (eqb 104 c)) [
  | inl letter ↦ h_is_no_space c letter
  | inr other ↦ absurd (zero_ne_suc k (sym (no_h c cs other) ∙ h))
]

covered_self : (s : String) → IsCoveredBy postgres_url s
covered_self String.[] = tt
covered_self (String.◌∷◌ c s) = (matched_or_free _, covered_self s)

covered_free : (s : String) → has_url (codes s) ≡ false → IsCoveredBy signed_url s
covered_free String.[] h = tt
covered_free (String.◌∷◌ c s) h = (inr (or_false_left _ _ h), covered_free s (or_false_right _ _ h))

has_url-cut : (n : ℕ) (s : String) → has_url (codes s) ≡ false → has_url (codes (cut n s)) ≡ false
unfolding cut
has_url-cut n String.[] h = refl
has_url-cut zero (String.◌∷◌ c s) h = refl
has_url-cut (suc n) (String.◌∷◌ c s) h =
    let here =
      weaker (codes (cut (suc n) (String.◌∷◌ c s))) (codes (String.◌∷◌ c s))
        (cut-found long_scheme (suc n) (String.◌∷◌ c s))
        (cut-found short_scheme (suc n) (String.◌∷◌ c s)) (or_false_left _ _ h) in
    both_false _ _ here (has_url-cut n s (or_false_right _ _ h))

abbrev NoLetterP : String → Type 0
NoLetterP m = All (λ c. eqb 112 (fold c) ≡ false) (codes m)

database_mark-free : NoLetterP "[DATABASE_URL_REDACTED]"
unfolding fold
database_mark-free = all-All (λ c. eqb 112 (fold c)) (codes "[DATABASE_URL_REDACTED]") refl

signed_mark-free : NoLetterP "[SIGNED_URL_REDACTED]"
unfolding fold
signed_mark-free = all-All (λ c. eqb 112 (fold c)) (codes "[SIGNED_URL_REDACTED]") refl

-- What is stored of an exception's text has at most 500 characters, and no URL of a PostgreSQL
-- database in it, that is, no postgres:// or postgresql://, in any case, with a character after it
-- that is no white space.
pub redact_detail-HidesUrls :
    (detail : String)
    → (count (redact_detail detail) ≤ 500) × (has_url (codes (redact_detail detail)) ≡ false)
unfolding redact_detail
redact_detail-HidesUrls detail =
    let first : String = substitute named_secret named_mark 0 detail in
    let second : String = substitute postgres_url (λ matched. "[DATABASE_URL_REDACTED]") 0 first in
    let third : String = substitute signed_url (λ matched. "[SIGNED_URL_REDACTED]") 0 second in
    let hidden : has_url (codes second) ≡ false =
      replaced-has_url postgres_url "[DATABASE_URL_REDACTED]" postgres_url-Starts _ refl
        database_mark-free 0 first (covered_self first) in
    let kept : has_url (codes third) ≡ false =
      replaced-has_url signed_url "[SIGNED_URL_REDACTED]" signed_url-Starts _ refl signed_mark-free
        0 second (covered_free second hidden) in
    (count-cut 500 third, has_url-cut 500 third kept)
