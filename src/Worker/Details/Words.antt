-- ===== src/Worker/Details/Words.antt =====
-- The pattern of a database's URL by its two words, and what keeps a text free of them.
use honor.Common.{
  ℕ, zero, suc, ◌≤◌, String, ◌≡◌, ◌≢◌, ◌⊎◌, inl, inr, refl, sym, ap, ◌∙◌, Bool, true, false, not,
  ◌&&◌, ◌||◌, [], ◌∷◌, ◌++◌, length, leb, eqb, all, and_left, and_right, All, if◌then◌else◌, arith,
}
use Prim.Native.String
use Prim.Native.String.{count}
use Prim.Native.String.count
use Prim.Native.String.append
use Prim.Native.Char
use honor.Common.Text.{codes}
use honor.Common.Regex.{Text, fold, is_space, literal, any_case, run, skip}
use honor.Api.Logging.Patterns.{at_least, postgres_url}
use honor.Worker.Details.{cut}

-- The text has a URL of a database somewhere.
abbrev pub has_url : Text → Bool
has_url [] = false
has_url (c ∷ cs) = leb 1 (postgres_url (c ∷ cs)) || has_url cs

abbrev pub begins : Text → Bool
begins [] = false
begins (c ∷ cs) = not (is_space c)

-- A word in any case, and a character that is no white space.
abbrev pub found : Text → Text → Bool
found [] s = begins s
found (w ∷ ws) [] = false
found (w ∷ ws) (c ∷ cs) = eqb w (fold c) && found ws cs

found-literal : (w s : Text) → (any_case w s && begins (skip (length w) s)) ≡ found w s
unfolding literal skip
found-literal [] s = refl
found-literal (w ∷ ws) [] = refl
found-literal (w ∷ ws) (c ∷ cs) = ground (arith, found-literal ws cs)

run-begins : (s : Text) → leb 1 (run (λ c. not (is_space c)) s) ≡ begins s
unfolding run
run-begins [] = refl
run-begins (c ∷ cs) = ground arith

at_least-begins :
    (n : ℕ) (s : Text) → leb 1 (at_least 1 (suc n) (run (λ c. not (is_space c)) s)) ≡ begins s
at_least-begins n s = rw (← run-begins s) ground arith

abbrev pub long_scheme : Text
long_scheme = codes "postgresql://"

abbrev pub short_scheme : Text
short_scheme = codes "postgres://"

literal-apart :
    (p : Text) (a b : ℕ) (x y s : Text)
    → eqb a b ≡ false
    → any_case (p ++ (a ∷ x)) s ≡ true
    → any_case (p ++ (b ∷ y)) s ≡ false
unfolding literal
literal-apart [] a b x y [] d h = cc
literal-apart [] a b x y (c ∷ cs) d h = ground arith
literal-apart (q ∷ p) a b x y [] d h = cc
literal-apart (q ∷ p) a b x y (c ∷ cs) d h = ground (arith, literal-apart p a b x y cs d)

choice :
    (a b c d : Bool) (m n : ℕ)
    → (a ≡ true → c ≡ false)
    → leb 1 m ≡ b
    → leb 1 n ≡ d
    → leb 1 (if a then m else if c then n else 0) ≡ ((a && b) || (c && d))
choice true b true d m n apart e f = cc (apart refl)
choice true true false d m n apart e f = e
choice true false false d m n apart e f = e
choice false b true d m n apart e f = f
choice false b false d m n apart e f = refl

-- The pattern by the two words.
url-found : (s : Text) → leb 1 (postgres_url s) ≡ (found long_scheme s || found short_scheme s)
unfolding postgres_url
url-found s =
    choice _ _ _ _ _ _ (literal-apart (codes "postgres") 113 58 (codes "l://") (codes "//") s refl)
      (at_least-begins 12 (skip 13 s)) (at_least-begins 10 (skip 11 s))
    ∙ ap (λ b. b || (any_case short_scheme s && begins (skip 11 s))) (found-literal long_scheme s)
    ∙ ap (λ b. found long_scheme s || b) (found-literal short_scheme s)

pub no_p : (c : ℕ) (cs : Text) → eqb 112 (fold c) ≡ false → leb 1 (postgres_url (c ∷ cs)) ≡ false
unfolding postgres_url literal
no_p c cs h = rw h refl

pub ℕ-cases : (n : ℕ) → (n ≡ 0) ⊎ ((k : ℕ) × (n ≡ suc k))
ℕ-cases zero = inl refl
ℕ-cases (suc k) = inr (k, refl)

pub codes-append : (s t : String) → codes (String.◌++◌ s t) ≡ codes s ++ codes t
codes-append String.[] t = ap codes (append.nil t)
codes-append (String.◌∷◌ c s) t =
    ap codes (append.cons c s t) ∙ ap (λ r. Prim.Native.Char.code c ∷ r) (codes-append s t)

pub cut-found :
    (w : Text) (n : ℕ) (s : String) → found w (codes (cut n s)) ≡ true → found w (codes s) ≡ true
unfolding cut
cut-found w n String.[] h = h
cut-found [] zero (String.◌∷◌ c s) h = cc
cut-found (x ∷ w) zero (String.◌∷◌ c s) h = cc
cut-found [] (suc n) (String.◌∷◌ c s) h = h
cut-found (x ∷ w) (suc n) (String.◌∷◌ c s) h = ground (arith, cut-found w n s)

pub count-cut : (n : ℕ) (s : String) → count (cut n s) ≤ n
unfolding cut
count-cut n String.[] = rw count.nil (omega arith)
count-cut zero (String.◌∷◌ c s) = rw count.nil (omega arith)
count-cut (suc n) (String.◌∷◌ c s) =
    let ih = count-cut n s in rw (count.cons c (cut n s)) (omega arith)

none_of :
    (a b c d : Bool)
    → (a ≡ true → c ≡ true)
    → (b ≡ true → d ≡ true)
    → (c || d) ≡ false
    → (a || b) ≡ false
none_of a b c d f g h = ground arith

-- What has one of the words has it in the longer text as well.
pub weaker :
    (s t : Text)
    → (found long_scheme s ≡ true → found long_scheme t ≡ true)
    → (found short_scheme s ≡ true → found short_scheme t ≡ true)
    → leb 1 (postgres_url t) ≡ false
    → leb 1 (postgres_url s) ≡ false
weaker s t f g h =
    url-found s
    ∙ none_of (found long_scheme s) (found short_scheme s) _ _ f g (sym (url-found t) ∙ h)

pub found_cons :
    (x c : ℕ) (a b : Bool) → (a ≡ true → b ≡ true) → (eqb x c && a) ≡ true → (eqb x c && b) ≡ true
found_cons x c a b f h = ground arith

pub no_bracket : (x : ℕ) (b : Bool) → eqb x 91 ≡ false → (eqb x (fold 91) && b) ≢ true
unfolding fold
no_bracket x b h e = ground arith

pub not_covered : {n : ℕ} {P : Type 0} → n ≡ 0 → ((k : ℕ) × (n ≡ suc k)) ⊎ P → P
not_covered e (inl (k, e')) = absurd (omega arith)
not_covered e (inr free) = free

-- The letters of the two words are no bracket.
abbrev pub NoBracket : Text → Type 0
NoBracket w = All (λ x. eqb x 91 ≡ false) w

not-true : (b : Bool) → not b ≡ true → b ≡ false
not-true false h = refl
not-true true h = cc

pub all-All : (f : ℕ → Bool) (t : Text) → all (λ c. not (f c)) t ≡ true → All (λ c. f c ≡ false) t
all-All f [] h = tt
all-All f (c ∷ t) h = (not-true _ (and_left _ _ h), all-All f t (and_right _ _ h))

pub p_is_no_space : (c : ℕ) → eqb 112 (fold c) ≡ true → is_space c ≡ false
unfolding fold is_space
p_is_no_space c h = ground arith

pub h_is_no_space : (c : ℕ) → eqb 104 c ≡ true → is_space c ≡ false
unfolding is_space
h_is_no_space c h = ground arith

pub false_ne_positive : (k : ℕ) → false ≢ leb 1 (suc k)
false_ne_positive k h = ground arith

pub zero_ne_suc : (k : ℕ) → 0 ≢ suc k
zero_ne_suc k h = omega arith

pub or_false_left : (a b : Bool) → (a || b) ≡ false → a ≡ false
or_false_left a b h = ground arith

pub or_false_right : (a b : Bool) → (a || b) ≡ false → b ≡ false
or_false_right a b h = ground arith

pub both_false : (a b : Bool) → a ≡ false → b ≡ false → (a || b) ≡ false
both_false a b g h = ground arith

pub matched_or_free : (n : ℕ) → ((k : ℕ) × (n ≡ suc k)) ⊎ (leb 1 n ≡ false)
matched_or_free zero = inr refl
matched_or_free (suc k) = inl (k, refl)
