-- ===== src/Common/Regex.antt =====
-- What the program uses of Python's `re` and of text methods, on the code points of a text. A pattern is
-- made of literals and of repeated classes; where a class is repeated, what follows it in the pattern
-- begins with no character of it, so the longest run is the match.
use honor.Common.Dict.{IsEquality}
use honor.Common.Tests.{ltb, leb, eqb, if◌then◌else◌}
use Prim.Native.Nat.{ℕ, zero, suc, ◌+◌}
use mathlib.Core.Path.{◌≡◌, refl}
use mathlib.Core.Logic.{◌↔◌, ◌⊎◌, inl, inr}
use mathlib.Core.Bool.{Bool, true, false, ◌&&◌, ◌||◌}
use mathlib.Core.List.{List, [], ◌∷◌}
use native.Mathlib.Omega.{arith}

abbrev pub Text : Type 0
Text = List ℕ

-- What `re.I` compares: a letter of ASCII in lower case, and the four other characters that match one.
unfoldable pub fold : ℕ → ℕ
fold c =
    if leb 65 c && leb c 90
    then c + 32
    else if eqb c 304 || eqb c 305
    then 105
    else if eqb c 383
    then 115
    else if eqb c 8490
    then 107
    else c

-- `\s`
unfoldable pub is_space : ℕ → Bool
is_space c =
    (leb 9 c && leb c 13)
    || (leb 28 c && leb c 32)
    || (eqb c 133 || eqb c 160)
    || (eqb c 5760 || (leb 8192 c && leb c 8202))
    || (eqb c 8232 || eqb c 8233)
    || (eqb c 8239 || eqb c 8287)
    || eqb c 12288

-- A literal of a pattern, with or without `re.I`.
unfoldable pub literal : (ℕ → ℕ) → Text → Text → Bool
literal on [] s = true
literal on (c ∷ cs) [] = false
literal on (c ∷ cs) (d ∷ ds) = eqb c (on d) && literal on cs ds

abbrev pub any_case : Text → Text → Bool
any_case = literal fold

abbrev pub exact : Text → Text → Bool
exact = literal (λ c. c)

-- How many characters of a class the text begins with.
unfoldable pub run : (ℕ → Bool) → Text → ℕ
run class [] = 0
run class (c ∷ cs) = let more = run class cs in if class c then suc more else 0

unfoldable pub skip : ℕ → Text → Text
skip zero s = s
skip (suc n) [] = []
skip (suc n) (c ∷ cs) = skip n cs

-- `s[:n]`
unfoldable pub first : ℕ → Text → Text
first zero s = []
first (suc n) [] = []
first (suc n) (c ∷ cs) = c ∷ first n cs

-- Whether a pattern matches somewhere in a text: `search`.
unfoldable pub search_in : (Text → Bool) → Text → Bool
search_in at_head [] = at_head []
search_in at_head (c ∷ cs) = at_head (c ∷ cs) || search_in at_head cs

-- `s == t`
unfoldable pub same_text : Text → Text → Bool
same_text [] [] = true
same_text [] (d ∷ ds) = false
same_text (c ∷ cs) [] = false
same_text (c ∷ cs) (d ∷ ds) = eqb c d && same_text cs ds

pub same_text_iff : (s t : Text) → (same_text s t ≡ true) ↔ (s ≡ t)
unfolding same_text
same_text_iff [] [] = (λ h. refl, λ h. refl)
same_text_iff [] (d ∷ ds) = (λ h. cc, λ h. cc)
same_text_iff (c ∷ cs) [] = (λ h. cc, λ h. cc)
same_text_iff (c ∷ cs) (d ∷ ds) =
    (λ h. ground (arith, same_text_iff cs ds), λ h. ground (arith, same_text_iff cs ds))

pub text-IsEquality : IsEquality same_text
text-IsEquality = record {
  sound = λ a b. (same_text_iff a b).0;
  reflexive = λ a. (same_text_iff a a).1 refl;
}

-- `s <= t`, by code points.
unfoldable pub le_text : Text → Text → Bool
le_text [] t = true
le_text (c ∷ cs) [] = false
le_text (c ∷ cs) (d ∷ ds) = ltb c d || (eqb c d && le_text cs ds)

pub le_text_total : (s t : Text) → (le_text s t ≡ true) ⊎ (le_text t s ≡ true)
unfolding le_text
le_text_total [] t = inl refl
le_text_total (c ∷ cs) [] = inr refl
le_text_total (c ∷ cs) (d ∷ ds) = ground (arith, le_text_total cs ds)

-- `s.lstrip()`
unfoldable pub strip_left : Text → Text
unfolding is_space
strip_left [] = []
strip_left (c ∷ cs) = let rest = strip_left cs in if is_space c then rest else c ∷ cs

-- Whether only white space is left.
unfoldable pub is_blank : Text → Bool
unfolding is_space
is_blank [] = true
is_blank (c ∷ cs) = is_space c && is_blank cs

-- `s.rstrip()`
unfoldable pub strip_right : Text → Text
unfolding is_blank
strip_right [] = []
strip_right (c ∷ cs) = let rest = strip_right cs in if is_blank (c ∷ cs) then [] else c ∷ rest

-- `s.strip()`; Python's `str.isspace` and `\s` agree on the characters of white space.
unfoldable pub strip : Text → Text
unfolding strip_left strip_right
strip s = strip_right (strip_left s)

-- A letter of ASCII in lower case.
unfoldable pub lower : ℕ → ℕ
lower c = if leb 65 c && leb c 90 then c + 32 else c

-- Where `splitlines` breaks a text, newlines being translated by `read_text`.
unfoldable pub is_break : ℕ → Bool
is_break c =
    (leb 10 c && leb c 13) || (leb 28 c && leb c 30) || (eqb c 133 || (eqb c 8232 || eqb c 8233))

abbrev pub onto_first : ℕ → List Text → List Text
onto_first c [] = (c ∷ []) ∷ []
onto_first c (part ∷ parts) = (c ∷ part) ∷ parts

-- `s.splitlines()`
unfoldable pub split_lines : Text → List Text
unfolding is_break
split_lines [] = []
split_lines (c ∷ cs) =
    let rest = split_lines cs in if is_break c then [] ∷ rest else onto_first c rest

-- `s.startswith(prefix)`
unfoldable pub starts_with : Text → Text → Bool
unfolding literal
starts_with prefix s = exact prefix s
