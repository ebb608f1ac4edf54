-- ===== src/Scripts/SecretScan/Clean.antt =====
-- What a scan without issues means.
use honor.Common.{
  true-ne-false, ◌≡◌, ◌⊎◌, ◌↔◌, refl, true, false, List, [], ◌∷◌, ◌++◌, Option, none, some, All,
  Bool-cases, inl, inr,
}
use honor.Common.Regex.{Text}
use honor.Scripts.SecretScan.{
  UrlParts, File, Pattern, Issue, without_closing, allowed_placeholder, match_issues,
  pattern_issues, is_scanned, text_issues, scan,
}

not_skipped : {P : Type 0} → (true ≡ false) ⊎ P → P
not_skipped (inl h) = absurd (true-ne-false h)
not_skipped (inr p) = p

append_nil_iff : (xs ys : List Issue) → (xs ++ ys ≡ []) ↔ ((xs ≡ []) × (ys ≡ []))
append_nil_iff [] ys = (λ h. (refl, h), λ h. h.1)
append_nil_iff (x ∷ xs) ys = (λ h. cc, λ h. cc (h.0))

module _ (urlsplit : Text → Option UrlParts) where
  -- Each match, without closing characters at its end, is a placeholder or a test's URL.
  abbrev pub AreAllowed : Text → List Text → Type 0
  AreAllowed name matches =
      All (λ m. allowed_placeholder urlsplit name (without_closing m) ≡ true) matches

  -- The text holds nothing that a pattern finds, but what is allowed.
  abbrev pub IsCleanText : List Pattern → Text → Type 0
  IsCleanText patterns text = All (λ p. AreAllowed p.0 (p.1 text)) patterns

  -- A file that cannot be read, or whose text is clean.
  abbrev pub IsCleanIfRead : List Pattern → Option Text → Type 0
  IsCleanIfRead patterns none = Unit
  IsCleanIfRead patterns (some text) = IsCleanText patterns text

  abbrev pub IsCleanFile : List Pattern → File → Type 0
  IsCleanFile patterns f = (is_scanned f ≡ false) ⊎ IsCleanIfRead patterns f.text

  match_issues_iff :
      (f : File) (name : Text) (matches : List Text)
      → (match_issues urlsplit f name matches ≡ []) ↔ AreAllowed name matches
  unfolding match_issues
  match_issues_iff f name [] = (λ h. tt, λ h. refl)
  match_issues_iff f name (m ∷ more) =
      let (sound, complete) = match_issues_iff f name more in
      elim (Bool-cases (allowed_placeholder urlsplit name (without_closing m))) [
        | inl allowed ↦ rw allowed (λ h. (refl, sound h), λ h. complete h.1)
        | inr secret ↦ rw secret (λ h. cc, λ h. cc (h.0))
      ]

  pattern_issues_iff :
      (f : File) (patterns : List Pattern) (text : Text)
      → (pattern_issues urlsplit f patterns text ≡ []) ↔ IsCleanText patterns text
  unfolding pattern_issues
  pattern_issues_iff f [] text = (λ h. tt, λ h. refl)
  pattern_issues_iff f ((name, find_all) ∷ patterns) text =
      let (sound, complete) = match_issues_iff f name (find_all text) in
      let (sound', complete') = pattern_issues_iff f patterns text in
      let (split, join) =
        append_nil_iff (match_issues urlsplit f name (find_all text))
          (pattern_issues urlsplit f patterns text) in
      (λ h. (sound (split h).0, sound' (split h).1), λ h. join (complete h.0, complete' h.1))

  text_issues_iff :
      (f : File) (patterns : List Pattern) (o : Option Text)
      → (text_issues urlsplit f patterns o ≡ []) ↔ IsCleanIfRead patterns o
  unfolding text_issues
  text_issues_iff f patterns none = (λ h. tt, λ h. refl)
  text_issues_iff f patterns (some t) = pattern_issues_iff f patterns t

  -- The secret scan reports nothing exactly if each file is skipped, or cannot be read, or has no
  -- match of a pattern but those that count as placeholders.
  pub scan_iff :
      (patterns : List Pattern) (files : List File)
      → (scan urlsplit patterns files ≡ []) ↔ All (IsCleanFile patterns) files
  unfolding scan
  scan_iff patterns [] = (λ h. tt, λ h. refl)
  scan_iff patterns (f ∷ files) =
      let (sound, complete) = scan_iff patterns files in
      let (sound', complete') = text_issues_iff f patterns f.text in
      let (split, join) =
        append_nil_iff (text_issues urlsplit f patterns f.text) (scan urlsplit patterns files) in
      elim (Bool-cases (is_scanned f)) [
        | inl read ↦ rw read (
          λ h. (inr (sound' (split h).0), sound (split h).1),
          λ h. join (complete' (not_skipped h.0), complete h.1),
        )
        | inr skipped ↦ rw skipped (λ h. (inl refl, sound h), λ h. complete h.1)
      ]
