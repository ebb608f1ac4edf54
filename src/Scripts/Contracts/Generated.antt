-- ===== src/Scripts/Contracts/Generated.antt =====
-- The artifacts that are written_fresh pass the check, and a check that passes means that they are there.
use honor.Common.{◌≡◌, refl, List, [], ◌∷◌, ok, >>=-eq-ok}
use honor.Common.Regex.{Text, same_text, same_text_iff, text-IsEquality}
use honor.Common.Dict.{lookup, put, keys_without, keys_changed, lookup-same}
use honor.Api.Json.{Value}
use honor.Scripts.Contracts.{
  Operation, Tool, Files, Rendering, outputs, write_outputs, check_set, check_contents,
  check_generated,
}

no_drift :
    (missing extra : List Text) → check_set missing extra ≡ ok tt → (missing ≡ []) × (extra ≡ [])
unfolding check_set
no_drift [] [] h = (refl, refl)
no_drift (m ∷ ms) extra h = cc
no_drift [] (e ∷ es) h = cc

no_change : (changed : List Text) → check_contents changed ≡ ok tt → changed ≡ []
unfolding check_contents
no_change [] h = refl
no_change (n ∷ ns) h = cc

pub check_generated-same :
    (expected actual : Files)
    → check_generated expected actual ≡ ok tt
    → (name : Text) → lookup same_text name expected ≡ lookup same_text name actual
unfolding check_generated
check_generated-same expected actual h name =
    let (_, inventory, h') = >>=-eq-ok (check_set _ _) _ h in
    let (missing, extra) = no_drift _ _ inventory in
    lookup-same same_text same_text expected actual name text-IsEquality text-IsEquality missing
      extra (no_change _ h')

module _ (r : Rendering) (os os' : List Operation) (ts ts' : List Tool)
    (columns columns' : Value) where
  rewritten :
      write_outputs (outputs r os ts columns) (outputs r os' ts' columns') ≡ outputs r os ts columns
  unfolding write_outputs outputs put same_text
  rewritten = refl

  written_fresh : write_outputs (outputs r os ts columns) [] ≡ outputs r os ts columns
  unfolding write_outputs outputs put same_text
  written_fresh = refl

  passes : check_generated (outputs r os ts columns) (outputs r os ts columns) ≡ ok tt
  unfolding check_generated check_set check_contents keys_without keys_changed lookup outputs
  passes = simp (λ (s : Text). (same_text_iff s s).1 refl)

  -- The files that `write_outputs` writes pass the drift check, in an empty folder and over the
  -- files of another generation.
  pub check_generated-write_outputs :
      (check_generated (outputs r os ts columns) (write_outputs (outputs r os ts columns) [])
        ≡ ok tt)
      × (check_generated
            (outputs r os ts columns)
            (write_outputs (outputs r os ts columns) (outputs r os' ts' columns'))
          ≡ ok tt)
  check_generated-write_outputs = (rw written_fresh passes, rw rewritten passes)
