-- ===== src/Scripts/Manifest/Coverage.antt =====
-- What a manifest check that passes means.
use honor.Common.{◌≡◌, refl, List, [], ◌∷◌, ok, >>=-eq-ok}
use honor.Common.Regex.{Text, same_text, text-IsEquality, split_lines}
use honor.Common.Dict.{lookup, keys_without, lookup-same}
use honor.Scripts.Manifest.{
  File, Entries, expected_entries, read_lines, check_inventory, check_digests, check_manifest,
}

no_drift :
    (sort : List Text → List Text) (missing extra : List Text)
    → check_inventory sort missing extra ≡ ok tt
    → (missing ≡ []) × (extra ≡ [])
unfolding check_inventory
no_drift sort [] [] h = (refl, refl)
no_drift sort (m ∷ ms) extra h = cc
no_drift sort [] (e ∷ es) h = cc

no_change : (bad : List Text) → check_digests bad ≡ ok tt → bad ≡ []
unfolding check_digests
no_change [] h = refl
no_change (p ∷ ps) h = cc

-- If the manifest check passes, the manifest and the inventory have the same digest, or none, for
-- every path.
pub check_manifest-same :
    (sort : List Text → List Text) (files : List File) (manifest : Text)
    → check_manifest sort files manifest ≡ ok tt
    → (actual : Entries) × (read_lines [] (split_lines manifest) ≡ ok actual)
      × ((path : Text)
          → lookup same_text path (expected_entries files) ≡ lookup same_text path actual)
unfolding check_manifest
check_manifest-same sort files manifest h =
    let (actual, read, h') = >>=-eq-ok (read_lines [] (split_lines manifest)) _ h in
    let expected : Entries = expected_entries files in
    let (_, inventory, h'') =
      >>=-eq-ok
        (check_inventory sort (keys_without same_text expected actual)
          (keys_without same_text actual expected))
        _ h' in
    let (missing, extra) = no_drift sort _ _ inventory in
    let changed = no_change _ h'' in
    (
      actual,
      read,
      λ path.
          lookup-same same_text same_text expected actual path text-IsEquality text-IsEquality
            missing extra changed,
    )
