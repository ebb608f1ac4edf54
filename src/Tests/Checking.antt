-- ===== src/Tests/Checking.antt =====
-- The checks of the repository at concrete files.
use honor.Common.{ℕ, zero, suc, ◌≡◌, ◌↔◌, refl, true, false, List, [], ◌∷◌, none, some, ok, All}
use honor.Common.Text.{codes}
use honor.Common.Dict.{lookup, put}
use honor.Common.Regex.{
  first, Text, is_space, literal, run, skip, same_text, strip_left, is_blank, strip_right, strip,
  lower, is_break, split_lines, starts_with,
}
use honor.Scripts.PythonLock.{
  Pins, is_dash, collapse, canonical, is_name_character, is_version_character, extras, version_of,
  match_line, add_pin, matched_line, parse_lines, parse, included, compare_pins, compare_locks,
}
use honor.Scripts.PythonLock.Drift.{pinned, compare_locks-pinned}
use honor.Scripts.SecretScan.{File, Pattern, scan}
use honor.Scripts.SecretScan.Clean.{IsCleanFile, scan_iff}
use honor.Scripts.Lockfiles.{
  Package, Packages, has_package, check_dependencies, is_installed, check_package, check_packages,
  check_locked, check_direct, check_workspaces, check_npm,
}
use mathlib.Core.List.{Perm}
use honor.Approved.{
  Clause, ComplianceCase, same_clause, count, subset, clauses_of, compliance_cardinality_valid,
}
use honor.Approved.Compliance.{IsDistinct, compliance_cardinality_valid-Perm}
use honor.Scripts.Lockfiles.Closed.{IsWhole, IsLocked, check_npm-IsWhole}

-- Two files of the same pins, in another order and another spelling.
abbrev expected_lock : Text
expected_lock = codes "# pins\nCelery==5.5\nredis_py==6.4 ; extra\n"

abbrev regenerated_lock : Text
regenerated_lock = codes "redis.py==6.4\ncelery[redis]==5.5"

locks_agree : compare_locks (λ texts. texts) expected_lock regenerated_lock ≡ ok tt
unfolding compare_locks parse compare_pins included parse_lines split_lines is_break strip
    match_line matched_line canonical collapse is_dash lower add_pin same_text lookup put
    is_name_character extras version_of is_version_character run skip first starts_with literal
    strip_left strip_right is_blank is_space
locks_agree = refl

compare_locks-pinned_example :
    (a : Pins) × (b : Pins) × (parse expected_lock ≡ ok a)
    × (parse regenerated_lock ≡ ok b)
    × ((name : Text) → pinned name a ≡ pinned name b)
compare_locks-pinned_example =
    compare_locks-pinned (λ texts. texts) expected_lock regenerated_lock locks_agree

-- A file with a test's password, which the pattern of keys finds.
abbrev source_file : File
source_file = record {
  path = codes "tests/a.py";
  parts = codes "tests" ∷ codes "a.py" ∷ [];
  name = codes "a.py";
  lower_suffix = codes ".py";
  is_file = true;
  text = some (codes "API_KEY=REPLACE_ME");
}

abbrev patterns : List Pattern
patterns = (codes "named-secret", λ text. text ∷ []) ∷ []

scan_iff_example :
    (scan (λ text. none) patterns (source_file ∷ []) ≡ [])
    ↔ All (IsCleanFile (λ text. none) patterns) (source_file ∷ [])
scan_iff_example = scan_iff (λ text. none) patterns (source_file ∷ [])

abbrev linked : ℕ → Packages
linked zero = []
linked (suc n) =
    (
      codes "node_modules/@honor/web",
      record {
        link = true;
        version = none;
        has_resolved = true;
        has_integrity = false;
        dependencies = [];
      },
    )
    ∷ linked n

abbrev installed : List Text → Package
installed dependencies = record {
  link = false;
  version = some (codes "1.0.0");
  has_resolved = true;
  has_integrity = true;
  dependencies = dependencies;
}

abbrev packages : Packages
packages =
    (codes "apps/web", installed [])
    ∷ (codes "packages/design-system", installed [])
    ∷ (codes "node_modules/next", installed (codes "react" ∷ []))
    ∷ (codes "node_modules/react", installed [])
    ∷ linked 21

abbrev direct : List (Text × Text)
direct = (codes "next", codes "1.0.0") ∷ (codes "@honor/design-system", codes "*") ∷ []

npm_passes : check_npm 3 packages direct [] ≡ ok tt
unfolding check_npm check_workspaces check_packages check_direct has_package is_installed
    check_package check_dependencies check_locked lookup same_text starts_with literal
npm_passes = refl

check_npm-IsWhole_example :
    All (IsWhole packages) packages × All (IsLocked packages) direct × All (IsLocked packages) []
check_npm-IsWhole_example = check_npm-IsWhole 3 packages direct [] npm_passes

abbrev first_clause : Clause
first_clause = ("NO_ALCOHOL", "PROHIBIT", "CLIP")

abbrev second_clause : Clause
second_clause = ("NO_POLITICS", "PROHIBIT", "POST")

abbrev complied : ComplianceCase
complied = record {
  active = first_clause ∷ second_clause ∷ [];
  records = (second_clause, "COMPLIANT") ∷ (first_clause, "COMPLIANT") ∷ [];
}

complied_valid : compliance_cardinality_valid complied ≡ true
unfolding compliance_cardinality_valid count subset same_clause
complied_valid = refl

compliance_cardinality_valid-Perm_example :
    Perm complied.active (clauses_of complied.records)
    × IsDistinct (clauses_of complied.records)
    × All (λ r. r.1 ≡ "COMPLIANT") complied.records
compliance_cardinality_valid-Perm_example =
    compliance_cardinality_valid-Perm complied complied_valid
