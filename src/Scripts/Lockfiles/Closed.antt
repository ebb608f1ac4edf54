-- ===== src/Scripts/Lockfiles/Closed.antt =====
-- What the checks of the npm lock mean.
use honor.Common.{
  ℕ, eqb, ltb, length, ◌&&◌, ◌⊎◌, ◌≡◌, refl, sym, ap, ◌∙◌, Bool, true, false, not, List, [], ◌∷◌,
  Option, none, some, ok, >>=-eq-ok, raise_if, is_some, All, Bool-cases, inl, inr, if_then, if_else,
  if◌then◌else◌,
}
use honor.Common.Text.{codes}
use honor.Common.Regex.{Text, same_text, same_text_iff}
use honor.Common.Dict.{lookup}
use honor.Scripts.Lockfiles.{
  Package, Packages, LockError, node_module, has_package, check_dependencies, is_installed,
  check_package, check_packages, same_version, check_locked, check_direct, workspaces,
  check_workspaces, check_npm,
}

passed : (b : Bool) (e : LockError) → raise_if (not b) e ≡ ok tt → b ≡ true
passed true e h = refl
passed false e h = cc

-- The package is no installed one, or has a version, and its dependencies are in the graph.
abbrev pub IsWhole : Packages → Text × Package → Type 0
IsWhole packages entry =
    (is_installed entry.0 entry.1 ≡ false)
    ⊎ (is_some entry.1.version ≡ true)
      × All (λ name. has_package (node_module name) packages ≡ true) entry.1.dependencies

-- The dependency is the workspace's own package, or is locked at the version that is asked for.
abbrev pub IsLocked : Packages → Text × Text → Type 0
IsLocked packages entry =
    (same_text entry.0 (codes "@honor/design-system") ≡ true)
    ⊎ (info : Package) × (lookup same_text (node_module entry.0) packages ≡ some info)
      × (info.version ≡ some entry.1)

dependencies-All :
    (packages : Packages) (key : Text) (names : List Text)
    → check_dependencies packages key names ≡ ok tt
    → All (λ name. has_package (node_module name) packages ≡ true) names
unfolding check_dependencies
dependencies-All packages key [] h = tt
dependencies-All packages key (name ∷ names) h =
    let (_, there, h') =
      >>=-eq-ok (raise_if (not (has_package (node_module name) packages)) _) _ h in
    (passed _ _ there, dependencies-All packages key names h')

package-whole :
    (packages : Packages) (key : Text) (info : Package)
    → check_package packages key info ≡ ok tt
    → (is_some info.version ≡ true)
      × All (λ name. has_package (node_module name) packages ≡ true) info.dependencies
unfolding check_package
package-whole packages key info h =
    let (_, versioned, h1) = >>=-eq-ok (raise_if (not (is_some info.version)) _) _ h in
    let (_, _, h2) = >>=-eq-ok (raise_if (not (info.has_resolved && info.has_integrity)) _) _ h1 in
    (passed _ _ versioned, dependencies-All packages key info.dependencies h2)

packages-All :
    (packages more : Packages) → check_packages packages more ≡ ok tt → All (IsWhole packages) more
unfolding check_packages
packages-All packages [] h = tt
packages-All packages ((key, info) ∷ more) h =
    let (_, own, h') =
      >>=-eq-ok (if is_installed key info then check_package packages key info else ok tt) _ h in
    (
      elim (Bool-cases (is_installed key info)) [
        | inl installed ↦
            inr (package-whole packages key info (sym (if_then _ _ _ installed) ∙ own))
        | inr other ↦ inl other
      ],
      packages-All packages more h',
    )

version_locked :
    (requested : Text) (o : Option Text) → same_version requested o ≡ true → o ≡ some requested
version_locked requested none h = cc
version_locked requested (some v) h = ap some (sym ((same_text_iff requested v).0 h))

locked :
    (packages : Packages) (name requested : Text) (o : Option Package)
    → check_locked name requested o ≡ ok tt
    → (info : Package) × (o ≡ some info) × (info.version ≡ some requested)
unfolding check_locked
locked packages name requested none h = cc
locked packages name requested (some info) h =
    (info, refl, version_locked requested info.version (passed _ _ h))

direct-All :
    (packages : Packages) (section : List (Text × Text))
    → check_direct packages section ≡ ok tt
    → All (IsLocked packages) section
unfolding check_direct
direct-All packages [] h = tt
direct-All packages ((name, requested) ∷ more) h =
    let (_, own, h') =
      >>=-eq-ok
        (if same_text name (codes "@honor/design-system")
          then ok tt
          else check_locked name requested (lookup same_text (node_module name) packages))
        _ h in
    (
      elim (Bool-cases (same_text name (codes "@honor/design-system"))) [
        | inl own_package ↦ inl own_package
        | inr foreign ↦ inr (locked packages name requested _ (sym (if_else _ _ _ foreign) ∙ own))
      ],
      direct-All packages more h',
    )

-- If the checks of the npm lock pass, every installed package has a version and its dependencies in
-- the graph, and every direct dependency, the workspace's own package aside, is locked at the
-- version that is asked for.
pub check_npm-IsWhole :
    (version : ℕ) (packages : Packages) (dependencies dev_dependencies : List (Text × Text))
    → check_npm version packages dependencies dev_dependencies ≡ ok tt
    → All (IsWhole packages) packages
      × All (IsLocked packages) dependencies
      × All (IsLocked packages) dev_dependencies
unfolding check_npm
check_npm-IsWhole version packages dependencies dev_dependencies h =
    let (_, _, h1) = >>=-eq-ok (raise_if (not (eqb version 3)) _) _ h in
    let (_, _, h2) = >>=-eq-ok (raise_if (ltb (length packages) 25) _) _ h1 in
    let (_, _, h3) = >>=-eq-ok (check_workspaces packages workspaces) _ h2 in
    let (_, whole, h4) = >>=-eq-ok (check_packages packages packages) _ h3 in
    let (_, direct, dev) = >>=-eq-ok (check_direct packages dependencies) _ h4 in
    (
      packages-All packages packages whole,
      direct-All packages dependencies direct,
      direct-All packages dev_dependencies dev,
    )
