-- ===== src/Approved.antt =====
-- The decision functions of docs/architecture/c00-approved/HONOR_C00_VALIDATION.py, by which the fixtures
-- of the approved contracts are accepted. A case is a record of the entries that a function reads; an
-- entry with a default that is missing has its default.
pub mod Compliance
use honor.Common.{
  ℕ, zero, suc, ◌+◌, String, Bool, true, false, not, ◌&&◌, ◌||◌, List, [], ◌∷◌, map, all, any,
  length, Option, none, some, member, leb, ltb, eqb, opt_eq, is_some, ◌==◌, if◌then◌else◌,
}

-- A case of `version_cases`.
pub record VersionCase : Type 0 where
  pub same_identity : Bool
  pub new_version : ℕ
  pub predecessor_version : ℕ
  pub forked : Bool

-- `version_accept`
unfoldable pub version_accept : VersionCase → Bool
version_accept c =
    c.same_identity && (eqb c.new_version (c.predecessor_version + 1) && not c.forked)

-- A case of `post_cases`.
pub record PostCase : Type 0 where
  pub clip_state : String
  pub clip_account : String
  pub post_account : String
  pub post_platform : String
  pub account_platform : String
  pub recommendation_platform : String
  pub native_audio_platform : String

-- `post_accept`
unfoldable pub post_accept : PostCase → Bool
post_accept c =
    c.clip_state == "READY"
    && (c.clip_account == c.post_account
        && ((c.post_platform == c.account_platform
              && c.account_platform == c.recommendation_platform)
            && c.native_audio_platform == c.post_platform))

-- A case of `campaign_truth_cases`.
pub record TruthCase : Type 0 where
  pub state : String
  pub typed : Bool
  pub evidence : Bool
  pub verified : Bool

-- `truth_accept`
unfoldable pub truth_accept : TruthCase → Bool
truth_accept c =
    if c.state == "KNOWN"
    then c.typed && (c.evidence && c.verified)
    else if c.state == "NOT_APPLICABLE"
    then not c.typed && (c.evidence && c.verified)
    else if c.state == "UNKNOWN"
    then not c.typed
    else false

-- A case of `audio_asset_eligibility_cases`.
pub record AssetCase : Type 0 where
  pub active : Bool
  pub column_render_safe : Bool
  pub inner_render_safe : Bool
  pub commercial : Bool
  pub derivative : Bool
  pub platform : Bool
  pub campaign_restriction : Option String
  pub attribution : Bool
  pub license_required : Bool
  pub license_evidence : Bool

abbrev same_flag : Bool → Bool → Bool
same_flag true b = b
same_flag false b = not b

-- `asset_ok`
unfoldable pub asset_ok : AssetCase → Bool
asset_ok c =
    c.active
    && (c.column_render_safe
        && (c.inner_render_safe
            && (same_flag c.column_render_safe c.inner_render_safe
                && (c.commercial
                    && (c.derivative
                        && (c.platform
                            && (not (is_some c.campaign_restriction)
                                && (not c.attribution
                                    && (not c.license_required || c.license_evidence)))))))))

-- A stage of the rights matrix: the flags that it requires, and whether it asks for the platform.
pub record Stage : Type 0 where
  pub required_true : List String
  pub platform_required : Bool

-- A case of `rights_flag_cases`, with its stage; a flag that is missing is not true.
pub record RightsCase : Type 0 where
  pub stage : Stage
  pub eligible : Bool
  pub campaign_associated : Bool
  pub flags : String → Bool
  pub platform_ok : Bool

-- `rights_case_accept`
unfoldable pub rights_case_accept : RightsCase → Bool
rights_case_accept c =
    c.eligible
    && (c.campaign_associated
        && (all c.flags c.stage.required_true && (not c.stage.platform_required || c.platform_ok)))

-- A density of sound effects, in the order of `ranks`.
pub data Density : Type 0 where
  silent : Density
  low : Density
  medium : Density
  high : Density

abbrev pub rank : Density → ℕ
rank silent = 0
rank low = 1
rank medium = 2
rank high = 3

-- A case of `audio_rule_cases`.
pub record AudioCase : Type 0 where
  pub outer_state : Option String
  pub asset_render_safe : Bool
  pub render_safe_audio : String
  pub music_allowed : String
  pub sfx_allowed : String
  pub music_asset : Bool
  pub sfx_events : ℕ
  pub density : Density
  pub most : Option Density

-- `music_ok` and `sfx_ok`, by the master rule and the rule's own state.
unfoldable pub is_allowed : String → String → Bool
is_allowed master rule =
    not (master == "UNKNOWN")
    && (((master == "ALLOWED" && (rule == "ALLOWED" || rule == "NOT_APPLICABLE"))
          || (master == "PROHIBITED" && rule == "ALLOWED"))
        && not (rule == "PROHIBITED" || rule == "UNKNOWN"))

-- `n or density!='NONE'`
unfoldable pub has_effects : AudioCase → Bool
has_effects c = leb 1 c.sfx_events || leb 1 (rank c.density)

-- The tests on the greatest density, where effects are allowed.
unfoldable pub density_ok : AudioCase → Option Density → Bool
unfolding has_effects
density_ok c none = not (c.sfx_allowed == "ALLOWED")
density_ok c (some most) =
    not (eqb (rank most) 0 && has_effects c) && leb (rank c.density) (rank most)

unfoldable pub rules_ok : AudioCase → Bool → Bool → Bool
unfolding has_effects density_ok
rules_ok c music_ok sfx_ok =
    not (c.music_asset && not music_ok)
    && (not (has_effects c && not sfx_ok) && (not sfx_ok || density_ok c c.most))

-- `audio_case_accept`
unfoldable pub audio_case_accept : AudioCase → Bool
unfolding is_allowed rules_ok
audio_case_accept c =
    if opt_eq c.outer_state (some "NOT_APPLICABLE")
    then c.asset_render_safe
    else rules_ok c (is_allowed c.render_safe_audio c.music_allowed)
        (is_allowed c.render_safe_audio c.sfx_allowed)

-- A clause of a restriction set: its code, effect and scope.
abbrev pub Clause : Type 0
Clause = String × String × String

-- A case of `compliance_cardinality_cases`: the active clauses, and the records with their results.
pub record ComplianceCase : Type 0 where
  pub active : List Clause
  pub records : List (Clause × String)

-- `==` on tuples
unfoldable pub same_clause : Clause → Clause → Bool
same_clause (a, b, c) (d, e, f) = a == d && (b == e && c == f)

-- `rec.count(t)`
unfoldable pub count : Clause → List Clause → ℕ
unfolding same_clause
count t [] = 0
count t (u ∷ us) = let rest = count t us in if same_clause u t then suc rest else rest

-- Every clause of the first list is one of the second.
unfoldable pub subset : List Clause → List Clause → Bool
unfolding count
subset ts us = all (λ t. leb 1 (count t us)) ts

abbrev pub clauses_of : List (Clause × String) → List Clause
clauses_of = map (λ r. r.0)

-- `compliance_cardinality_valid`
unfoldable pub compliance_cardinality_valid : ComplianceCase → Bool
unfolding count subset
compliance_cardinality_valid c =
    eqb (length (clauses_of c.records)) (length c.active)
    && ((subset (clauses_of c.records) c.active && subset c.active (clauses_of c.records))
        && (all (λ t. eqb (count t (clauses_of c.records)) 1) c.active
            && all (λ r. r.1 == "COMPLIANT") c.records))
