-- ===== src/Policy.antt =====
-- common/pkg/types/offchain/retentionpolicies.go: retention policies, their validation and their
-- equality. A duration is the bit pattern of its 64 bits, a time its nanoseconds.
pub mod Duration
pub mod Validation
pub mod Equality
use wineventchain.Common.{
  ℕ, Bool, true, false, not, ◌&&◌, ◌||◌, List, [], ◌∷◌, Option, none, some, bytes_eq, ◌==◌,
  if◌then◌else◌, codes, length,
}

pub record Match : Type 0 where
  pub channel : Option (List ℕ)
  pub event_id : Option ℕ
  pub provider_guid : Option (List ℕ)

pub record PolicyAction : Type 0 where
  pub type : List ℕ
  pub rule_group : List ℕ
  pub retention_period : ℕ
  pub volume : ℕ

pub record Filter : Type 0 where
  pub label : List ℕ
  pub match_on : Match
  pub policy_action : PolicyAction

pub record RetentionPolicy : Type 0 where
  pub filters : List Filter

pub record StoredPolicy : Type 0 where
  pub policy : RetentionPolicy
  pub author : List ℕ
  pub applied_at : ℕ

unfoldable pub new_stored_policy : RetentionPolicy → List ℕ → ℕ → StoredPolicy
new_stored_policy policy author applied_at = record {
  policy = policy;
  author = author;
  applied_at = applied_at;
}

abbrev pub rule_grouping_global : List ℕ
rule_grouping_global = codes "global"

abbrev pub rule_grouping_principal : List ℕ
rule_grouping_principal = codes "principal"

abbrev pub policy_type_timestamp : List ℕ
policy_type_timestamp = codes "timestamp"

abbrev pub policy_type_count : List ℕ
policy_type_count = codes "count"

pub data PolicyError : Type 0 where
  no_filters two_count_filters zero_volume count_with_period invalid_rule_grouping : PolicyError
  zero_period timestamp_with_grouping timestamp_with_volume invalid_policy_type : PolicyError

-- The body of the loop of Validate on a count filter, after the check that it is the first.
unfoldable pub check_count : PolicyAction → Option PolicyError
check_count a =
    if a.volume == 0
    then some zero_volume
    else if not (a.retention_period == 0)
    then some count_with_period
    else if not (bytes_eq a.rule_group rule_grouping_global)
        && not (bytes_eq a.rule_group rule_grouping_principal)
    then some invalid_rule_grouping
    else none

-- The same on a timestamp filter.
unfoldable pub check_timestamp : PolicyAction → Option PolicyError
check_timestamp a =
    if a.retention_period == 0
    then some zero_period
    else if not (bytes_eq a.rule_group []) && not (bytes_eq a.rule_group rule_grouping_global)
    then some timestamp_with_grouping
    else if not (a.volume == 0)
    then some timestamp_with_volume
    else none

-- The loop of Validate: `none` is nil.
unfoldable pub validate_filters : Bool → List Filter → Option PolicyError
validate_filters has_count_filter [] = none
validate_filters has_count_filter (f ∷ filters) =
    let counted = validate_filters true filters in
    let timed = validate_filters has_count_filter filters in
    if bytes_eq f.policy_action.type policy_type_count
    then (if has_count_filter
        then some two_count_filters
        else elim (check_count f.policy_action) [ none ↦ counted | some e ↦ some e ])
    else (if bytes_eq f.policy_action.type policy_type_timestamp
        then elim (check_timestamp f.policy_action) [ none ↦ timed | some e ↦ some e ]
        else some invalid_policy_type)

-- RetentionPolicy.Validate
unfoldable pub validate : RetentionPolicy → Option PolicyError
validate p = if length p.filters == 0 then some no_filters else validate_filters false p.filters

-- isEqual on pointers, and the Equal methods.
unfoldable pub is_equal {ℓ} : {A : Type ℓ} → (A → A → Bool) → Option A → Option A → Bool
is_equal eq none none = true
is_equal eq none (some b) = false
is_equal eq (some a) none = false
is_equal eq (some a) (some b) = eq a b

unfoldable pub match_equal : Match → Match → Bool
match_equal m n =
    is_equal bytes_eq m.channel n.channel
    && (is_equal (◌==◌) m.event_id n.event_id && is_equal bytes_eq m.provider_guid n.provider_guid)

unfoldable pub action_equal : PolicyAction → PolicyAction → Bool
action_equal a b =
    bytes_eq a.type b.type
    && (bytes_eq a.rule_group b.rule_group
        && ((a.retention_period == b.retention_period) && (a.volume == b.volume)))

unfoldable pub filter_equal : Filter → Filter → Bool
filter_equal f g =
    bytes_eq f.label g.label
    && (match_equal f.match_on g.match_on && action_equal f.policy_action g.policy_action)

-- The loop of RetentionPolicy.Equal, with the comparison of the lengths.
unfoldable pub filters_equal : List Filter → List Filter → Bool
filters_equal [] [] = true
filters_equal [] (g ∷ gs) = false
filters_equal (f ∷ fs) [] = false
filters_equal (f ∷ fs) (g ∷ gs) = let rest = filters_equal fs gs in filter_equal f g && rest

unfoldable pub stored_equal : StoredPolicy → StoredPolicy → Bool
stored_equal p q =
    filters_equal p.policy.filters q.policy.filters
    && (bytes_eq p.author q.author && (p.applied_at == q.applied_at))
