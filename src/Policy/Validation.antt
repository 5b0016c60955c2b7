-- ===== src/Policy/Validation.antt =====
-- common/pkg/types/offchain/retentionpolicies.go: what Validate accepts.
use wineventchain.Common.{
  ℕ, suc, ◌+◌, ◌≤◌, ◌<◌, ◌≡◌, ◌≢◌, ◌↔◌, ◌⊎◌, inl, inr, refl, Bool, true, false, List, [], ◌∷◌, none,
  bytes_eq, bytes_eq_sound, bytes_eq_refl, if◌then◌else◌, arith, All, length, Bool-cases, subst,
  sym, Option-cases,
}
use wineventchain.Policy.{
  Filter, RetentionPolicy, rule_grouping_global, rule_grouping_principal, policy_type_timestamp,
  policy_type_count, check_count, check_timestamp, validate_filters, validate,
}

-- A filter that says how many events to keep, for all or for each principal.
pub record IsCountFilter (f : Filter) : Type 0 where
  pub type : f.policy_action.type ≡ policy_type_count
  pub volume : 0 < f.policy_action.volume
  pub period : f.policy_action.retention_period ≡ 0
  pub group :
      (f.policy_action.rule_group ≡ rule_grouping_global)
      ⊎ (f.policy_action.rule_group ≡ rule_grouping_principal)

-- A filter that says how long to keep events, for all: a negative period is let through.
pub record IsTimestampFilter (f : Filter) : Type 0 where
  pub type : f.policy_action.type ≡ policy_type_timestamp
  pub period : f.policy_action.retention_period ≢ 0
  pub volume : f.policy_action.volume ≡ 0
  pub group :
      (f.policy_action.rule_group ≡ []) ⊎ (f.policy_action.rule_group ≡ rule_grouping_global)

unfoldable pub count_filters : List Filter → ℕ
count_filters [] = 0
count_filters (f ∷ fs) =
    let rest = count_filters fs in
    if bytes_eq f.policy_action.type policy_type_count then suc rest else rest

pub record IsValidPolicy (p : RetentionPolicy) : Type 0 where
  pub some_filter : 0 < length p.filters
  pub each : All (λ f. IsCountFilter f ⊎ IsTimestampFilter f) p.filters
  pub one_count : count_filters p.filters ≤ 1

bytes_eq_other : {g h : List ℕ} → g ≢ h → bytes_eq g h ≡ false
bytes_eq_other {g} {h} ne = elim (Bool-cases (bytes_eq g h)) [
  | inl t ↦ absurd (ne (bytes_eq_sound g h t))
  | inr f ↦ f
]

bytes_eq_of : {a b : List ℕ} → a ≡ b → bytes_eq a b ≡ true
bytes_eq_of {a} {b} e = subst (λ x. bytes_eq a x ≡ true) e (bytes_eq_refl a)

check_count_iff :
    (f : Filter)
    → f.policy_action.type ≡ policy_type_count
    → (check_count f.policy_action ≡ none) ↔ IsCountFilter f
unfolding check_count
check_count_iff f t = (
  λ h. record {
    type = t;
    volume = ground arith;
    period = ground arith;
    group = elim (Bool-cases (bytes_eq f.policy_action.rule_group rule_grouping_global)) [
      | inl g ↦ inl (bytes_eq_sound f.policy_action.rule_group rule_grouping_global g)
      | inr g ↦
          inr (bytes_eq_sound f.policy_action.rule_group rule_grouping_principal (ground arith))
    ];
  },
  λ v. elim v.group [
    | inl g ↦
        let h : bytes_eq f.policy_action.rule_group rule_grouping_global ≡ true = bytes_eq_of g in
        ground arith
    | inr g ↦
        let h : bytes_eq f.policy_action.rule_group rule_grouping_principal ≡ true =
          bytes_eq_of g in
        ground arith
  ],
)

check_timestamp_iff :
    (f : Filter)
    → f.policy_action.type ≡ policy_type_timestamp
    → (check_timestamp f.policy_action ≡ none) ↔ IsTimestampFilter f
unfolding check_timestamp
check_timestamp_iff f t = (
  λ h. record {
    type = t;
    volume = ground arith;
    period = λ z. ground arith;
    group = elim (Bool-cases (bytes_eq f.policy_action.rule_group [])) [
      | inl g ↦ inl (bytes_eq_sound f.policy_action.rule_group [] g)
      | inr g ↦ inr (bytes_eq_sound f.policy_action.rule_group rule_grouping_global (ground arith))
    ];
  },
  λ v. elim v.group [
    | inl g ↦ let h : bytes_eq f.policy_action.rule_group [] ≡ true = bytes_eq_of g in ground arith
    | inr g ↦
        let h : bytes_eq f.policy_action.rule_group rule_grouping_global ≡ true = bytes_eq_of g in
        ground arith
  ],
)

-- One more filter in the loop, for the three kinds of type it tells apart.
abbrev IsPolicyFilter : Filter → Type 0
IsPolicyFilter f = IsCountFilter f ⊎ IsTimestampFilter f

abbrev one_if : Bool → ℕ
one_if true = 1
one_if false = 0

validate_filters-count :
    (b : Bool) (f : Filter) (fs : List Filter)
    → bytes_eq f.policy_action.type policy_type_count ≡ true
    → (validate_filters b (f ∷ fs) ≡ none)
      ↔ ((b ≡ false) × ((check_count f.policy_action ≡ none) × (validate_filters true fs ≡ none)))
unfolding validate_filters
validate_filters-count b f fs c = elim (Option-cases (check_count f.policy_action)) [
  | inl n ↦ (λ h. (ground arith, (n, ground arith)), λ k. ground arith)
  | inr (e, s) ↦ (λ h. ground arith, λ k. ground arith)
]

validate_filters-timestamp :
    (b : Bool) (f : Filter) (fs : List Filter)
    → bytes_eq f.policy_action.type policy_type_count ≡ false
    → (validate_filters b (f ∷ fs) ≡ none) ↔ (
        (bytes_eq f.policy_action.type policy_type_timestamp ≡ true)
        × ((check_timestamp f.policy_action ≡ none) × (validate_filters b fs ≡ none)))
unfolding validate_filters
validate_filters-timestamp b f fs c = elim (Option-cases (check_timestamp f.policy_action)) [
  | inl n ↦ (λ h. (ground arith, (n, ground arith)), λ k. ground arith)
  | inr (e, s) ↦ (λ h. ground arith, λ k. ground arith)
]

-- What the loop accepts, given whether a count filter came before.
abbrev IsAccepted : Bool → List Filter → Type 0
IsAccepted b fs = All IsPolicyFilter fs × (count_filters fs + one_if b ≤ 1)

validate_filters_sound :
    (b : Bool) (fs : List Filter) → validate_filters b fs ≡ none → IsAccepted b fs
unfolding validate_filters count_filters
validate_filters_sound true [] h = (tt, ground arith)
validate_filters_sound false [] h = (tt, ground arith)
validate_filters_sound b (f ∷ fs) h =
    elim (Bool-cases (bytes_eq f.policy_action.type policy_type_count)) [
      | inl c ↦
          let (e, (v, r)) = (validate_filters-count b f fs c).0 h in
          let (a, n) = validate_filters_sound true fs r in
          (
            (inl ((check_count_iff f (bytes_eq_sound _ _ c)).0 v), a),
            subst (λ x. count_filters (f ∷ fs) + one_if x ≤ 1) (sym e) (ground arith),
          )
      | inr c ↦
          let (t, (v, r)) = (validate_filters-timestamp b f fs c).0 h in
          let (a, n) = validate_filters_sound b fs r in
          ((inr ((check_timestamp_iff f (bytes_eq_sound _ _ t)).0 v), a), ground arith)
    ]

-- The two kinds of filter have different types.
type_not_count : {t : List ℕ} → t ≡ policy_type_timestamp → bytes_eq t policy_type_count ≡ false
unfolding bytes_eq
type_not_count e = subst (λ t. bytes_eq t policy_type_count ≡ false) (sym e) refl

validate_filters_complete :
    (b : Bool) (fs : List Filter) → IsAccepted b fs → validate_filters b fs ≡ none
unfolding validate_filters count_filters
validate_filters_complete b [] k = refl
validate_filters_complete true (f ∷ fs) ((inl v, a), n) =
    absurd (let c = bytes_eq_of v.type in ground arith)
validate_filters_complete false (f ∷ fs) ((inl v, a), n) =
    let c = bytes_eq_of v.type in
    let r = validate_filters_complete true fs (a, ground arith) in
    (validate_filters-count false f fs c).1 (refl, ((check_count_iff f v.type).1 v, r))
validate_filters_complete b (f ∷ fs) ((inr v, a), n) =
    let c = type_not_count v.type in
    let r = validate_filters_complete b fs (a, ground arith) in
    (validate_filters-timestamp b f fs c).1
      (bytes_eq_of v.type, ((check_timestamp_iff f v.type).1 v, r))

-- Validate accepts exactly the policies that have a filter, whose filters are each a count filter with
-- a volume, no period and a group that is global or principal, or a timestamp filter with a period
-- that is not 0, no volume and no group but global, and that have at most one count filter.
pub validate_iff : (p : RetentionPolicy) → (validate p ≡ none) ↔ IsValidPolicy p
unfolding validate
validate_iff p = (
  λ h.
      let (a, n) = validate_filters_sound false p.filters (ground arith) in
      record { some_filter = ground arith; each = a; one_count = ground arith },
  λ v.
      let n = v.some_filter in
      let m = v.one_count in
      let r = validate_filters_complete false p.filters (v.each, ground arith) in ground arith,
)
