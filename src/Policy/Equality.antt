-- ===== src/Policy/Equality.antt =====
-- common/pkg/types/offchain/retentionpolicies.go: what the Equal methods decide.
use wineventchain.Common.{
  ◌≡◌, ◌↔◌, refl, Bool, true, List, [], ◌∷◌, Option, none, some, bytes_eq, bytes_eq_sound,
  bytes_eq_refl, ◌==◌, ==_refl, arith, subst, ◌&&◌, ap, ap₂,
}
use wineventchain.Policy.{
  Filter, StoredPolicy, is_equal, match_equal, action_equal, filter_equal, filters_equal,
  stored_equal,
}

-- A test on a type that answers true exactly on equal values.
record Decides {ℓ} {A : Type ℓ} (eq : A → A → Bool) : Type ℓ where
  sound : (a b : A) → eq a b ≡ true → a ≡ b
  reflexive : (a : A) → eq a a ≡ true

bytes_eq-Decides : Decides bytes_eq
bytes_eq-Decides = record { sound = bytes_eq_sound; reflexive = bytes_eq_refl }

==-Decides : Decides (◌==◌)
==-Decides = record { sound = λ a b h. ground arith; reflexive = ==_refl }

is_equal_sound {ℓ} :
    {A : Type ℓ} {eq : A → A → Bool}
    → Decides eq
    → (a b : Option A) → is_equal eq a b ≡ true
    → a ≡ b
unfolding is_equal
is_equal_sound d none none h = refl
is_equal_sound d none (some y) h = ground arith
is_equal_sound d (some x) none h = ground arith
is_equal_sound d (some x) (some y) h = ap some (d.sound x y h)

is_equal_refl {ℓ} :
    {A : Type ℓ} {eq : A → A → Bool} → Decides eq → (a : Option A) → is_equal eq a a ≡ true
unfolding is_equal
is_equal_refl d none = refl
is_equal_refl d (some x) = d.reflexive x

is_equal-Decides {ℓ} : {A : Type ℓ} {eq : A → A → Bool} → Decides eq → Decides (is_equal eq)
is_equal-Decides d = record { sound = is_equal_sound d; reflexive = is_equal_refl d }

both : {a b : Bool} → a && b ≡ true → (a ≡ true) × (b ≡ true)
both {a} {b} h = (ground arith, ground arith)

both_of : {a b : Bool} → a ≡ true → b ≡ true → a && b ≡ true
both_of h k = ap₂ (◌&&◌) h k

match_equal-Decides : Decides match_equal
unfolding match_equal
match_equal-Decides =
    let text = is_equal-Decides bytes_eq-Decides in
    let number = is_equal-Decides ==-Decides in
    record {
      sound = λ m n h.
          let (c, r) = both h in
          let (e, g) = both r in
          let same_channel = text.sound m.channel n.channel c in
          let same_event = number.sound m.event_id n.event_id e in
          let same_provider = text.sound m.provider_guid n.provider_guid g in
          λ i. record {
            channel = same_channel i;
            event_id = same_event i;
            provider_guid = same_provider i;
          };
      reflexive = λ m.
          both_of (text.reflexive m.channel)
            (both_of (number.reflexive m.event_id) (text.reflexive m.provider_guid));
    }

action_equal-Decides : Decides action_equal
unfolding action_equal
action_equal-Decides = record {
  sound = λ a b h.
      let (t, r) = both h in
      let (g, s) = both r in
      let (p, v) = both s in
      let same_type = bytes_eq_sound a.type b.type t in
      let same_group = bytes_eq_sound a.rule_group b.rule_group g in
      let same_period = ==-Decides.sound a.retention_period b.retention_period p in
      let same_volume = ==-Decides.sound a.volume b.volume v in
      λ i. record {
        type = same_type i;
        rule_group = same_group i;
        retention_period = same_period i;
        volume = same_volume i;
      };
  reflexive = λ a. both_of (bytes_eq_refl a.type) (
      both_of (bytes_eq_refl a.rule_group)
        (both_of (==_refl a.retention_period) (==_refl a.volume)));
}

filter_equal-Decides : Decides filter_equal
unfolding filter_equal
filter_equal-Decides = record {
  sound = λ f g h.
      let (l, r) = both h in
      let (m, a) = both r in
      let same_label = bytes_eq_sound f.label g.label l in
      let same_match = match_equal-Decides.sound f.match_on g.match_on m in
      let same_action = action_equal-Decides.sound f.policy_action g.policy_action a in
      λ i. record { label = same_label i; match_on = same_match i; policy_action = same_action i };
  reflexive = λ f. both_of (bytes_eq_refl f.label) (
      both_of (match_equal-Decides.reflexive f.match_on)
        (action_equal-Decides.reflexive f.policy_action));
}

filters_equal_sound : (fs gs : List Filter) → filters_equal fs gs ≡ true → fs ≡ gs
unfolding filters_equal
filters_equal_sound [] [] h = refl
filters_equal_sound [] (g ∷ gs) h = ground arith
filters_equal_sound (f ∷ fs) [] h = ground arith
filters_equal_sound (f ∷ fs) (g ∷ gs) h =
    let (e, r) = both h in
    ap₂ (◌∷◌) (filter_equal-Decides.sound f g e) (filters_equal_sound fs gs r)

filters_equal_refl : (fs : List Filter) → filters_equal fs fs ≡ true
unfolding filters_equal
filters_equal_refl [] = refl
filters_equal_refl (f ∷ fs) = both_of (filter_equal-Decides.reflexive f) (filters_equal_refl fs)

stored_equal_sound : (p q : StoredPolicy) → stored_equal p q ≡ true → p ≡ q
unfolding stored_equal
stored_equal_sound p q h =
    let (f, r) = both h in
    let (a, t) = both r in
    let same_filters = filters_equal_sound p.policy.filters q.policy.filters f in
    let same_author = bytes_eq_sound p.author q.author a in
    let same_time = ==-Decides.sound p.applied_at q.applied_at t in
    λ i. record {
      policy = record { filters = same_filters i };
      author = same_author i;
      applied_at = same_time i;
    }

stored_equal_refl : (p : StoredPolicy) → stored_equal p p ≡ true
unfolding stored_equal
stored_equal_refl p =
    both_of (filters_equal_refl p.policy.filters)
      (both_of (bytes_eq_refl p.author) (==_refl p.applied_at))

-- Equal on stored policies answers true exactly when the two have the same filters, in the same
-- order and field by field, the same author and the same time, a nil pointer being only equal to nil.
pub stored_equal_iff : (p q : StoredPolicy) → (stored_equal p q ≡ true) ↔ (p ≡ q)
stored_equal_iff p q =
    (stored_equal_sound p q, λ e. subst (λ x. stored_equal p x ≡ true) e (stored_equal_refl p))
