-- ===== src/Tests/PolicyTests.antt =====
-- A block that sets a policy and one that tries to again, on small parameters: the theorems of the
-- Policy and Chain/Retention modules at them.
use wineventchain.Common.{
  ℕ, ◌≡◌, ◌⊎◌, inl, inr, ◌↔◌, refl, true, List, [], ◌∷◌, none, some, Outcome, ok, err, arith,
  replicate, ap, sym, bytes_eq, codes, is_set, hex_decode, ok_injective, if◌then◌else◌,
  put_little_endian, Bool-cases, bytes_eq_refl,
}
use mathlib.Core.Option
use wineventchain.Chain.Response.{
  retention_policy, Failure, json_failure, FinalizeBlockResponse, CheckTxResponse,
}
use wineventchain.Chain.Tree.Assoc.{assoc_tree, Entries, lookup}
use wineventchain.Chain.Rpc.{Verify, validate_signature}
use wineventchain.Chain.Identity.Repository.{IdentityCodec, get, role_admin, principal_key}
use wineventchain.Policy.{
  Filter, RetentionPolicy, StoredPolicy, validate, validate_filters, check_count, stored_equal,
  filters_equal, filter_equal, match_equal, action_equal, is_equal, new_stored_policy,
  policy_type_count, rule_grouping_principal,
}
use wineventchain.Policy.Validation.{IsValidPolicy, validate_iff}
use wineventchain.Policy.Equality.{stored_equal_iff}
use wineventchain.Policy.Duration.{
  IsReadable, unmarshal_duration, marshal_duration, match_units, span_digits, match_unit, put_group,
  after_space, or_else, total, read_digits, parse_duration,
}
use wineventchain.Common.{subst, some-injective, All, arith, ◌<◌}
use wineventchain.Chain.Retention.App.{
  Db, DbLaws, Formats, FormatLaws, HasReadablePeriods, RetentionApp, check_tx, finalize_block,
  new_retention_app, answered_hash, request_type_set_policy, db_key, finalize, decode, admit,
  read_policy, app_hash, run_commit,
}
use wineventchain.Chain.Retention.Query.{query, unmarshal-query}
use wineventchain.Chain.Response.{QueryResponse}
use wineventchain.Common.{false, ◌↔◌, is_set}
use wineventchain.Chain.Retention.Checks.{Sets, retention_check-finalize, finalize_block-Sets}
use wineventchain.Chain.Retention.History.{
  finalize_all, commit_all, run_block, IsProper, policy_is_final, first_policy,
}

-- Keep the last 1000 events of each principal on a channel.
abbrev security_filter : Filter
security_filter = record {
  label = codes "security";
  match_on = record { channel = some (codes "Security"); event_id = none; provider_guid = none };
  policy_action = record {
    type = policy_type_count;
    rule_group = rule_grouping_principal;
    retention_period = 0;
    volume = 1000;
  };
}

abbrev security_policy : RetentionPolicy
security_policy = record { filters = security_filter ∷ [] }

validate_iff_example : (validate security_policy ≡ none) ↔ IsValidPolicy security_policy
validate_iff_example = validate_iff security_policy

abbrev admin : List ℕ
admin = codes "admin"

abbrev stored : StoredPolicy
stored = record { policy = security_policy; author = admin; applied_at = 77 }

stored_equal_iff_example : (stored_equal stored stored ≡ true) ↔ (stored ≡ stored)
stored_equal_iff_example = stored_equal_iff stored stored

abbrev codec : IdentityCodec
codec = record {
  marshal = λ d. ok d.public_key;
  unmarshal = λ bs. ok (record { public_key = bs; role = role_admin });
}

abbrev db : Db
db = record { State = Entries; get = λ s k. ok (lookup s k); set = λ s k v. ok ((k, v) ∷ s) }

db_laws : DbLaws db
db_laws = record { get_set = λ s s' k v e. rw (← ok_injective e, bytes_eq_refl k) }

-- Only one stored policy has a JSON.
abbrev formats : Formats
formats = record {
  payload = λ input. ok (record {
    type = request_type_set_policy;
    body = input;
    principal = admin;
    signature = codes "0a";
  });
  set_policy = λ body. ok security_policy;
  set_policy_response = ok [];
  marshal = λ p. if stored_equal p stored then ok (1 ∷ []) else err (json_failure []);
  unmarshal = λ bs. ok stored;
  hash = λ p. ok (if is_set p then 1 else 0);
  print_duration = λ d. codes "0s";
}

-- The period of the filter is written as "0s".
zero_period : IsReadable (λ d. codes "0s") 0
unfolding unmarshal_duration marshal_duration bytes_eq match_units span_digits match_unit put_group
    after_space or_else total read_digits parse_duration
zero_period = refl

duration_with_units : parse_duration (codes "1h30m0s") ≡ some 5400000000000
unfolding parse_duration bytes_eq match_units span_digits match_unit put_group after_space or_else
    total read_digits
duration_with_units = refl

duration_with_fraction : parse_duration (codes "1.5s") ≡ none
unfolding parse_duration bytes_eq match_units span_digits match_unit put_group after_space or_else
    total read_digits
duration_with_fraction = refl

format_laws : FormatLaws formats
format_laws = record {
  IsUtf8 = λ p. All (λ c. c < 128) p.author;
  unmarshal-marshal = λ p bs u r e. elim (Bool-cases (stored_equal p stored)) [
    | inl same ↦ ap ok (sym ((stored_equal_iff p stored).0 same))
    | inr other ↦ absurd (ground arith)
  ];
}

abbrev verify_all : Verify
verify_all key message signature = true

abbrev App : Type 0
App = RetentionApp assoc_tree codec db formats verify_all

abbrev unset_app : App
unset_app = record {
  identities = ((codes "principal/admin", replicate 32 7) ∷ [], 1);
  store = [];
  policy = none;
  tx_policy = none;
}

abbrev pending_app : App
pending_app = record unset_app { tx_policy = some stored }

abbrev set_app : App
set_app = record unset_app { policy = some stored; store = (db_key, 1 ∷ []) ∷ [] }

run_first :
    run_block assoc_tree codec db formats verify_all unset_app 77 ((1 ∷ []) ∷ (1 ∷ []) ∷ [])
    ≡ some (set_app, ok tt)
unfolding run_block finalize_all finalize_block finalize admit decode get bytes_eq principal_key
    validate_signature hex_decode is_set answered_hash read_policy validate validate_filters
    check_count commit_all run_commit new_stored_policy stored_equal filters_equal filter_equal
    match_equal action_equal is_equal
run_first = refl

set_app-clean :
    (p : StoredPolicy)
    → set_app.policy ≡ some p
    → format_laws.IsUtf8 p × HasReadablePeriods formats p
unfolding format_laws
set_app-clean p h =
    subst (λ q. format_laws.IsUtf8 q × HasReadablePeriods formats q) (some-injective stored p h)
      (omega arith, (zero_period, tt))

first_policy_example :
    (set_app ≡ unset_app)
    ⊎ ((p : StoredPolicy) × IsProper assoc_tree codec db formats verify_all unset_app 77
          ((1 ∷ []) ∷ (1 ∷ []) ∷ [])
          p
        × (set_app.policy ≡ some p)
        × (new_retention_app assoc_tree codec db formats verify_all set_app.identities set_app.store
            ≡ ok set_app))
first_policy_example =
    first_policy assoc_tree codec db formats verify_all db_laws format_laws unset_app set_app 77
      ((1 ∷ []) ∷ (1 ∷ []) ∷ []) run_first set_app-clean

run_second :
    run_block assoc_tree codec db formats verify_all set_app 78 ((1 ∷ []) ∷ [])
    ≡ some (set_app, ok tt)
unfolding run_block finalize_all finalize_block finalize admit decode get bytes_eq principal_key
    validate_signature hex_decode is_set commit_all
run_second = refl

policy_is_final_example :
    ◌≡◌ {A = App × Outcome Failure (Unit {0})} (set_app, ok tt) (set_app, ok tt)
policy_is_final_example =
    policy_is_final assoc_tree codec db formats verify_all set_app stored 78 ((1 ∷ []) ∷ [])
      (set_app, ok tt) refl run_second

abbrev set_response : FinalizeBlockResponse StoredPolicy
set_response = record {
  tx_result = record { code = 0; codespace = retention_policy; log = none };
  app_hash = 0 ∷ 0 ∷ 0 ∷ 0 ∷ 0 ∷ 0 ∷ 0 ∷ 0 ∷ [];
  commit_func = some stored;
}

set_once :
    finalize_block assoc_tree codec db formats verify_all 77 unset_app (1 ∷ [])
    ≡ some (pending_app, set_response)
unfolding finalize_block finalize admit decode get bytes_eq principal_key validate_signature
    hex_decode is_set answered_hash app_hash put_little_endian read_policy validate validate_filters
    check_count new_stored_policy
set_once = refl

finalize_block-Sets_example :
    Sets assoc_tree codec db formats verify_all 77 (1 ∷ []) unset_app pending_app (some stored)
finalize_block-Sets_example =
    finalize_block-Sets assoc_tree codec db formats verify_all 77 unset_app (1 ∷ []) pending_app
      set_response set_once

hash_of_unset :
    answered_hash assoc_tree codec db formats verify_all unset_app
    ≡ ok (0 ∷ 0 ∷ 0 ∷ 0 ∷ 0 ∷ 0 ∷ 0 ∷ 0 ∷ [])
unfolding answered_hash app_hash put_little_endian is_set
hash_of_unset = refl

retention_check-finalize_example :
    Option.map
      (λ (r : CheckTxResponse). r.code)
      (check_tx assoc_tree codec db formats verify_all unset_app (1 ∷ []))
    ≡ Option.map
        (λ (r : App × FinalizeBlockResponse StoredPolicy). r.1.tx_result.code)
        (finalize_block assoc_tree codec db formats verify_all 77 unset_app (1 ∷ []))
retention_check-finalize_example =
    retention_check-finalize assoc_tree codec db formats verify_all unset_app 77 (1 ∷ [])
      (0 ∷ 0 ∷ 0 ∷ 0 ∷ 0 ∷ 0 ∷ 0 ∷ 0 ∷ []) [] hash_of_unset refl

abbrev set_answer : QueryResponse
set_answer = record { code = 0; codespace = retention_policy; log = none; value = 1 ∷ [] }

answer_set : query assoc_tree codec db formats verify_all set_app false ≡ ok set_answer
unfolding query stored_equal filters_equal filter_equal match_equal action_equal is_equal bytes_eq
answer_set = refl

unmarshal-query_example :
    ((set_answer.code ≡ 0) ↔ (is_set set_app.policy ≡ true))
    × ((p : StoredPolicy) → set_app.policy ≡ some p → formats.unmarshal set_answer.value ≡ ok p)
unmarshal-query_example =
    unmarshal-query assoc_tree codec db formats verify_all set_app set_answer format_laws
      set_app-clean answer_set
