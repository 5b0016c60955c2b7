-- ===== src/Tests/EventsTests.antt =====
-- A block with two events of the administrator of the Chain tests: the theorems of the Events
-- modules at it.
use wineventchain.Common.{
  ℕ, ◌<◌, ◌≡◌, refl, ap, sym, ◌∙◌, true, not, ◌&&◌, Bool, Bool-cases, inl, inr, List, [], ◌∷◌, ◌++◌,
  Option, none, some, Outcome, ok, err, length, arith, replicate, take, drop, take-append,
  drop-append, bytes_eq, codes, contains, All, hex_decode, hex_encode, is_set, put_little_endian,
  subst, ◌==◌, if◌then◌else◌,
}
use wineventchain.Chain.Response.{Failure, json_failure, events, FinalizeBlockResponse, code_ok}
use wineventchain.Chain.Tree.Assoc.{assoc_tree, assoc_laws, assoc_versions, assoc_saved}
use wineventchain.Chain.Proof.{ItemResponse, type_iavl, proof_op_for_tree, get_proof_height}
use wineventchain.Chain.Rpc.{validate_signature}
use wineventchain.Chain.Identity.Repository.{get, principal_key}
use wineventchain.Chain.Events.Types.{Event, EventWithMetadata, new_event_hash}
use wineventchain.Chain.Events.Repository.{
  EventCodec, EventCodecLaw, get_by_event_id, store_event, get_event_with_proof,
}
use wineventchain.Chain.Events.App.{
  EventFormats, EventsApp, request_type_create, decode, read_event, answer, respond, create,
  dispatch, finalize_block, run_commit,
}
use wineventchain.Chain.Events.Checks.{Resets, Creates, finalize_block-Creates}
use wineventchain.Chain.Events.Blocks.{id_of, finalize_all, commit_all, Elsewhere}
use wineventchain.Chain.Events.Commits.{IsSound}
use wineventchain.Chain.Events.History.{Asked, stored_of_commit_all}
use wineventchain.Chain.Events.Query.{
  QueryFormats, query, query_event, match_path, strip_prefix, all_digits,
}
use wineventchain.Chain.Events.Answers.{Answers, query-Answers, event_path}
use wineventchain.Tests.ChainTests.{codec, verify_all, admin, seeded_app}

-- Only events without names are written.
abbrev is_plain : Event → Bool
is_plain e =
    not (is_set e.system.provider.name)
    && (not (is_set e.system.provider.guid)
        && (not (is_set e.system.provider.event_source_name)
            && (not (is_set e.system.correlation.activity_id)
                && (not (is_set e.system.execution.process_id)
                    && (not (is_set e.system.execution.thread_id)
                        && ((length e.system.channel == 0)
                            && ((length e.system.computer == 0)
                                && (e.system.time_created.offset == 0))))))))

abbrev plain_event : ℕ → ℕ → ℕ → Event
plain_event event_id time record_id = record {
  system = record {
    provider = record { name = none; guid = none; event_source_name = none };
    event_id = event_id;
    time_created = record { nanoseconds = time; offset = 0 };
    event_record_id = record_id;
    correlation = record { activity_id = none };
    execution = record { process_id = none; thread_id = none };
    channel = [];
    computer = [];
  };
}

unset : {A : Type 0} (x : Option A) → not (is_set x) ≡ true → x ≡ none
unfolding is_set
unset none h = refl
unset (some a) h = absurd (ground arith)

empty : (xs : List ℕ) → (length xs == 0) ≡ true → xs ≡ []
empty [] h = refl
empty (x ∷ xs) h = absurd (ground arith)

plain_lem :
    (e : Event)
    → is_plain e ≡ true
    → e ≡ plain_event e.system.event_id e.system.time_created.nanoseconds e.system.event_record_id
plain_lem e h =
    let name = unset e.system.provider.name (ground arith) in
    let guid = unset e.system.provider.guid (ground arith) in
    let source = unset e.system.provider.event_source_name (ground arith) in
    let activity = unset e.system.correlation.activity_id (ground arith) in
    let process = unset e.system.execution.process_id (ground arith) in
    let thread = unset e.system.execution.thread_id (ground arith) in
    let channel = empty e.system.channel (ground arith) in
    let offset : e.system.time_created.offset ≡ 0 = ground arith in
    let computer = empty e.system.computer (ground arith) in
    λ i. record {
      system = record {
        provider = record { name = name i; guid = guid i; event_source_name = source i };
        event_id = e.system.event_id;
        time_created = record {
          nanoseconds = e.system.time_created.nanoseconds;
          offset = offset i;
        };
        event_record_id = e.system.event_record_id;
        correlation = record { activity_id = activity i };
        execution = record { process_id = process i; thread_id = thread i };
        channel = channel i;
        computer = computer i;
      };
    }

abbrev numbers : EventWithMetadata → List ℕ
numbers e =
    e.scrubbed.event.system.event_id
    ∷ e.scrubbed.event.system.time_created.nanoseconds
    ∷ e.scrubbed.event.system.event_record_id
    ∷ e.metadata.received_time
    ∷ length e.scrubbed.off_chain_hash
    ∷ length e.metadata.event_id
    ∷ (e.scrubbed.off_chain_hash ++ (e.metadata.event_id ++ e.metadata.principal))

abbrev read_numbers : List ℕ → Outcome Failure EventWithMetadata
read_numbers (a ∷ b ∷ c ∷ t ∷ n ∷ m ∷ rest) = ok (record {
  scrubbed = record { off_chain_hash = take n rest; event = plain_event a b c };
  metadata = record {
    event_id = take m (drop n rest);
    received_time = t;
    principal = drop m (drop n rest);
  };
})
read_numbers bs = err (json_failure [])

abbrev event_codec : EventCodec
event_codec = record {
  marshal = λ e. if is_plain e.scrubbed.event then ok (numbers e) else err (json_failure []);
  unmarshal = read_numbers;
}

read_numbers-numbers :
    (e : EventWithMetadata) → is_plain e.scrubbed.event ≡ true → read_numbers (numbers e) ≡ ok e
read_numbers-numbers e h =
    let off = e.scrubbed.off_chain_hash in
    let id = e.metadata.event_id in
    let rest = id ++ e.metadata.principal in
    let dropped = drop-append (length off) off rest refl in
    λ i. ok (record {
      scrubbed = record {
        off_chain_hash = take-append (length off) off rest refl i;
        event = sym (plain_lem e.scrubbed.event h) i;
      };
      metadata = record {
        event_id =
            (ap (take (length id)) dropped ∙ take-append (length id) id e.metadata.principal refl)
              i;
        received_time = e.metadata.received_time;
        principal =
            (ap (drop (length id)) dropped ∙ drop-append (length id) id e.metadata.principal refl)
              i;
      };
    })

-- This form keeps any text.
event_codec_law : EventCodecLaw event_codec
event_codec_law = record {
  IsUtf8 = λ e. Unit;
  utf8_unmarshal = λ bs e h. tt;
  unmarshal-marshal = λ e bs u h. elim (Bool-cases (is_plain e.scrubbed.event)) [
    | inl plain ↦
        let written : numbers e ≡ bs = ground arith in
        subst (λ x. read_numbers x ≡ ok e) written (read_numbers-numbers e plain)
    | inr other ↦ absurd (ground arith)
  ];
}

-- The first byte of an input is the kind of the request, the second the number of the event.
abbrev formats : EventFormats
formats = record {
  payload = λ input. elim input [
    | [] ↦ err (json_failure [])
    | kind ∷ rest ↦ ok (record {
      type = if kind == 0 then request_type_create else codes "other";
      body = rest;
      principal = admin;
      signature = codes "0a";
    })
  ];
  create = λ body. elim body [
    | [] ↦ err (json_failure [])
    | n ∷ rest ↦ ok (record { off_chain_hash = rest; event = plain_event n 0 0 })
  ];
  create_response = λ m. ok m.event_id;
  event = λ e. ok (e.system.event_id ∷ []);
  sha256 = λ bs. take 32 (bs ++ replicate 32 0);
}

abbrev App : Type 0
App = EventsApp assoc_tree codec event_codec formats verify_all

abbrev empty_app : App
empty_app = record {
  repository = ([], 0);
  identities = seeded_app.repository;
  version_number = 0;
  creating = [];
}

-- The identifier of event `n` in block 1.
abbrev event_id : ℕ → List ℕ
event_id n = 1 ∷ 0 ∷ 0 ∷ 0 ∷ 0 ∷ 0 ∷ 0 ∷ 0 ∷ (admin ++ (n ∷ replicate 18 0))

abbrev event : ℕ → EventWithMetadata
event n = record {
  scrubbed = record { off_chain_hash = []; event = plain_event n 0 0 };
  metadata = record { event_id = event_id n; received_time = 9; principal = admin };
}

abbrev noted_app : App
noted_app = record empty_app { creating = hex_encode (event_id 4) ∷ hex_encode (event_id 5) ∷ [] }

abbrev stored_app : App
stored_app = record empty_app {
  repository = ((event_id 5, numbers (event 5)) ∷ (event_id 4, numbers (event 4)) ∷ [], 2);
  version_number = 2;
}

-- The third transaction repeats the first.
abbrev inputs : List (List ℕ)
inputs = (0 ∷ 4 ∷ []) ∷ (0 ∷ 5 ∷ []) ∷ (0 ∷ 4 ∷ []) ∷ []

two_events :
    finalize_all assoc_tree codec event_codec formats verify_all 1 9 empty_app inputs
    ≡ some (noted_app, event 4 ∷ event 5 ∷ [])
unfolding finalize_all finalize_block decode get bytes_eq principal_key validate_signature
    hex_decode dispatch create read_event new_event_hash contains respond answer hex_encode
    put_little_endian
two_events = refl

two_commits :
    commit_all assoc_tree codec event_codec formats verify_all noted_app (event 4 ∷ event 5 ∷ [])
    ≡ (stored_app, ok tt)
unfolding commit_all run_commit store_event is_set
two_commits = refl

any_texts : All event_codec_law.IsUtf8 (event 4 ∷ event 5 ∷ [])
unfolding event_codec_law
any_texts = (tt, (tt, tt))

stored_of_commit_all_example :
    All
      (λ e. get_by_event_id assoc_tree event_codec stored_app.repository (id_of e) ≡ ok e)
      (event 4 ∷ event 5 ∷ [])
    × All
        (Asked assoc_tree codec event_codec formats verify_all assoc_laws assoc_versions
          event_codec_law 1 9 empty_app.identities inputs)
        (event 4 ∷ event 5 ∷ [])
    × ((id : List ℕ)
        → Elsewhere id (event 4 ∷ event 5 ∷ [])
        → get_by_event_id assoc_tree event_codec stored_app.repository id
          ≡ get_by_event_id assoc_tree event_codec empty_app.repository id)
    × IsSound assoc_tree codec event_codec formats verify_all assoc_laws assoc_versions
        event_codec_law stored_app
stored_of_commit_all_example =
    stored_of_commit_all assoc_tree codec event_codec formats verify_all assoc_laws assoc_versions
      event_codec_law 1 9 inputs empty_app noted_app stored_app (event 4 ∷ event 5 ∷ [])
      (assoc_saved empty_app.repository 0) two_events two_commits any_texts

abbrev one_app : App
one_app = record empty_app { creating = hex_encode (event_id 4) ∷ [] }

abbrev created : FinalizeBlockResponse EventWithMetadata
created = record {
  tx_result = record { code = code_ok; codespace = events; log = none };
  app_hash = 0 ∷ [];
  commit_func = some (event 4);
}

one_event :
    finalize_block assoc_tree codec event_codec formats verify_all 1 9 empty_app (0 ∷ 4 ∷ [])
    ≡ some (one_app, created)
unfolding finalize_block decode get bytes_eq principal_key validate_signature hex_decode dispatch
    create read_event new_event_hash contains respond answer put_little_endian
one_event = refl

finalize_block-Creates_example :
    (app0 : App) × Resets assoc_tree codec event_codec formats verify_all empty_app app0
    × Creates assoc_tree codec event_codec formats verify_all 1 9
        (0 ∷ 4 ∷ [])
        app0
        one_app
        (some (event 4))
finalize_block-Creates_example =
    finalize_block-Creates assoc_tree codec event_codec formats verify_all 1 9 empty_app
      (0 ∷ 4 ∷ []) one_app created one_event

abbrev queries : QueryFormats
queries = record { proof = λ hash proof. ok (hash ++ proof); count = λ n. ok (n ∷ []) }

event_id_bytes : All (λ b. b < 256) (event_id 4)
event_id_bytes = omega arith

abbrev found_event : ItemResponse
found_event = record {
  response = record { code = code_ok; codespace = events; log = none; value = numbers (event 4) };
  index = 0;
  key = event_id 4;
  height = 1;
  proof_op = some (record { type = type_iavl; key = event_id 4; body = 2 ∷ event_id 4 });
}

asked_event :
    query assoc_tree codec event_codec formats verify_all queries stored_app
      (event_path (event_id 4))
      0
    ≡ some found_event
unfolding query bytes_eq match_path strip_prefix hex_encode all_digits hex_decode query_event
    get_event_with_proof proof_op_for_tree is_set get_proof_height
asked_event = refl

query-Answers_example :
    Answers assoc_tree codec event_codec formats verify_all queries assoc_laws event_codec_law
      stored_app
      (event_id 4)
      found_event
query-Answers_example =
    query-Answers assoc_tree codec event_codec formats verify_all queries assoc_laws event_codec_law
      stored_app (event_id 4) 0 found_event refl event_id_bytes asked_event
