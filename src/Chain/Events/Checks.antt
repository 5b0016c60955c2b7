-- ===== src/Chain/Events/Checks.antt =====
-- wineventchain/pkg/events/app.go: which transactions create an event.
use wineventchain.Common.{
  ℕ, ◌≡◌, ◌≢◌, refl, ◌⊎◌, inl, inr, true, false, List, [], ◌∷◌, ◌++◌, Option, none, some, ok, err,
  bytes_eq, contains, hex_encode, arith, Bool-cases, Outcome-cases,
}
use wineventchain.Chain.Response.{
  ErrorResponse, FinalizeBlockResponse, CheckTxResponse, code_ok, multiplex, new_error_response,
}
use wineventchain.Chain.Tree.{Tree}
use wineventchain.Chain.Rpc.{SignedPayload, Verify, validate_signature}
use wineventchain.Chain.Identity.Repository.{IdentityData, IdentityCodec, get}
use wineventchain.Chain.Events.Types.{ScrubbedEvent, Metadata, EventWithMetadata, new_event_hash}
use wineventchain.Chain.Events.Repository.{EventCodec}
use wineventchain.Chain.Events.App.{
  EventFormats, EventsApp, decode, check, check_tx, read_event, respond, create, dispatch, settle,
  finalize_block, request_type_create, refuse,
}

module _ (tree : Tree) (identity_codec : IdentityCodec) (codec : EventCodec)
    (formats : EventFormats) (verify : Verify) where
  abbrev pub App : Type 0
  App = EventsApp tree identity_codec codec formats verify

  abbrev pub Response : Type 0
  Response = FinalizeBlockResponse EventWithMetadata

  -- The input is a request of a known principal to create the event, with that principal's signature
  -- on it; the identifier of the event is the hash of the height, the principal and the event, and
  -- its time is that of the block.
  pub record IsAuthentic (height time : ℕ) (identities : tree.State) (input : List ℕ)
      (event : EventWithMetadata) : Type 0 where
    pub payload : SignedPayload
    pub parsed : formats.payload input ≡ ok payload
    pub type : bytes_eq payload.type request_type_create ≡ true
    pub given : formats.create payload.body ≡ ok event.scrubbed
    pub requester : IdentityData
    pub known : get tree identity_codec identities payload.principal ≡ ok requester
    pub signed : validate_signature verify payload requester.public_key ≡ ok true
    pub hashed :
        new_event_hash formats.sha256 formats.event height payload.principal event.scrubbed.event
        ≡ ok event.metadata.event_id
    pub principal : event.metadata.principal ≡ payload.principal
    pub received_time : event.metadata.received_time ≡ time

  -- What a transaction does, from the state with the working tree set back.
  pub data Creates (height time : ℕ) (input : List ℕ) (app app' : App)
      (c : Option EventWithMetadata) : Type 0 where
    refused : app' ≡ app → c ≡ none → Creates height time input app app' c
    creates :
        (event : EventWithMetadata)
        → IsAuthentic height time app.identities input event
        → contains app.creating (hex_encode event.metadata.event_id) ≡ false
        → app' ≡ record app { creating = app.creating ++ (hex_encode event.metadata.event_id ∷ []) }
        → (c ≡ some event) ⊎ (c ≡ none)
        → Creates height time input app app' c

  decode-signed :
      (app : App) (input : List ℕ) (payload : SignedPayload)
      → decode tree identity_codec codec formats verify app input ≡ ok payload
      → (formats.payload input ≡ ok payload)
        × (requester : IdentityData) × (get tree identity_codec app.identities payload.principal
            ≡ ok requester)
        × (validate_signature verify payload requester.public_key ≡ ok true)
  unfolding decode
  decode-signed app input payload h = elim (Outcome-cases (formats.payload input)) [
    | inl (p, e) ↦ elim (Outcome-cases (get tree identity_codec app.identities p.principal)) [
      | inl (requester, f) ↦ (ground arith, requester, ground arith, ground arith)
      | inr (inl (x, f)) ↦ absurd (ground arith)
      | inr (inr f) ↦ absurd (ground arith)
    ]
    | inr (inl (x, e)) ↦ absurd (ground arith)
    | inr (inr e) ↦ absurd (ground arith)
  ]

  read_event_fresh :
      (height : ℕ) (app : App) (payload : SignedPayload) (scrubbed : ScrubbedEvent)
      (event_id : List ℕ)
      → read_event tree identity_codec codec formats verify height app payload
        ≡ ok (scrubbed, event_id)
      → (new_event_hash formats.sha256 formats.event height payload.principal scrubbed.event
          ≡ ok event_id)
        × (formats.create payload.body ≡ ok scrubbed)
        × (contains app.creating (hex_encode event_id) ≡ false)
  unfolding read_event
  read_event_fresh height app payload scrubbed event_id h =
      elim (Outcome-cases (formats.create payload.body)) [
        | inl (s, e) ↦
            elim (Outcome-cases
              (new_event_hash formats.sha256 formats.event height payload.principal s.event)) [
                | inl (id, f) ↦ (ground arith, ground arith, ground arith)
                | inr (inl (x, f)) ↦ absurd (ground arith)
                | inr (inr f) ↦ absurd (ground arith)
              ]
        | inr (inl (x, e)) ↦ absurd (ground arith)
        | inr (inr e) ↦ absurd (ground arith)
      ]

  dispatch-Creates :
      (height time : ℕ) (input : List ℕ) (app : App) (payload : SignedPayload)
      (requester : IdentityData) (app' : App) (r : Response)
      → formats.payload input ≡ ok payload
      → get tree identity_codec app.identities payload.principal ≡ ok requester
      → validate_signature verify payload requester.public_key ≡ ok true
      → settle tree identity_codec codec formats verify app
          (dispatch tree identity_codec codec formats verify height time app payload)
        ≡ some (app', r)
      → Creates height time input app app' r.commit_func
  unfolding settle dispatch create respond
  dispatch-Creates height time input app payload requester app' r parsed known signed h =
      elim (Outcome-cases
        (read_event tree identity_codec codec formats verify height app payload)) [
          | inl ((scrubbed, event_id), e) ↦
              let (hashed, given, fresh) =
                read_event_fresh height app payload scrubbed event_id e in
              let metadata : Metadata = record {
                event_id = event_id;
                received_time = time;
                principal = payload.principal;
              } in
              let event : EventWithMetadata = record { scrubbed = scrubbed; metadata = metadata } in
              elim (Bool-cases (bytes_eq payload.type request_type_create)) [
                | inl made ↦
                    let proper : IsAuthentic height time app.identities input event = record {
                      payload = payload;
                      parsed = parsed;
                      type = made;
                      given = given;
                      requester = requester;
                      known = known;
                      signed = signed;
                      hashed = hashed;
                      principal = refl;
                      received_time = refl;
                    } in
                    creates event proper fresh (ground arith) (ground arith)
                | inr other ↦ refused (ground arith) (ground arith)
              ]
          | inr (inl (x, e)) ↦ refused (ground arith) (ground arith)
          | inr (inr e) ↦ refused (ground arith) (ground arith)
        ]

  -- The state in which a transaction runs: the working tree may be set back first.
  pub data Resets (app app0 : App) : Type 0 where
    unloaded : app0 ≡ app → Resets app app0
    loaded :
        (t : tree.State)
        → tree.load_version app.repository app.version_number ≡ ok t
        → app0 ≡ record app { repository = t }
        → Resets app app0

  -- A transaction leaves at most one event, which is the event of the request that its bytes are, as
  -- given in the body: the principal of the request is known, its signature on the request is valid,
  -- and the identifier is the hash of the height, the principal and the event, and new to the block.
  -- Beyond the note of the identifier it only sets the working tree back to the last version.
  pub finalize_block-Creates :
      (height time : ℕ) (app : App) (input : List ℕ) (app' : App) (r : Response)
      → finalize_block tree identity_codec codec formats verify height time app input
        ≡ some (app', r)
      → (app0 : App) × Resets app app0 × Creates height time input app0 app' r.commit_func
  unfolding finalize_block settle
  finalize_block-Creates height time app input app' r h =
      elim (Outcome-cases (decode tree identity_codec codec formats verify app input)) [
        | inl (payload, d) ↦
            elim (Outcome-cases (tree.load_version app.repository app.version_number)) [
              | inl (t, l) ↦
                  let app0 : App = record app { repository = t } in
                  let (parsed, requester, known, signed) = decode-signed app input payload d in
                  (
                    app0,
                    loaded t l refl,
                    dispatch-Creates height time input app0 payload requester app' r parsed known
                        signed (ground arith),
                  )
              | inr (inl (x, l)) ↦ (app, unloaded refl, refused (ground arith) (ground arith))
              | inr (inr l) ↦ absurd (ground arith)
            ]
        | inr (inl (x, d)) ↦ (app, unloaded refl, refused (ground arith) (ground arith))
        | inr (inr d) ↦ absurd (ground arith)
      ]

  decode_fails :
      (app : App) (input : List ℕ) (e : ErrorResponse)
      → decode tree identity_codec codec formats verify app input ≡ err e
      → e.code ≢ code_ok
  unfolding decode refuse new_error_response
  decode_fails app input e h = elim (Outcome-cases (formats.payload input)) [
    | inl (p, f) ↦ elim (Outcome-cases (get tree identity_codec app.identities p.principal)) [
      | inl (requester, g) ↦
          elim (Outcome-cases (validate_signature verify p requester.public_key)) [
            | inl (valid, v) ↦ elim (Bool-cases valid) [
              | inl y ↦ ground arith
              | inr n ↦ ground arith
            ]
            | inr (inl (x, v)) ↦ ground arith
            | inr (inr v) ↦ ground arith
          ]
      | inr (inl (x, g)) ↦ ground arith
      | inr (inr g) ↦ ground arith
    ]
    | inr (inl (x, f)) ↦ ground arith
    | inr (inr f) ↦ ground arith
  ]

  dispatch_decodes :
      (height time : ℕ) (app app' : App) (payload : SignedPayload) (r : Response)
      → settle tree identity_codec codec formats verify app
          (dispatch tree identity_codec codec formats verify height time app payload)
        ≡ some (app', r)
      → r.tx_result.code ≡ code_ok
      → (bytes_eq payload.type request_type_create ≡ true)
        × (s : ScrubbedEvent) × (formats.create payload.body ≡ ok s)
  unfolding settle dispatch create read_event refuse new_error_response
  dispatch_decodes height time app app' payload r h k =
      elim (Bool-cases (bytes_eq payload.type request_type_create)) [
        | inl made ↦ elim (Outcome-cases (formats.create payload.body)) [
          | inl (s, e) ↦ (made, s, e)
          | inr (inl (x, e)) ↦ absurd (ground arith)
          | inr (inr e) ↦ absurd (ground arith)
        ]
        | inr other ↦ absurd (ground arith)
      ]

  -- A transaction that FinalizeBlock answers with success passes CheckTx in the same state.
  pub check_tx_of_finalize_block :
      (height time : ℕ) (app : App) (input : List ℕ) (app' : App) (r : Response)
      → finalize_block tree identity_codec codec formats verify height time app input
        ≡ some (app', r)
      → r.tx_result.code ≡ code_ok
      → (c : CheckTxResponse) × (check_tx tree identity_codec codec formats verify app input
          ≡ some c)
        × (c.code ≡ code_ok)
  unfolding finalize_block settle check_tx check refuse new_error_response
  check_tx_of_finalize_block height time app input app' r h k =
      elim (Outcome-cases (decode tree identity_codec codec formats verify app input)) [
        | inl (payload, d) ↦
            elim (Outcome-cases (tree.load_version app.repository app.version_number)) [
              | inl (t, l) ↦
                  let (made, s, e) =
                    dispatch_decodes height time (record app { repository = t }) app' payload r
                      (ground arith) k in
                  (record { code = code_ok; codespace = multiplex; log = none }, ground arith, refl)
              | inr (inl (x, l)) ↦ absurd (ground arith)
              | inr (inr l) ↦ absurd (ground arith)
            ]
        | inr (inl (x, d)) ↦ absurd (decode_fails app input x d (ground arith))
        | inr (inr d) ↦ absurd (ground arith)
      ]
