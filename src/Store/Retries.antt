-- ===== src/Store/Retries.antt =====
-- leveldbstore.go: what a retry and a removal do to a missing event.
use wineventchain.Common.{
  ℕ, ◌+◌, ◌^◌, ◌<◌, ◌≡◌, ◌≢◌, ◌∙◌, inl, inr, true, List, ok, length, arith, Outcome-cases,
}
use wineventchain.Store.Codec.{
  TimeFormat, MissingEvent, marshal_missing_event, unmarshal_missing_event,
}
use wineventchain.Store.Codec.RoundTrip.{
  TimeFormatLaws, unmarshal_missing_event-marshal_missing_event,
}
use wineventchain.Store.LevelDb.{LevelDb, LevelDbLaws, optional, with_transaction}
use wineventchain.Store.Events.{
  missing_event_key, index_key, found_index, retried, increment_missing_event_retry_count,
}

module _ (db : LevelDb) (time : TimeFormat) (laws : LevelDbLaws db) where
  -- A missing event that the index finds.
  pub record Stored (s : db.State) (event_id id : List ℕ) (event : MissingEvent time) : Type 0 where
    pub indexed : db.get s (index_key db time event_id) ≡ ok id
    pub bytes : List ℕ
    pub there : db.get s (missing_event_key db time id) ≡ ok bytes
    pub decoded : unmarshal_missing_event time bytes ≡ ok event

  -- The index has keys of its own.
  apart : (event_id id : List ℕ) → missing_event_key db time id ≢ index_key db time event_id
  unfolding missing_event_key index_key
  apart event_id id h = ground arith

  -- What the transaction of a retry comes to.
  record Retry (now : time.Time) (s s' : db.State) (event_id id : List ℕ)
      (event : MissingEvent time) : Type 0 where
    encoded : List ℕ
    written : marshal_missing_event time (retried db time now event) ≡ ok encoded
    here : db.get s' (missing_event_key db time id) ≡ ok encoded
    others : (k : List ℕ) → missing_event_key db time id ≢ k → db.get s' k ≡ db.get s k

  increment-Retry :
      (now : time.Time) (s s' : db.State) (event_id id : List ℕ) (event : MissingEvent time)
      → Stored s event_id id event
      → increment_missing_event_retry_count db time now s event_id ≡ ok (s', tt)
      → Retry now s s' event_id id event
  unfolding increment_missing_event_retry_count with_transaction found_index optional
  increment-Retry now s s' event_id id event st h = elim (Outcome-cases (db.open_transaction s)) [
    | inr (inl (x, e)) ↦ absurd (ground arith)
    | inr (inr e) ↦ absurd (ground arith)
    | inl (tx, e) ↦
        let key = missing_event_key db time id in
        let found : db.get tx (index_key db time event_id) ≡ ok id =
          laws.get_open s tx (index_key db time event_id) e ∙ st.indexed in
        let entry : db.get tx key ≡ ok st.bytes = laws.get_open s tx key e ∙ st.there in
        let read = st.decoded in
        elim (Outcome-cases (marshal_missing_event time (retried db time now event))) [
          | inr (inl (x, f)) ↦ absurd (ground arith)
          | inr (inr f) ↦ absurd (ground arith)
          | inl (encoded, f) ↦ elim (Outcome-cases (db.put tx key encoded)) [
            | inr (inl (x, g)) ↦ absurd (ground arith)
            | inr (inr g) ↦ absurd (ground arith)
            | inl (tx', g) ↦
                let done : db.commit s tx' ≡ ok s' = elim (Outcome-cases (db.commit s tx')) [
                  | inl (s1, c) ↦ ground arith
                  | inr (inl (x, c)) ↦ absurd (ground arith)
                  | inr (inr c) ↦ absurd (ground arith)
                ] in
                record {
                  encoded = encoded;
                  written = f;
                  here = laws.get_commit s tx' s' key done ∙ laws.get_put tx tx' key encoded g;
                  others = λ k n.
                      laws.get_commit s tx' s' k done
                      ∙ laws.get_put_ne tx tx' key encoded k g n
                      ∙ laws.get_open s tx k e;
                }
          ]
        ]
  ]

  -- A retry of a missing event that the index finds counts it, marks it as retried by unicast and
  -- changes no other entry of the database. The time of the retry is lost: the time of receipt is
  -- read back for it.
  pub increment_missing_event_retry_count-Stored :
      (times : TimeFormatLaws time) (now : time.Time) (s s' : db.State) (event_id id : List ℕ)
      (event : MissingEvent time)
      → length event.event_id < 2 ^ 15
      → event.block_height < 2 ^ 64
      → event.retry_count + 1 < 2 ^ 64
      → Stored s event_id id event
      → increment_missing_event_retry_count db time now s event_id ≡ ok (s', tt)
      → Stored s' event_id id (record event {
        retried_unicast = true;
        last_retry_time = event.received_time;
        retry_count = event.retry_count + 1;
      })
        × ((k : List ℕ) → missing_event_key db time id ≢ k → db.get s' k ≡ db.get s k)
  unfolding retried
  increment_missing_event_retry_count-Stored times now s s' event_id id event short height retries
        st h =
      let r = increment-Retry now s s' event_id id event st h in
      (
        record {
          indexed = r.others (index_key db time event_id) (apart event_id id) ∙ st.indexed;
          bytes = r.encoded;
          there = r.here;
          decoded =
              unmarshal_missing_event-marshal_missing_event time (retried db time now event)
                r.encoded times short height retries r.written;
        },
        r.others,
      )
