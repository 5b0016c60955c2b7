-- ===== src/Store/Events.antt =====
-- leveldbstore.go: the events that are missing, under identifiers that count up, with an index of
-- these by the identifiers of the events.
use wineventchain.Common.{
  ℕ, zero, suc, ◌+◌, ◌==◌, Bool, true, false, List, [], ◌∷◌, ◌++◌, Option, none, some, Outcome, ok,
  err, ◌>>=◌, ◌>>◌, guard, not, if◌then◌else◌, length, codes, bytes_eq,
}
use wineventchain.Store.Codec.{
  StoreError, TimeFormat, MissingEvent, MissingEventWithKey, bad_key_length, bad_limit,
  index_not_found, marshal_missing_event, unmarshal_missing_event,
}
use wineventchain.Store.LevelDb.{LevelDb, Change, puts, deletes, optional, with_transaction}
use wineventchain.Store.Ids.{read_counter, next_ids, last_id}

abbrev pub key_missing_events_id_counter : List ℕ
key_missing_events_id_counter = codes "id_counter_missing_events"

abbrev pub key_prefix_missing_events : List ℕ
key_prefix_missing_events = codes "missing_events_"

abbrev pub key_prefix_missing_events_index : List ℕ
key_prefix_missing_events_index = codes "index_missing_events_"

unfoldable pub trim_prefix : List ℕ → List ℕ → List ℕ → List ℕ
trim_prefix whole [] text = text
trim_prefix whole (c ∷ cs) [] = whole
trim_prefix whole (c ∷ cs) (d ∷ ds) =
    let rest = trim_prefix whole cs ds in if c == d then rest else whole

unfoldable pub is_after : Option (List ℕ) → List ℕ → Bool
is_after none id = true
is_after (some after) id = not (bytes_eq after id)

module _ (db : LevelDb) (time : TimeFormat) where
  unfoldable pub missing_event_key : List ℕ → List ℕ
  missing_event_key id = key_prefix_missing_events ++ id

  unfoldable pub index_key : List ℕ → List ℕ
  index_key event_id = key_prefix_missing_events_index ++ event_id

  -- The loop of MissingEvents with room for `room` more events.
  unfoldable pub collect_events :
      Option (List ℕ)
      → ℕ
      → List (List ℕ × List ℕ)
      → Outcome StoreError (List (MissingEventWithKey time))
  unfolding trim_prefix is_after
  collect_events after room [] = ok []
  collect_events after zero (entry ∷ entries) = ok []
  collect_events after (suc room) ((k, v) ∷ entries) =
      let id = trim_prefix k key_prefix_missing_events k in
      guard (length id == 16) bad_key_length >> elim (is_after after id) [
        | false ↦ collect_events after (suc room) entries
        | true ↦ (do
          event ← unmarshal_missing_event time v
          rest ← collect_events after room entries
          ok (record { missing_event = event; id = id } ∷ rest))
      ]

  -- MissingEvents
  unfoldable pub missing_events :
      db.State → Option (List ℕ) → ℕ → Outcome StoreError (List (MissingEventWithKey time))
  unfolding missing_event_key
  missing_events s after limit = do
    guard (not (limit == 0)) bad_limit
    let entries : List (List ℕ × List ℕ) = elim after [
      | none ↦ db.entries s key_prefix_missing_events
      | some id ↦ db.entries_after s key_prefix_missing_events (missing_event_key id)
    ]
    collect_events after limit entries

  unfoldable pub missing_event_count : db.State → ℕ
  missing_event_count s = length (db.entries s key_prefix_missing_events_index)

  -- What AddMissingEvents writes for one event: the entry that the index had is deleted.
  unfoldable pub event_changes :
      db.State → MissingEvent time → List ℕ → Outcome StoreError (List Change)
  unfolding missing_event_key index_key
  event_changes tx event id = do
    previous ← optional (db.get tx (index_key event.event_id))
    encoded ← marshal_missing_event time event
    let removed : List Change = elim previous [
      | none ↦ []
      | some old ↦ deletes (missing_event_key old) ∷ []
    ]
    ok (
        puts (index_key event.event_id) id
        ∷ (removed ++ (puts (missing_event_key id) encoded ∷ [])))

  unfoldable pub batch_changes :
      db.State → List (MissingEvent time) → List (List ℕ) → Outcome StoreError (List Change)
  batch_changes tx (event ∷ events) (id ∷ ids) = do
    first ← event_changes tx event id
    rest ← batch_changes tx events ids
    ok (first ++ rest)
  batch_changes tx _ _ = ok []

  unfoldable pub with_keys :
      List (MissingEvent time) → List (List ℕ) → List (MissingEventWithKey time)
  with_keys (event ∷ events) (id ∷ ids) =
      record { missing_event = event; id = id } ∷ with_keys events ids
  with_keys _ _ = []

  -- AddMissingEvents with withIncrementingIdBatch
  unfoldable pub add_missing_events :
      db.State
      → List (MissingEvent time)
      → Outcome StoreError (db.State × List (MissingEventWithKey time))
  add_missing_events s events = with_transaction db s λ tx. do
    counter ← read_counter db tx key_missing_events_id_counter
    let ids = next_ids db (length events) counter
    tx1 ← db.put tx key_missing_events_id_counter (last_id db counter ids)
    changes ← batch_changes tx1 events ids
    tx2 ← db.write tx1 changes
    ok (tx2, with_keys events ids)

  unfoldable pub found_index : Option (List ℕ) → Outcome StoreError (List ℕ)
  found_index none = err index_not_found
  found_index (some id) = ok id

  -- An event after one more retry at the time `now`.
  unfoldable pub retried : time.Time → MissingEvent time → MissingEvent time
  retried now event = record event {
    retried_unicast = true;
    last_retry_time = now;
    retry_count = event.retry_count + 1;
  }

  -- IncrementMissingEventRetryCount
  unfoldable pub increment_missing_event_retry_count :
      time.Time → db.State → List ℕ → Outcome StoreError (db.State × Unit {0})
  unfolding found_index retried missing_event_key index_key
  increment_missing_event_retry_count now s event_id = with_transaction db s λ tx. do
    entry ← optional (db.get tx (index_key event_id))
    id ← found_index entry
    bytes ← db.get tx (missing_event_key id)
    event ← unmarshal_missing_event time bytes
    encoded ← marshal_missing_event time (retried now event)
    tx' ← db.put tx (missing_event_key id) encoded
    ok (tx', tt)

  -- RemoveMissingEvent
  unfoldable pub remove_missing_event : db.State → List ℕ → Outcome StoreError (db.State × Unit {0})
  unfolding missing_event_key index_key
  remove_missing_event s event_id = with_transaction db s λ tx. do
    entry ← optional (db.get tx (index_key event_id))
    elim entry [
      | none ↦ ok (tx, tt)
      | some id ↦ db.delete tx (index_key event_id) >>= λ tx1.
          optional (db.delete tx1 (missing_event_key id)) >>= λ deleted. elim deleted [
            | none ↦ ok (tx1, tt)
            | some tx2 ↦ ok (tx2, tt)
          ]
    ]
