-- ===== src/Tests/StoreTests.antt =====
-- A missing event in the store of a node, and the heights of some blocks: the theorems of the Store
-- and Harmoniser modules at them.
use wineventchain.Common.{
  ℕ, ◌+◌, ◌^◌, ◌<◌, ◌≡◌, ◌≢◌, refl, ap, sym, true, false, ◌&&◌, not, List, [], ◌∷◌, ◌++◌, some, ok,
  err, All, length, arith, ok_injective, put_little_endian, bytes_eq, lookup, insert, subst,
}
use wineventchain.Store.Codec.{
  StoreError, TimeFormat, MissingEvent, bad_time, marshal_missing_event, unmarshal_missing_event,
}
use wineventchain.Store.Codec.RoundTrip.{
  TimeFormatLaws, unmarshal_missing_event-marshal_missing_event,
}
use wineventchain.Store.LevelDb.{optional, with_transaction}
use wineventchain.Store.LevelDb.Assoc.{assoc_db, assoc_db_laws}
use wineventchain.Store.Events.{missing_event_key, index_key, increment_missing_event_retry_count}
use wineventchain.Store.Retries.{Stored, increment_missing_event_retry_count-Stored}
use wineventchain.Harmoniser.Backlog.{
  Backfill, EventStore, IsDue, handle_missing_event, request_chunk, request_chunk-IsDue,
}

-- A time is one byte.
abbrev short_time : TimeFormat
short_time = record {
  Time = ℕ;
  marshal = λ t. ok (t ∷ []);
  unmarshal = λ bs. elim bs [ [] ↦ err bad_time | t ∷ rest ↦ ok t ];
}

short_time_laws : TimeFormatLaws short_time
short_time_laws = record {
  unmarshal-marshal = λ t bs h. ap short_time.unmarshal (sym (ok_injective h));
  length-marshal = λ t bs h. subst (λ l. length l < 2 ^ 15) (ok_injective h) (omega arith);
}

abbrev missed : MissingEvent short_time
missed = record {
  event_id = 171 ∷ 205 ∷ [];
  received_time = 9;
  block_height = 300;
  last_retry_time = 7;
  retried_unicast = false;
  retry_count = 2;
}

abbrev missed_bytes : List ℕ
missed_bytes =
    (2 ∷ 0 ∷ 171 ∷ 205 ∷ 1 ∷ 0 ∷ 9 ∷ 44 ∷ 1 ∷ 0 ∷ 0 ∷ 0 ∷ 0 ∷ 0 ∷ 0 ∷ [])
    ++ (1 ∷ 0 ∷ 9 ∷ 0 ∷ 2 ∷ 0 ∷ 0 ∷ 0 ∷ 0 ∷ 0 ∷ 0 ∷ 0 ∷ [])

written_missed : marshal_missing_event short_time missed ≡ ok missed_bytes
unfolding marshal_missing_event put_little_endian
written_missed = refl

unmarshal_missing_event-marshal_missing_event_example :
    unmarshal_missing_event short_time missed_bytes ≡ ok (record missed { last_retry_time = 9 })
unmarshal_missing_event-marshal_missing_event_example =
    unmarshal_missing_event-marshal_missing_event short_time missed missed_bytes short_time_laws
      (omega arith) (omega arith) (omega arith) written_missed

abbrev key : List ℕ
key = 0 ∷ 1 ∷ []

abbrev one_missed : assoc_db.State
one_missed =
    (index_key assoc_db short_time (171 ∷ 205 ∷ []), key)
    ∷ (missing_event_key assoc_db short_time key, missed_bytes)
    ∷ []

abbrev retried_bytes : List ℕ
retried_bytes =
    (2 ∷ 0 ∷ 171 ∷ 205 ∷ 1 ∷ 0 ∷ 9 ∷ 44 ∷ 1 ∷ 0 ∷ 0 ∷ 0 ∷ 0 ∷ 0 ∷ 0 ∷ [])
    ++ (1 ∷ 0 ∷ 9 ∷ 1 ∷ 3 ∷ 0 ∷ 0 ∷ 0 ∷ 0 ∷ 0 ∷ 0 ∷ 0 ∷ [])

abbrev one_retried : assoc_db.State
one_retried =
    (index_key assoc_db short_time (171 ∷ 205 ∷ []), key)
    ∷ (missing_event_key assoc_db short_time key, retried_bytes)
    ∷ []

retry_once :
    increment_missing_event_retry_count assoc_db short_time 50 one_missed (171 ∷ 205 ∷ [])
    ≡ ok (one_retried, tt)
unfolding increment_missing_event_retry_count with_transaction optional lookup bytes_eq
    unmarshal_missing_event marshal_missing_event insert put_little_endian
retry_once = refl

missed-Stored :
    Stored assoc_db short_time assoc_db_laws one_missed
      (171 ∷ 205 ∷ [])
      key
      (record missed { last_retry_time = 9 })
unfolding index_key missing_event_key lookup bytes_eq
missed-Stored = record {
  indexed = refl;
  bytes = missed_bytes;
  there = refl;
  decoded = unmarshal_missing_event-marshal_missing_event_example;
}

increment_missing_event_retry_count-Stored_example :
    Stored assoc_db short_time assoc_db_laws one_retried
      (171 ∷ 205 ∷ [])
      key
      (record missed { retried_unicast = true; last_retry_time = 9; retry_count = 3 })
    × ((k : List ℕ)
        → missing_event_key assoc_db short_time key ≢ k
        → assoc_db.get one_retried k ≡ assoc_db.get one_missed k)
increment_missing_event_retry_count-Stored_example =
    increment_missing_event_retry_count-Stored assoc_db short_time assoc_db_laws short_time_laws 50
      one_missed one_retried (171 ∷ 205 ∷ []) key (record missed { last_retry_time = 9 })
      (omega arith) (omega arith) (omega arith) missed-Stored retry_once

abbrev heights : List ℕ
heights = 3 ∷ 4 ∷ 8 ∷ 5 ∷ []

-- A repository without events, and a store that takes everything.
abbrev event_store : EventStore short_time
event_store = record {
  State = ℕ;
  Error = StoreError;
  exists = λ id. ok false;
  remove_event = λ s id. ok (s + 1);
  add_event = λ s ev. ok s;
  remove_range = λ s id. ok s;
  update_range = λ s id l h. ok s;
}

abbrev settings : Backfill
settings = record {
  new_event_ignore_threshold = 5;
  event_max_retries = 3;
  event_retry_interval = 10;
  try_unicast_first = true;
}

-- One event is asked for by unicast, one by multicast, and one has no retries left.
abbrev three_missed : List (MissingEvent short_time)
three_missed =
    missed ∷ record missed { retried_unicast = true } ∷ record missed { retry_count = 3 } ∷ []

chosen :
    request_chunk short_time (λ t. t) event_store settings 100 0 three_missed
    ≡ some (1, record missed { retried_unicast = true } ∷ [], missed ∷ [])
unfolding request_chunk handle_missing_event
chosen = refl

request_chunk-IsDue_example :
    All
      (λ ev.
        IsDue short_time (λ t. t) event_store settings 100 ev
        × ((settings.try_unicast_first && not ev.retried_unicast) ≡ false))
      (record missed { retried_unicast = true } ∷ [])
    × All
        (λ ev.
          IsDue short_time (λ t. t) event_store settings 100 ev
          × ((settings.try_unicast_first && not ev.retried_unicast) ≡ true))
        (missed ∷ [])
request_chunk-IsDue_example =
    request_chunk-IsDue short_time (λ t. t) event_store settings 100 three_missed 0 1
      (record missed { retried_unicast = true } ∷ []) (missed ∷ []) chosen
