-- ===== src/Chain/Events/Types.antt =====
-- common/pkg/types/events: the events, their hashes, and the text forms of hashes and GUIDs. A
-- number is its bit pattern, a time its nanoseconds; SHA-256, the parser of UUIDs and the JSON of an
-- event are parameters.
pub mod Encoding
use wineventchain.Common.{
  ℕ, ◌-◌, ◌≡◌, List, [], ◌∷◌, ◌++◌, Option, none, some, Outcome, ok, err, panic, ◌>>=◌,
  put_little_endian,
}
use wineventchain.Chain.Response.{Failure}

pub record Provider : Type 0 where
  pub name : Option (List ℕ)
  pub guid : Option (List ℕ)
  pub event_source_name : Option (List ℕ)

pub record Correlation : Type 0 where
  pub activity_id : Option (List ℕ)

pub record Execution : Type 0 where
  pub process_id : Option ℕ
  pub thread_id : Option ℕ

-- The time as its nanoseconds and the offset of its zone, both of which are in its JSON.
pub record TimeCreated : Type 0 where
  pub nanoseconds : ℕ
  pub offset : ℕ

pub record System : Type 0 where
  pub provider : Provider
  pub event_id : ℕ
  pub time_created : TimeCreated
  pub event_record_id : ℕ
  pub correlation : Correlation
  pub execution : Execution
  pub channel : List ℕ
  pub computer : List ℕ

pub record Event : Type 0 where
  pub system : System

pub record EventDatum : Type 0 where
  pub name : Option (List ℕ)
  pub value : Option (List ℕ)

abbrev pub EventData : Type 0
EventData = List EventDatum

pub record EventWithData : Type 0 where
  pub event : Event
  pub event_data : EventData

pub record ScrubbedEvent : Type 0 where
  pub off_chain_hash : List ℕ
  pub event : Event

pub record Metadata : Type 0 where
  pub event_id : List ℕ
  pub received_time : ℕ
  pub principal : List ℕ

pub record EventWithMetadata : Type 0 where
  pub scrubbed : ScrubbedEvent
  pub metadata : Metadata

pub record StoredEvent : Type 0 where
  pub event_with_data : EventWithData
  pub metadata : Metadata
  pub tx_hash : List ℕ

-- A nil pointer writes nothing.
unfoldable pub text_of : Option (List ℕ) → List ℕ
text_of none = []
text_of (some text) = text

-- What EventData.Hash writes to the digest.
unfoldable pub digest_of : EventData → List ℕ
unfolding text_of
digest_of [] = []
digest_of (d ∷ ds) = text_of d.name ++ (text_of d.value ++ digest_of ds)

unfoldable pub hash_event_data : (List ℕ → List ℕ) → EventData → List ℕ
hash_event_data sha256 d = sha256 (digest_of d)

-- NewEventHash
unfoldable pub new_event_hash :
    (List ℕ → List ℕ)
    → (Event → Outcome Failure (List ℕ))
    → ℕ
    → List ℕ
    → Event
    → Outcome Failure (List ℕ)
new_event_hash sha256 marshal block_height principal event = do
  event_bytes ← marshal event
  ok (sha256 (put_little_endian 8 block_height ++ (principal ++ event_bytes)))
