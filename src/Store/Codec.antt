-- ===== src/Store/Codec.antt =====
-- offchain-interface/pkg/state/store.go and leveldbstore.go: the records, and the bytes of a missing
-- event. An int64 is its bit pattern, an int16 too, which is negative from 2 ^ 15 on; the binary form
-- of a time is a parameter.
pub mod RoundTrip
use wineventchain.Common.{
  ℕ, ◌+◌, ◌-◌, ◌*◌, ◌%◌, ◌^◌, ◌<◌, ◌≡◌, Bool, true, false, List, [], ◌∷◌, ◌++◌, Option, none, some,
  Outcome, ok, err, panic, ◌>>=◌, ◌>>◌, guard, ltb, leb, ◌==◌, if◌then◌else◌, length, slice,
  put_little_endian,
}

pub record BlockRange : Type 0 where
  pub low : ℕ
  pub high : ℕ

pub record BlockRangeWithId : Type 0 where
  pub block_range : BlockRange
  pub id : List ℕ

pub data StoreError : Type 0 where
  invalid_length bad_time bad_key_length bad_counter_length index_not_found not_found bad_limit :
      StoreError
  db_error : List ℕ → StoreError

-- time.Time with its MarshalBinary and UnmarshalBinary.
pub record TimeFormat : Type 1 where
  pub Time : Type 0
  pub marshal : Time → Outcome StoreError (List ℕ)
  pub unmarshal : List ℕ → Outcome StoreError Time

module _ (time : TimeFormat) where
  pub record MissingEvent : Type 0 where
    pub event_id : List ℕ
    pub received_time : time.Time
    pub block_height : ℕ
    pub last_retry_time : time.Time
    pub retried_unicast : Bool
    pub retry_count : ℕ

  pub record MissingEventWithKey : Type 0 where
    pub missing_event : MissingEvent
    pub id : List ℕ

-- The bytes are read in the order in which put_little_endian writes them.
unfoldable pub get_little_endian : List ℕ → ℕ
get_little_endian [] = 0
get_little_endian (b ∷ bs) = b + 256 * get_little_endian bs

-- int16ToBytes, int64ToBytes and boolToBytes
unfoldable pub int16_to_bytes : ℕ → List ℕ
int16_to_bytes n = put_little_endian 2 (n % 2 ^ 16)

unfoldable pub int64_to_bytes : ℕ → List ℕ
int64_to_bytes n = put_little_endian 8 (n % 2 ^ 64)

unfoldable pub bool_to_bytes : Bool → List ℕ
bool_to_bytes true = 1 ∷ []
bool_to_bytes false = 0 ∷ []

-- bytesToInt16 and bytesToInt
unfoldable pub bytes_to_int : List ℕ → ℕ
unfolding get_little_endian
bytes_to_int bs = get_little_endian bs

unfoldable pub is_byte_one : List ℕ → Bool
is_byte_one [] = false
is_byte_one (b ∷ bs) = b == 1

-- The check that a part of the length `n`, an int16, and `extra` bytes behind it lie within the
-- bytes: the slice expression of a negative length panics, unless the check fails before it.
unfoldable pub has_part : ℕ → ℕ → ℕ → ℕ → Outcome StoreError (Unit {0})
has_part size offset n extra =
    if ltb n (2 ^ 15)
    then guard (leb (offset + n + extra) size) invalid_length
    else if ltb (size + (2 ^ 16 - n)) (offset + extra)
    then err invalid_length
    else panic

module _ (time : TimeFormat) where
  -- marshalMissingEvent: the time of the last retry is written from the time of receipt.
  unfoldable pub marshal_missing_event : MissingEvent time → Outcome StoreError (List ℕ)
  unfolding int16_to_bytes int64_to_bytes bool_to_bytes
  marshal_missing_event event = do
    received_time ← time.marshal event.received_time
    last_retry_time ← time.marshal event.received_time
    ok (
        int16_to_bytes (length event.event_id)
        ++ (event.event_id
            ++ (int16_to_bytes (length received_time)
                ++ (received_time
                    ++ (int64_to_bytes event.block_height
                        ++ (int16_to_bytes (length last_retry_time)
                            ++ (last_retry_time
                                ++ (bool_to_bytes event.retried_unicast
                                    ++ int64_to_bytes event.retry_count))))))))

  -- unmarshalMissingEvent
  unfoldable pub unmarshal_missing_event : List ℕ → Outcome StoreError (MissingEvent time)
  unfolding bytes_to_int is_byte_one has_part
  unmarshal_missing_event input = do
    guard (leb 2 (length input)) invalid_length
    let id_len = bytes_to_int (slice input 0 2)
    has_part (length input) 2 id_len 2
    let received_at = 2 + id_len
    let received_len = bytes_to_int (slice input received_at (received_at + 2))
    has_part (length input) (received_at + 2) received_len 10
    let height_at = received_at + 2 + received_len
    let retry_len = bytes_to_int (slice input (height_at + 8) (height_at + 10))
    has_part (length input) (height_at + 10) retry_len 9
    let flag_at = height_at + 10 + retry_len
    received_time ← time.unmarshal (slice input (received_at + 2) height_at)
    last_retry_time ← time.unmarshal (slice input (height_at + 10) flag_at)
    let event : MissingEvent time = record {
      event_id = slice input 2 received_at;
      received_time = received_time;
      block_height = bytes_to_int (slice input height_at (height_at + 8));
      last_retry_time = last_retry_time;
      retried_unicast = is_byte_one (slice input flag_at (flag_at + 1));
      retry_count = bytes_to_int (slice input (flag_at + 1) (flag_at + 9));
    }
    ok event
