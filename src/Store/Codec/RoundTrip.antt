-- ===== src/Store/Codec/RoundTrip.antt =====
-- offchain-interface/pkg/state/leveldbstore.go: a missing event is read back, but for one time.
use wineventchain.Common.{
  ℕ, zero, suc, ◌+◌, ◌/◌, ◌%◌, ◌^◌, ◌<◌, ◌≤◌, ◌≡◌, refl, ap, sym, ◌∙◌, Bool, true, false, List, [],
  ◌++◌, ok, leb, length, slice, slice_of, length-append, append_assoc, append-nil, Outcome-cases,
  inl, inr, put_little_endian, arith,
}
use wineventchain.Store.Codec.{
  TimeFormat, MissingEvent, get_little_endian, int16_to_bytes, int64_to_bytes, bool_to_bytes,
  bytes_to_int, is_byte_one, has_part, marshal_missing_event, unmarshal_missing_event,
}

-- A number of `width` bytes.
abbrev Fits : ℕ → ℕ → Type 0
Fits zero n = n ≡ 0
Fits (suc width) n = Fits width (n / 256)

get_little_endian-put_little_endian :
    (width n : ℕ) → Fits width n → get_little_endian (put_little_endian width n) ≡ n
unfolding get_little_endian put_little_endian
get_little_endian-put_little_endian zero n h = sym h
get_little_endian-put_little_endian (suc width) n h =
    omega (arith, get_little_endian-put_little_endian width (n / 256) h)

length-put_little_endian : (width n : ℕ) → length (put_little_endian width n) ≡ width
unfolding put_little_endian
length-put_little_endian zero n = refl
length-put_little_endian (suc width) n = ap suc (length-put_little_endian width (n / 256))

int16_lem : (n : ℕ) → n < 2 ^ 16 → bytes_to_int (int16_to_bytes n) ≡ n
unfolding bytes_to_int int16_to_bytes
int16_lem n h =
    let same : n % 2 ^ 16 ≡ n = omega arith in
    get_little_endian-put_little_endian 2 (n % 2 ^ 16) (omega arith) ∙ same

pub int64_lem : (n : ℕ) → n < 2 ^ 64 → bytes_to_int (int64_to_bytes n) ≡ n
unfolding bytes_to_int int64_to_bytes
int64_lem n h =
    let same : n % 2 ^ 64 ≡ n = omega arith in
    get_little_endian-put_little_endian 8 (n % 2 ^ 64) (omega arith) ∙ same

bool_lem : (b : Bool) → is_byte_one (bool_to_bytes b) ≡ b
unfolding is_byte_one bool_to_bytes
bool_lem true = refl
bool_lem false = refl

length-bool_to_bytes : (b : Bool) → length (bool_to_bytes b) ≡ 1
unfolding bool_to_bytes
length-bool_to_bytes true = refl
length-bool_to_bytes false = refl

has_part_lem :
    (size offset n extra : ℕ)
    → n < 2 ^ 15
    → offset + n + extra ≤ size
    → has_part size offset n extra ≡ ok tt
unfolding has_part
has_part_lem size offset n extra h k = ground arith

-- The parts of the bytes, in their order.
module _ (l1 id l2 received height l3 retry flag count : List ℕ) where
  abbrev joined : List ℕ
  joined = l1 ++ (id ++ (l2 ++ (received ++ (height ++ (l3 ++ (retry ++ (flag ++ count)))))))

  -- The lengths of those of fixed size.
  record IsSized : Type 0 where
    first : length l1 ≡ 2
    second : length l2 ≡ 2
    third : length l3 ≡ 2
    eight : length height ≡ 8
    one : length flag ≡ 1
    last : length count ≡ 8

  module _ (s : IsSized) where
    length-joined : length joined ≡ 23 + length id + length received + length retry
    length-joined =
        simp length-append (omega (arith, s.first, s.second, s.third, s.eight, s.one, s.last))

    part_l1 : slice joined 0 2 ≡ l1
    part_l1 =
        slice_of joined [] l1
          (id ++ (l2 ++ (received ++ (height ++ (l3 ++ (retry ++ (flag ++ count))))))) 0 2 refl refl
          (omega (arith, s.first))

    part_id : slice joined 2 (2 + length id) ≡ id
    part_id =
        slice_of joined l1 id (l2 ++ (received ++ (height ++ (l3 ++ (retry ++ (flag ++ count)))))) 2
          (2 + length id) refl s.first refl

    part_l2 : slice joined (2 + length id) (2 + length id + 2) ≡ l2
    part_l2 =
        slice_of joined (l1 ++ id) l2 (received ++ (height ++ (l3 ++ (retry ++ (flag ++ count)))))
          (2 + length id) (2 + length id + 2) (simp append_assoc)
          (simp length-append (omega (arith, s.first))) (omega (arith, s.second))

    part_received :
        slice joined (2 + length id + 2) (2 + length id + 2 + length received) ≡ received
    part_received =
        slice_of joined (l1 ++ (id ++ l2)) received (height ++ (l3 ++ (retry ++ (flag ++ count))))
          (2 + length id + 2) (2 + length id + 2 + length received) (simp append_assoc)
          (simp length-append (omega (arith, s.first, s.second))) refl

    abbrev height_at : ℕ
    height_at = 2 + length id + 2 + length received

    part_height : slice joined height_at (height_at + 8) ≡ height
    part_height =
        slice_of joined (l1 ++ (id ++ (l2 ++ received))) height (l3 ++ (retry ++ (flag ++ count)))
          height_at (height_at + 8) (simp append_assoc)
          (simp length-append (omega (arith, s.first, s.second))) (omega (arith, s.eight))

    part_l3 : slice joined (height_at + 8) (height_at + 10) ≡ l3
    part_l3 =
        slice_of joined (l1 ++ (id ++ (l2 ++ (received ++ height)))) l3 (retry ++ (flag ++ count))
          (height_at + 8) (height_at + 10) (simp append_assoc)
          (simp length-append (omega (arith, s.first, s.second, s.eight))) (omega (arith, s.third))

    part_retry : slice joined (height_at + 10) (height_at + 10 + length retry) ≡ retry
    part_retry =
        slice_of joined (l1 ++ (id ++ (l2 ++ (received ++ (height ++ l3))))) retry (flag ++ count)
          (height_at + 10) (height_at + 10 + length retry) (simp append_assoc)
          (simp length-append (omega (arith, s.first, s.second, s.eight, s.third))) refl

    part_flag :
        slice joined (height_at + 10 + length retry) (height_at + 10 + length retry + 1) ≡ flag
    part_flag =
        slice_of joined (l1 ++ (id ++ (l2 ++ (received ++ (height ++ (l3 ++ retry)))))) flag count
          (height_at + 10 + length retry) (height_at + 10 + length retry + 1) (simp append_assoc)
          (simp length-append (omega (arith, s.first, s.second, s.eight, s.third)))
          (omega (arith, s.one))

    part_count :
        slice joined (height_at + 10 + length retry + 1) (height_at + 10 + length retry + 9) ≡ count
    part_count =
        slice_of joined (l1 ++ (id ++ (l2 ++ (received ++ (height ++ (l3 ++ (retry ++ flag)))))))
          count [] (height_at + 10 + length retry + 1) (height_at + 10 + length retry + 9)
          (simp (append_assoc, append-nil))
          (simp length-append (omega (arith, s.first, s.second, s.eight, s.third, s.one)))
          (omega (arith, s.last))

    read_joined :
        (time : TimeFormat) (received_time last_retry_time : time.Time)
        → bytes_to_int l1 ≡ length id
        → bytes_to_int l2 ≡ length received
        → bytes_to_int l3 ≡ length retry
        → length id < 2 ^ 15
        → length received < 2 ^ 15
        → length retry < 2 ^ 15
        → time.unmarshal received ≡ ok received_time
        → time.unmarshal retry ≡ ok last_retry_time
        → unmarshal_missing_event time joined
          ≡ ok (record {
            event_id = id;
            received_time = received_time;
            block_height = bytes_to_int height;
            last_retry_time = last_retry_time;
            retried_unicast = is_byte_one flag;
            retry_count = bytes_to_int count;
          })
    unfolding unmarshal_missing_event
    read_joined time received_time last_retry_time e1 e2 e3 b1 b2 b3 t1 t2 =
        let size = length-joined in
        let long : leb 2 (length joined) ≡ true = ground (arith, size) in
        let n1 : bytes_to_int (slice joined 0 2) ≡ length id = ap bytes_to_int part_l1 ∙ e1 in
        let n2 : bytes_to_int (slice joined (2 + length id) (2 + length id + 2)) ≡ length received =
          ap bytes_to_int part_l2 ∙ e2 in
        let n3 : bytes_to_int (slice joined (height_at + 8) (height_at + 10)) ≡ length retry =
          ap bytes_to_int part_l3 ∙ e3 in
        let c1 = has_part_lem (length joined) 2 (length id) 2 b1 (omega (arith, size)) in
        let c2 =
          has_part_lem (length joined) (2 + length id + 2) (length received) 10 b2
            (omega (arith, size)) in
        let c3 =
          has_part_lem (length joined) (height_at + 10) (length retry) 9 b3 (omega (arith, size)) in
        let u1 : time.unmarshal (slice joined (2 + length id + 2) height_at) ≡ ok received_time =
          ap time.unmarshal part_received ∙ t1 in
        let u2 : time.unmarshal (slice joined (height_at + 10) (height_at + 10 + length retry))
            ≡ ok last_retry_time =
          ap time.unmarshal part_retry ∙ t2 in
        rw (long, n1, c1, n2, c2, n3, c3, u1, u2, part_id, part_height, part_flag, part_count) refl

-- What is assumed of the binary form of a time, and what an event must keep to.
pub record TimeFormatLaws (time : TimeFormat) : Type 0 where
  pub unmarshal-marshal :
      (t : time.Time) (bs : List ℕ) → time.marshal t ≡ ok bs → time.unmarshal bs ≡ ok t
  pub length-marshal : (t : time.Time) (bs : List ℕ) → time.marshal t ≡ ok bs → length bs < 2 ^ 15

length-int16_to_bytes : (n : ℕ) → length (int16_to_bytes n) ≡ 2
unfolding int16_to_bytes
length-int16_to_bytes n = length-put_little_endian 2 (n % 2 ^ 16)

pub length-int64_to_bytes : (n : ℕ) → length (int64_to_bytes n) ≡ 8
unfolding int64_to_bytes
length-int64_to_bytes n = length-put_little_endian 8 (n % 2 ^ 64)

module _ (time : TimeFormat) (e : MissingEvent time) (t : List ℕ) where
  abbrev written_bytes : List ℕ
  written_bytes =
      joined (int16_to_bytes (length e.event_id)) e.event_id (int16_to_bytes (length t)) t
        (int64_to_bytes e.block_height) (int16_to_bytes (length t)) t
        (bool_to_bytes e.retried_unicast) (int64_to_bytes e.retry_count)

  marshal_lem :
      (bs : List ℕ)
      → time.marshal e.received_time ≡ ok t
      → marshal_missing_event time e ≡ ok bs
      → written_bytes ≡ bs
  unfolding marshal_missing_event
  marshal_lem bs written h = ground arith

  read_written :
      TimeFormatLaws time
      → length e.event_id < 2 ^ 15
      → time.marshal e.received_time ≡ ok t
      → unmarshal_missing_event time written_bytes
        ≡ ok (record {
          event_id = e.event_id;
          received_time = e.received_time;
          block_height = bytes_to_int (int64_to_bytes e.block_height);
          last_retry_time = e.received_time;
          retried_unicast = is_byte_one (bool_to_bytes e.retried_unicast);
          retry_count = bytes_to_int (int64_to_bytes e.retry_count);
        })
  read_written laws short written =
      let small = laws.length-marshal e.received_time t written in
      let read = laws.unmarshal-marshal e.received_time t written in
      read_joined (int16_to_bytes (length e.event_id)) e.event_id (int16_to_bytes (length t)) t
        (int64_to_bytes e.block_height) (int16_to_bytes (length t)) t
        (bool_to_bytes e.retried_unicast) (int64_to_bytes e.retry_count)
        (record {
          first = length-int16_to_bytes (length e.event_id);
          second = length-int16_to_bytes (length t);
          third = length-int16_to_bytes (length t);
          eight = length-int64_to_bytes e.block_height;
          one = length-bool_to_bytes e.retried_unicast;
          last = length-int64_to_bytes e.retry_count;
        })
        time e.received_time e.received_time (int16_lem (length e.event_id) (omega arith))
        (int16_lem (length t) (omega arith)) (int16_lem (length t) (omega arith)) short small small
        read read

-- A missing event is read back from its bytes with the time of its receipt as the time of its last
-- retry: that time is not stored.
pub unmarshal_missing_event-marshal_missing_event :
    (time : TimeFormat) (e : MissingEvent time) (bs : List ℕ)
    → TimeFormatLaws time
    → length e.event_id < 2 ^ 15
    → e.block_height < 2 ^ 64
    → e.retry_count < 2 ^ 64
    → marshal_missing_event time e ≡ ok bs
    → unmarshal_missing_event time bs ≡ ok (record e { last_retry_time = e.received_time })
unfolding marshal_missing_event
unmarshal_missing_event-marshal_missing_event time e bs laws short height retries h =
    elim (Outcome-cases (time.marshal e.received_time)) [
      | inl (t, written) ↦
          let restored : (record e {
            block_height = bytes_to_int (int64_to_bytes e.block_height);
            last_retry_time = e.received_time;
            retried_unicast = is_byte_one (bool_to_bytes e.retried_unicast);
            retry_count = bytes_to_int (int64_to_bytes e.retry_count);
          })
              ≡ record e { last_retry_time = e.received_time } =
            (λ i. record e {
              block_height = int64_lem e.block_height height i;
              last_retry_time = e.received_time;
              retried_unicast = bool_lem e.retried_unicast i;
              retry_count = int64_lem e.retry_count retries i;
            }) in
          ap (unmarshal_missing_event time) (sym (marshal_lem time e t bs written h))
          ∙ read_written time e t laws short written
          ∙ ap ok restored
      | inr (inl (x, written)) ↦ absurd (ground arith)
      | inr (inr written) ↦ absurd (ground arith)
    ]
