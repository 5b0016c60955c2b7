-- ===== src/Swim/Frame.antt =====
-- offchain-interface/pkg/transport/swim/frame.go: one frame of a fragmented message, its byte
-- format and the room that a frame leaves for data. Bytes are numbers; a Go string is its bytes.
pub mod RoundTrip
pub mod Bounds
use Prim.Native.Nat.{bit_xor}
use wineventchain.Common.{
  ℕ, zero, suc, ◌+◌, ◌-◌, ◌*◌, ◌/◌, ◌%◌, ◌^◌, Bool, true, false, List, [], ◌∷◌, ◌++◌, Outcome, ok,
  err, ◌>>=◌, ◌>>◌, guard, assert, leb, ◌==◌, if◌then◌else◌, length, slice,
}

pub record Frame : Type 0 where
  pub is_compressed : Bool
  pub stream_id : List ℕ
  pub frame_number : ℕ
  pub is_last : Bool
  pub source : List ℕ
  pub body : List ℕ

pub data FrameError : Type 0 where
  unexpected_eof checksum_mismatch : FrameError

unfoldable pub new_frame : Bool → List ℕ → ℕ → Bool → List ℕ → List ℕ → Frame
new_frame is_compressed stream_id frame_number is_last source body = record {
  is_compressed = is_compressed;
  stream_id = stream_id;
  frame_number = frame_number;
  is_last = is_last;
  source = source;
  body = body;
}

-- binary.LittleEndian, on 16 and 32 bits.
abbrev pub put_u16 : ℕ → List ℕ
put_u16 n = n % 256 ∷ n / 256 % 256 ∷ []

abbrev pub put_u32 : ℕ → List ℕ
put_u32 n = n % 256 ∷ n / 256 % 256 ∷ n / 65536 % 256 ∷ n / 16777216 % 256 ∷ []

-- The number that little-endian bytes stand for.
abbrev pub get_uint : List ℕ → ℕ
get_uint [] = 0
get_uint (b ∷ bs) = b + 256 * get_uint bs

-- hash/crc32 with the IEEE polynomial, bit by bit.
unfoldable pub crc_shift : ℕ → ℕ → ℕ
crc_shift zero c = c
crc_shift (suc n) c = crc_shift n (if c % 2 == 1 then bit_xor (c / 2) 0xEDB88320 else c / 2)

unfoldable pub crc_update : ℕ → List ℕ → ℕ
unfolding crc_shift
crc_update c [] = c
crc_update c (b ∷ bs) = crc_update (crc_shift 8 (bit_xor c (b % 256))) bs

unfoldable pub checksum_ieee : List ℕ → ℕ
unfolding crc_update
checksum_ieee bs = bit_xor (crc_update 0xFFFFFFFF bs) 0xFFFFFFFF % 2 ^ 32

-- frame.Marshal. The lengths are converted to uint16 and uint32, and so wrap.
unfoldable pub flag_byte : Bool → ℕ
flag_byte true = 1
flag_byte false = 0

-- The bytes that the checksum covers.
unfoldable pub marshal_content : Frame → List ℕ
unfolding flag_byte
marshal_content f =
    (flag_byte f.is_compressed ∷ [])
    ++ (f.stream_id
        ++ (put_u16 f.frame_number
            ++ ((flag_byte f.is_last ∷ [])
                ++ (put_u16 (length f.source)
                    ++ (f.source ++ (put_u32 (length f.body) ++ f.body))))))

unfoldable pub marshal : Frame → List ℕ
unfolding marshal_content
marshal f = marshal_content f ++ put_u32 (checksum_ieee (marshal_content f))

unfoldable pub is_one : List ℕ → Bool
is_one [] = false
is_one (b ∷ bs) = b == 1

-- frame.Unmarshal of the slice `input`, whose array goes on with the bytes `spare` up to its
-- capacity: the four bytes of the data length are read up to the capacity, and beyond it the
-- slice expression panics. The other slices lie within the length by the checks before them.
unfoldable pub unmarshal : List ℕ → List ℕ → Outcome FrameError Frame
unfolding is_one
unmarshal input spare = do
  guard (leb 27 (length input)) unexpected_eof
  let source_len = get_uint (slice input 20 22)
  guard (leb (22 + source_len) (length input)) unexpected_eof
  let offset = 22 + source_len
  guard (leb (offset + 2) (length input)) unexpected_eof
  assert (leb (offset + 4) (length (input ++ spare)))
  let data_len = get_uint (slice (input ++ spare) offset (offset + 4))
  guard (leb (offset + 4 + data_len) (length input)) unexpected_eof
  let end = offset + 4 + data_len
  guard (leb (end + 4) (length input)) unexpected_eof
  let received_checksum = get_uint (slice input end (end + 4))
  guard (checksum_ieee (slice input 0 end) == received_checksum) checksum_mismatch
  ok (record {
    is_compressed = is_one (slice input 0 1);
    stream_id = slice input 1 17;
    frame_number = get_uint (slice input 17 19);
    is_last = is_one (slice input 19 20);
    source = slice input 22 offset;
    body = slice input (offset + 4) end;
  })

pub data SizeError : Type 0 where
  mtu_too_small : SizeError

-- calculateMaxDataBytes
unfoldable pub header_bytes : List ℕ → ℕ
header_bytes source_name = 1 + 16 + 2 + 1 + 2 + length source_name + 4 + 4

unfoldable pub calculate_max_data_bytes : ℕ → List ℕ → Outcome SizeError ℕ
unfolding header_bytes
calculate_max_data_bytes mtu source_name =
    if leb mtu (header_bytes source_name)
    then err mtu_too_small
    else ok (mtu - header_bytes source_name)
