-- ===== src/Swim/Frame/RoundTrip.antt =====
-- frame.go: what Marshal writes, Unmarshal reads back.
use wineventchain.Common.{
  ℕ, ◌+◌, ◌^◌, ◌<◌, ◌≡◌, refl, ap, ◌∙◌, Bool, true, false, List, [], ◌∷◌, ◌++◌, append_assoc, ok,
  length, slice, length-append, arith, slice_of,
}
use wineventchain.Swim.Frame.{
  Frame, flag_byte, put_u16, put_u32, get_uint, marshal_content, marshal, unmarshal, is_one,
  checksum_ieee,
}

-- The ranges of the fields: a UUID has 16 bytes, and the numbers are unsigned of 16 and 32 bits.
pub record IsWellFormed (f : Frame) : Type 0 where
  pub stream : length f.stream_id ≡ 16
  pub number : f.frame_number < 2 ^ 16
  pub source : length f.source < 2 ^ 16
  pub body : length f.body < 2 ^ 32

u16_lem : (n : ℕ) → n < 2 ^ 16 → get_uint (put_u16 n) ≡ n
u16_lem n h = omega arith

u32_lem : (n : ℕ) → n < 2 ^ 32 → get_uint (put_u32 n) ≡ n
u32_lem n h = omega arith

checksum_range : (bs : List ℕ) → checksum_ieee bs < 2 ^ 32
unfolding checksum_ieee
checksum_range bs = omega arith

pub length-marshal :
    (f : Frame)
    → length f.stream_id ≡ 16
    → length (marshal f) ≡ 30 + length f.source + length f.body
unfolding marshal marshal_content
length-marshal f h = simp length-append (omega arith)

-- The buffer before and after each field, and the field at its offsets.
module _ (f : Frame) (rest : List ℕ) where
  abbrev after_body : List ℕ
  after_body = put_u32 (checksum_ieee (marshal_content f)) ++ rest

  abbrev after_source : List ℕ
  after_source = put_u32 (length f.body) ++ (f.body ++ after_body)

  abbrev after_last : List ℕ
  after_last = put_u16 (length f.source) ++ (f.source ++ after_source)

  abbrev after_number : List ℕ
  after_number = (flag_byte f.is_last ∷ []) ++ after_last

  abbrev before_number : List ℕ
  before_number = flag_byte f.is_compressed ∷ f.stream_id

  abbrev before_last : List ℕ
  before_last = before_number ++ put_u16 f.frame_number

  abbrev before_source_len : List ℕ
  before_source_len = before_last ++ (flag_byte f.is_last ∷ [])

  abbrev before_source : List ℕ
  before_source = before_source_len ++ put_u16 (length f.source)

  abbrev before_body : List ℕ
  before_body = before_source ++ (f.source ++ put_u32 (length f.body))

  module _ (w : IsWellFormed f) where
    slice_flag : slice (marshal f ++ rest) 0 1 ≡ flag_byte f.is_compressed ∷ []
    unfolding marshal marshal_content
    slice_flag = refl

    slice_stream : slice (marshal f ++ rest) 1 17 ≡ f.stream_id
    unfolding marshal marshal_content
    slice_stream =
        slice_of (marshal f ++ rest) (flag_byte f.is_compressed ∷ []) f.stream_id
          (put_u16 f.frame_number ++ after_number) 1 17 (simp append_assoc) refl
          (omega (arith, w.stream))

    slice_number : slice (marshal f ++ rest) 17 19 ≡ put_u16 f.frame_number
    unfolding marshal marshal_content
    slice_number =
        slice_of (marshal f ++ rest) before_number (put_u16 f.frame_number) after_number 17 19
          (simp append_assoc) (omega (arith, w.stream)) refl

    slice_last : slice (marshal f ++ rest) 19 20 ≡ flag_byte f.is_last ∷ []
    unfolding marshal marshal_content
    slice_last =
        slice_of (marshal f ++ rest) before_last (flag_byte f.is_last ∷ []) after_last 19 20
          (simp append_assoc) (simp length-append (omega (arith, w.stream))) refl

    slice_source_len : slice (marshal f ++ rest) 20 22 ≡ put_u16 (length f.source)
    unfolding marshal marshal_content
    slice_source_len =
        slice_of (marshal f ++ rest) before_source_len (put_u16 (length f.source))
          (f.source ++ after_source) 20 22 (simp append_assoc)
          (simp length-append (omega (arith, w.stream))) refl

    slice_source : slice (marshal f ++ rest) 22 (22 + length f.source) ≡ f.source
    unfolding marshal marshal_content
    slice_source =
        slice_of (marshal f ++ rest) before_source f.source after_source 22 (22 + length f.source)
          (simp append_assoc) (simp length-append (omega (arith, w.stream))) refl

    slice_data_len :
        slice (marshal f ++ rest) (22 + length f.source) (22 + length f.source + 4)
        ≡ put_u32 (length f.body)
    unfolding marshal marshal_content
    slice_data_len =
        slice_of (marshal f ++ rest) (before_source ++ f.source) (put_u32 (length f.body))
          (f.body ++ after_body) (22 + length f.source) (22 + length f.source + 4)
          (simp append_assoc) (simp length-append (omega (arith, w.stream))) refl

    slice_body :
        slice
          (marshal f ++ rest)
          (22 + length f.source + 4)
          (22 + length f.source + 4 + length f.body)
        ≡ f.body
    unfolding marshal marshal_content
    slice_body =
        slice_of (marshal f ++ rest) before_body f.body after_body (22 + length f.source + 4)
          (22 + length f.source + 4 + length f.body) (simp append_assoc)
          (simp length-append (omega (arith, w.stream))) refl

    slice_content :
        slice (marshal f ++ rest) 0 (22 + length f.source + 4 + length f.body) ≡ marshal_content f
    unfolding marshal
    slice_content =
        slice_of (marshal f ++ rest) [] (marshal_content f) after_body 0
          (22 + length f.source + 4 + length f.body) (simp append_assoc) refl
          (unfold marshal_content in simp length-append (omega (arith, w.stream)))

    slice_checksum :
        slice
          (marshal f ++ rest)
          (22 + length f.source + 4 + length f.body)
          (22 + length f.source + 4 + length f.body + 4)
        ≡ put_u32 (checksum_ieee (marshal_content f))
    unfolding marshal
    slice_checksum =
        slice_of (marshal f ++ rest) (marshal_content f)
          (put_u32 (checksum_ieee (marshal_content f))) rest
          (22 + length f.source + 4 + length f.body) (22 + length f.source + 4 + length f.body + 4)
          (simp append_assoc)
          (unfold marshal_content in simp length-append (omega (arith, w.stream))) refl

    source_len_read : get_uint (slice (marshal f ++ rest) 20 22) ≡ length f.source
    source_len_read = ap get_uint slice_source_len ∙ u16_lem (length f.source) w.source

    number_read : get_uint (slice (marshal f ++ rest) 17 19) ≡ f.frame_number
    number_read = ap get_uint slice_number ∙ u16_lem f.frame_number w.number

    body_len_read :
        get_uint (slice (marshal f ++ rest) (22 + length f.source) (22 + length f.source + 4))
        ≡ length f.body
    body_len_read = ap get_uint slice_data_len ∙ u32_lem (length f.body) w.body

    checksum_read :
        get_uint (
          slice
            (marshal f ++ rest)
            (22 + length f.source + 4 + length f.body)
            (22 + length f.source + 4 + length f.body + 4))
        ≡ checksum_ieee (marshal_content f)
    checksum_read = ap get_uint slice_checksum ∙ u32_lem _ (checksum_range (marshal_content f))

is_one-flag_byte : (b : Bool) → is_one (flag_byte b ∷ []) ≡ b
unfolding is_one flag_byte
is_one-flag_byte true = refl
is_one-flag_byte false = refl

-- A frame within the ranges of its fields is read back from its bytes, whatever bytes follow it
-- in the datagram, and whatever lies beyond the datagram in its buffer.
pub unmarshal-marshal :
    (f : Frame) (rest spare : List ℕ) → IsWellFormed f → unmarshal (marshal f ++ rest) spare ≡ ok f
unfolding unmarshal
unmarshal-marshal f rest spare w =
    rw
      (
        source_len_read f rest w,
        append_assoc (marshal f) rest spare,
        body_len_read f (rest ++ spare) w,
        checksum_read f rest w,
        slice_content f rest w,
        slice_flag f rest w,
        slice_stream f rest w,
        number_read f rest w,
        slice_last f rest w,
        slice_source f rest w,
        slice_body f rest w,
        is_one-flag_byte f.is_compressed,
        is_one-flag_byte f.is_last,
      )
      (ground (
        arith,
        length-append (marshal f) rest,
        length-append (marshal f) (rest ++ spare),
        length-marshal f w.stream,
      ))
