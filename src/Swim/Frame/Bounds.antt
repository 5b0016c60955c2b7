-- ===== src/Swim/Frame/Bounds.antt =====
-- frame.go: which datagrams Unmarshal reads, and on which it reads past the end of its slice.
use wineventchain.Common.{
  ℕ, ◌+◌, ◌≤◌, ◌<◌, ◌≡◌, ◌↔◌, ap, ◌∙◌, length-slice, ok_injective, ==_iff, guard_ok, assert_ok,
  leb→le, sym, List, ◌++◌, ok, panic, leb, ◌==◌, length, slice, length-append, arith,
}
use wineventchain.Swim.Frame.{
  Frame, get_uint, unmarshal, checksum_ieee, is_one, unexpected_eof, checksum_mismatch,
}

-- Unmarshal panics on exactly the datagrams of 27 bytes or more that reach two bytes, but not
-- four, beyond the source name, in a buffer with no room for the rest of the length field.
pub unmarshal-panic :
    (input spare : List ℕ)
    → let source_len = get_uint (slice input 20 22) in
      (unmarshal input spare ≡ panic) ↔ (
        (27 ≤ length input)
        × (24 + source_len ≤ length input)
        × (length input + length spare < 26 + source_len))
unfolding unmarshal
unmarshal-panic input spare =
    (λ h. ground (arith, length-append input spare), λ h. ground (arith, length-append input spare))

-- What Unmarshal returns lies within the datagram, header and checksum included, its stream
-- identifier is a whole UUID, and the four bytes behind its data are the checksum of all before.
pub unmarshal-fits :
    (input spare : List ℕ) (f : Frame)
    → unmarshal input spare ≡ ok f
    → let end = 26 + length f.source + length f.body in
      (end + 4 ≤ length input)
      × (length f.stream_id ≡ 16)
      × (checksum_ieee (slice input 0 end) ≡ get_uint (slice input end (end + 4)))
unfolding unmarshal
unmarshal-fits input spare f h =
    let source_len = get_uint (slice input 20 22) in
    let offset = 22 + source_len in
    let data_len = get_uint (slice (input ++ spare) offset (offset + 4)) in
    let end = offset + 4 + data_len in
    let total_len = length input in
    let g1 = guard_ok (leb 27 total_len) unexpected_eof _ h in
    let g2 = guard_ok (leb offset total_len) unexpected_eof _ g1.1 in
    let g3 = guard_ok (leb (offset + 2) total_len) unexpected_eof _ g2.1 in
    let g4 = assert_ok (leb (offset + 4) (length (input ++ spare))) _ g3.1 in
    let g5 = guard_ok (leb end total_len) unexpected_eof _ g4.1 in
    let g6 = guard_ok (leb (end + 4) total_len) unexpected_eof _ g5.1 in
    let g7 =
      guard_ok (checksum_ieee (slice input 0 end) == get_uint (slice input end (end + 4)))
        checksum_mismatch _ g6.1 in
    let read_frame : Frame = record {
      is_compressed = is_one (slice input 0 1);
      stream_id = slice input 1 17;
      frame_number = get_uint (slice input 17 19);
      is_last = is_one (slice input 19 20);
      source = slice input 22 offset;
      body = slice input (offset + 4) end;
    } in
    let fits : end + 4 ≤ length input = leb→le (end + 4) total_len g6.0 in
    let read : read_frame ≡ f = ok_injective g7.1 in
    let source_length : length f.source ≡ source_len =
      sym (ap (λ (g : Frame). length g.source) read)
      ∙ length-slice input 22 offset (omega arith) (omega arith)
      ∙ omega arith in
    let body_length : length f.body ≡ data_len =
      sym (ap (λ (g : Frame). length g.body) read)
      ∙ length-slice input (offset + 4) end (omega arith) (omega arith)
      ∙ omega arith in
    let total : 26 + length f.source + length f.body ≡ end = omega arith in
    (
      omega arith,
      sym (ap (λ (g : Frame). length g.stream_id) read)
          ∙ length-slice input 1 17 (omega arith) (omega arith),
      rw total ((==_iff _ _).0 g7.0),
    )
