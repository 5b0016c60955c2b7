-- ===== src/Common/Hex.antt =====
-- encoding/hex of Go's standard library: lower case is written, both cases are read.
use Prim.Native.Nat.{ℕ, ◌+◌, ◌-◌, ◌*◌, ◌/◌, ◌%◌, ◌<◌}
use mathlib.Core.Path.{◌≡◌, refl}
use mathlib.Core.Bool.{◌&&◌}
use mathlib.Core.List.{List, [], ◌∷◌}
use mathlib.Core.Option.{Option, none, some}
use native.Mathlib.Omega.{arith}
use wineventchain.Common.Tests.{leb, ltb, if◌then◌else◌, All}

unfoldable pub hex_digit : ℕ → ℕ
hex_digit n = if ltb n 10 then b'0' + n else b'a' + n - 10

unfoldable pub hex_value : ℕ → Option ℕ
hex_value c =
    if leb b'0' c && leb c b'9'
    then some (c - b'0')
    else if leb b'a' c && leb c b'f'
    then some (c - b'a' + 10)
    else if leb b'A' c && leb c b'F'
    then some (c - b'A' + 10)
    else none

-- hex.EncodeToString
unfoldable pub hex_encode : List ℕ → List ℕ
unfolding hex_digit
hex_encode [] = []
hex_encode (b ∷ bs) = hex_digit (b / 16) ∷ hex_digit (b % 16) ∷ hex_encode bs

pair : Option ℕ → Option ℕ → Option (List ℕ) → Option (List ℕ)
pair (some h) (some l) (some bs) = some ((h * 16 + l) ∷ bs)
pair _ _ _ = none

-- hex.DecodeString, which fails on a character that is no digit and on an odd length.
unfoldable pub hex_decode : List ℕ → Option (List ℕ)
unfolding hex_value pair
hex_decode [] = some []
hex_decode (c ∷ []) = none
hex_decode (c ∷ (d ∷ cs)) = pair (hex_value c) (hex_value d) (hex_decode cs)

hex_value-hex_digit : (n : ℕ) → n < 16 → hex_value (hex_digit n) ≡ some n
unfolding hex_value hex_digit
hex_value-hex_digit n h = ground arith

pub hex_decode-hex_encode :
    (bs : List ℕ) → All (λ b. b < 256) bs → hex_decode (hex_encode bs) ≡ some bs
unfolding hex_decode hex_encode
hex_decode-hex_encode [] h = refl
hex_decode-hex_encode (b ∷ bs) h = ground (
  arith,
  hex_value-hex_digit (b / 16) (omega arith),
  hex_value-hex_digit (b % 16) (omega arith),
  hex_decode-hex_encode bs h.1,
)
