-- ===== src/Chain/Events/Types/Encoding.antt =====
-- common/pkg/types/events/txhash.go and guid.go: hashes and GUIDs in JSON.
use wineventchain.Common.{
  ℕ, ◌-◌, ◌<◌, ◌≡◌, refl, not, List, [], ◌∷◌, ◌++◌, Option, none, some, Outcome, ok, err, ◌>>◌,
  guard, ◌==◌, ltb, length, slice, hex_encode, hex_decode, hex_decode-hex_encode, codes, bytes_eq,
  if◌then◌else◌, All, arith, length-append, slice_of,
}

pub data EncodingError : Type 0 where
  too_short bad_hex bad_length bad_uuid : EncodingError

-- TxHash.MarshalJSON and UnmarshalJSON
unfoldable pub marshal_tx_hash : List ℕ → List ℕ
marshal_tx_hash t = b'"' ∷ (hex_encode t ++ b'"' ∷ [])

unfoldable pub unmarshal_tx_hash : List ℕ → Outcome EncodingError (List ℕ)
unmarshal_tx_hash input = do
  guard (not (ltb (length input) 2)) too_short
  elim (hex_decode (slice input 1 (length input - 1))) [ none ↦ err bad_hex | some t ↦ ok t ]

-- A hash is read back from its JSON.
pub unmarshal_tx_hash-marshal_tx_hash :
    (t : List ℕ) → All (λ b. b < 256) t → unmarshal_tx_hash (marshal_tx_hash t) ≡ ok t
unfolding unmarshal_tx_hash marshal_tx_hash
unmarshal_tx_hash-marshal_tx_hash t h =
    let text = hex_encode t in
    let input = b'"' ∷ (text ++ b'"' ∷ []) in
    let size = length-append text (b'"' ∷ []) in
    let part : slice input 1 (length input - 1) ≡ text =
      slice_of input (b'"' ∷ []) text (b'"' ∷ []) 1 (length input - 1) refl refl
        (omega (arith, size)) in
    let decoded = hex_decode-hex_encode t h in ground (arith, size, part, decoded)

-- google/uuid's String and ParseBytes.
pub record UuidText : Type 0 where
  pub print : List ℕ → List ℕ
  pub parse : List ℕ → Option (List ℕ)

-- The text of a UUID has 36 characters, and is read back.
pub record UuidTextLaws (uuid : UuidText) : Type 0 where
  pub length-print : (g : List ℕ) → length g ≡ 16 → length (uuid.print g) ≡ 36
  pub parse-print : (g : List ℕ) → length g ≡ 16 → uuid.parse (uuid.print g) ≡ some g

-- Guid.MarshalJSON, and UnmarshalJSON on a GUID that holds `old`: null leaves it as it is.
unfoldable pub marshal_guid : UuidText → List ℕ → List ℕ
marshal_guid uuid g = (b'"' ∷ b'{' ∷ []) ++ (uuid.print g ++ (b'}' ∷ b'"' ∷ []))

unfoldable pub unmarshal_guid : UuidText → List ℕ → List ℕ → Outcome EncodingError (List ℕ)
unmarshal_guid uuid old input = if bytes_eq input (codes "null") then ok old else do
  guard (length input == 40) bad_length
  elim (uuid.parse (slice input 2 38)) [ none ↦ err bad_uuid | some g ↦ ok g ]

-- A GUID of 16 bytes is read back from its JSON, whatever was there before.
pub unmarshal_guid-marshal_guid :
    (uuid : UuidText)
    → UuidTextLaws uuid
    → (g old : List ℕ) → length g ≡ 16
    → unmarshal_guid uuid old (marshal_guid uuid g) ≡ ok g
unfolding unmarshal_guid marshal_guid bytes_eq
unmarshal_guid-marshal_guid uuid laws g old h =
    let text = uuid.print g in
    let input = (b'"' ∷ b'{' ∷ []) ++ (text ++ (b'}' ∷ b'"' ∷ [])) in
    let size = length-append text (b'}' ∷ b'"' ∷ []) in
    let long = laws.length-print g h in
    let part : slice input 2 38 ≡ text =
      slice_of input (b'"' ∷ b'{' ∷ []) text (b'}' ∷ b'"' ∷ []) 2 38 refl refl
        (omega (arith, long)) in
    let parsed = laws.parse-print g h in ground (arith, size, part, parsed, long)
