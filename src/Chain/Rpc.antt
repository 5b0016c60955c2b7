-- ===== src/Chain/Rpc.antt =====
-- common/pkg/types/rpc/rpc.go: signed payloads and the check of their signature. Ed25519 is the
-- parameter `verify`; crypto/ed25519 panics on a public key that is not 32 bytes long.
pub mod Signing
use wineventchain.Common.{
  ℕ, ◌≡◌, Bool, List, Option, none, some, Outcome, ok, err, panic, ◌==◌, if◌then◌else◌, length,
  hex_decode, hex_encode,
}
use wineventchain.Chain.Response.{Failure, invalid_hex}

pub record SignedPayload : Type 0 where
  pub type : List ℕ
  pub body : List ℕ
  pub principal : List ℕ
  pub signature : List ℕ

abbrev pub Verify : Type 0
Verify = List ℕ → List ℕ → List ℕ → Bool

abbrev pub code_unknown_request_type : ℕ
code_unknown_request_type = 1

abbrev pub code_invalid_signature : ℕ
code_invalid_signature = 2

-- ed25519.Verify
unfoldable pub ed25519_verify : Verify → List ℕ → List ℕ → List ℕ → Outcome Failure Bool
ed25519_verify verify public_key message signature =
    if length public_key == 32 then ok (verify public_key message signature) else panic

-- SignedPayload.ValidateSignature
unfoldable pub validate_signature : Verify → SignedPayload → List ℕ → Outcome Failure Bool
unfolding ed25519_verify
validate_signature verify p public_key = elim (hex_decode p.signature) [
  | none ↦ err invalid_hex
  | some signature ↦ ed25519_verify verify public_key p.body signature
]

-- rpc.sign
unfoldable pub sign : (List ℕ → List ℕ → List ℕ) → List ℕ → List ℕ → List ℕ → List ℕ → SignedPayload
sign signing type body signer signer_key = record {
  type = type;
  body = body;
  principal = signer;
  signature = hex_encode (signing signer_key body);
}
