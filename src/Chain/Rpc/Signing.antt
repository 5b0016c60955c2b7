-- ===== src/Chain/Rpc/Signing.antt =====
-- common/pkg/types/rpc/rpc.go: a payload that was signed has a valid signature.
use wineventchain.Common.{ℕ, ◌<◌, ◌≡◌, true, List, All, ok, length, hex_decode-hex_encode, arith}
use wineventchain.Chain.Rpc.{Verify, ed25519_verify, validate_signature, sign}

-- The signature that signing puts on a payload is accepted under the public key of 32 bytes that
-- verifies it, when it consists of bytes.
pub validate_signature-sign :
    (verify : Verify) (signing : List ℕ → List ℕ → List ℕ)
    (type body signer signer_key public_key : List ℕ)
    → All (λ b. b < 256) (signing signer_key body)
    → length public_key ≡ 32
    → verify public_key body (signing signer_key body) ≡ true
    → validate_signature verify (sign signing type body signer signer_key) public_key ≡ ok true
unfolding validate_signature sign ed25519_verify
validate_signature-sign verify signing type body signer signer_key public_key bytes size valid =
    let decoded = hex_decode-hex_encode (signing signer_key body) bytes in ground arith
