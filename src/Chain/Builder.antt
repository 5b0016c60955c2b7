-- ===== src/Chain/Builder.antt =====
-- common/pkg/types/rpc/builder.go, and wrap and unsigned of rpc.go: how a client builds a request.
-- encoding/json and ed25519.Sign are parameters; `none` is nil.
use wineventchain.Common.{
  ℕ, ◌<◌, ◌≡◌, Bool, true, false, List, [], Option, none, some, Outcome, ok, err, ◌>>=◌, bytes_eq,
  if◌then◌else◌, length, All, arith, ap, sym, subst, hex_encode, ◌∙◌, inl, inr, Outcome-cases,
  Option-cases,
}
use wineventchain.Chain.Response.{Failure, decoding_request}
use wineventchain.Chain.Rpc.{SignedPayload, Verify, validate_signature, sign}
use wineventchain.Chain.Rpc.Signing.{validate_signature-sign}
use wineventchain.Chain.Multiplexer.App.{MuxedRequest}

pub record Payload : Type 0 where
  pub type : List ℕ
  pub body : List ℕ

pub record ClientFormats (D : Type 0) : Type 0 where
  pub marshal_input : D → Outcome Failure (List ℕ)
  pub marshal_signed : SignedPayload → Outcome Failure (List ℕ)
  pub marshal_unsigned : Payload → Outcome Failure (List ℕ)
  pub marshal_request : MuxedRequest → Outcome Failure (List ℕ)
  pub signing : List ℕ → List ℕ → List ℕ

-- What is relied on of encoding/json: it writes compact JSON, and reads back a payload whose texts are
-- valid UTF-8 and whose body is JSON as it writes it; the digits of a hexadecimal text are UTF-8.
pub record ClientFormatLaws (D : Type 0) (formats : ClientFormats D)
    (parse : List ℕ → Outcome Failure SignedPayload) : Type 1 where
  pub IsUtf8 : List ℕ → Type 0
  pub IsCompact : List ℕ → Type 0
  pub compact : (input : D) (bs : List ℕ) → formats.marshal_input input ≡ ok bs → IsCompact bs
  pub utf8_hex : (bs : List ℕ) → All (λ x. x < 256) bs → IsUtf8 (hex_encode bs)
  pub parse-marshal :
      (p : SignedPayload) (bs : List ℕ)
      → IsUtf8 p.type
      → IsUtf8 p.principal
      → IsUtf8 p.signature
      → IsCompact p.body
      → formats.marshal_signed p ≡ ok bs
      → parse bs ≡ ok p

module _ (D : Type 0) (formats : ClientFormats D) where
  pub record Builder : Type 0 where
    pub request_type : List ℕ
    pub input : Option D
    pub signed : Bool
    pub principal : List ℕ
    pub key : List ℕ
    pub app : List ℕ

  unfoldable pub new_builder : Builder
  new_builder = record {
    request_type = [];
    input = none;
    signed = false;
    principal = [];
    key = [];
    app = [];
  }

  unfoldable pub with_input : List ℕ → D → Builder → Builder
  with_input request_type input b = record b { request_type = request_type; input = some input }

  unfoldable pub with_app : List ℕ → Builder → Builder
  with_app app b = record b { app = app }

  unfoldable pub with_signer : List ℕ → List ℕ → Builder → Builder
  with_signer principal key b = record b { signed = true; principal = principal; key = key }

  unfoldable pub without_signer : Builder → Builder
  without_signer b = record b { signed = false }

  -- wrap
  unfoldable pub wrap : List ℕ → D → Outcome Failure Payload
  wrap type input = do
    marshalled ← formats.marshal_input input
    let payload : Payload = record { type = type; body = marshalled }
    ok payload

  -- The first half of buildSigned and of buildUnsigned: Data must have been called.
  unfoldable pub build_payload : Builder → Outcome Failure Payload
  unfolding wrap
  build_payload b = elim b.input [
    | none ↦ err decoding_request
    | some input ↦
        if bytes_eq b.request_type [] then err decoding_request else wrap b.request_type input
  ]

  unfoldable pub build_signed : Builder → Outcome Failure SignedPayload
  build_signed b = do
    payload ← build_payload b
    ok (sign formats.signing payload.type payload.body b.principal b.key)

  -- Builder.Build
  unfoldable pub build : Builder → Outcome Failure MuxedRequest
  build b = do
    inner ←
        if b.signed
        then (build_signed b >>= λ payload. formats.marshal_signed payload)
        else (build_payload b >>= λ payload. formats.marshal_unsigned payload)
    let request : MuxedRequest = record { app = b.app; body = inner }
    ok request

  -- Builder.Marshal
  unfoldable pub marshal_builder : Builder → Outcome Failure (List ℕ)
  marshal_builder b = do request ← build b; formats.marshal_request request

  build_signed-parts :
      (b : Builder) (p : SignedPayload)
      → build_signed b ≡ ok p
      → (input : D) × (body : List ℕ) × (formats.marshal_input input ≡ ok body)
        × (p ≡ sign formats.signing b.request_type body b.principal b.key)
  unfolding build_signed build_payload wrap
  build_signed-parts b p h = elim (Option-cases b.input) [
    | inl n ↦ absurd (ground arith)
    | inr (input, n) ↦ elim (Outcome-cases (formats.marshal_input input)) [
      | inl (body, m) ↦ (input, body, m, ground arith)
      | inr (inl (x, m)) ↦ absurd (ground arith)
      | inr (inr m) ↦ absurd (ground arith)
    ]
  ]

  -- A request that a client builds and signs names the application, the principal and the type
  -- that were given, and its signature is accepted under the public key that belongs to the
  -- signer's, where the type and the principal are valid UTF-8 and signatures are made of bytes.
  pub validate_signature-build :
      (parse : List ℕ → Outcome Failure SignedPayload) (verify : Verify) (public_key : List ℕ)
      (b : Builder) (request : MuxedRequest)
      → (laws : ClientFormatLaws D formats parse) → laws.IsUtf8 b.request_type
      → laws.IsUtf8 b.principal
      → ((message : List ℕ) → All (λ x. x < 256) (formats.signing b.key message))
      → ((message : List ℕ) → verify public_key message (formats.signing b.key message) ≡ true)
      → length public_key ≡ 32
      → b.signed ≡ true
      → build b ≡ ok request
      → (p : SignedPayload) × (parse request.body ≡ ok p)
        × (request.app ≡ b.app)
        × (p.type ≡ b.request_type)
        × (p.principal ≡ b.principal)
        × (validate_signature verify p public_key ≡ ok true)
  unfolding build sign
  validate_signature-build parse verify public_key b request laws type_text name bytes valid size
        signed h =
      elim (Outcome-cases (build_signed b)) [
        | inl (p, e) ↦ elim (Outcome-cases (formats.marshal_signed p)) [
          | inl (bs, m) ↦
              let (input, body, wrote, made) = build_signed-parts b p e in
              let written : request ≡ record { app = b.app; body = bs } = ground arith in
              (
                p,
                ap (λ (r : MuxedRequest). parse r.body) written
                    ∙ laws.parse-marshal p bs
                        (subst laws.IsUtf8 (sym (ap (λ (q : SignedPayload). q.type) made))
                          type_text)
                        (subst laws.IsUtf8 (sym (ap (λ (q : SignedPayload). q.principal) made))
                          name)
                        (subst laws.IsUtf8 (sym (ap (λ (q : SignedPayload). q.signature) made))
                          (laws.utf8_hex _ (bytes _)))
                        (subst laws.IsCompact (sym (ap (λ (q : SignedPayload). q.body) made))
                          (laws.compact input body wrote))
                        m,
                ap (λ (r : MuxedRequest). r.app) written,
                ap (λ (q : SignedPayload). q.type) made,
                ap (λ (q : SignedPayload). q.principal) made,
                ap (λ q. validate_signature verify q public_key) made
                    ∙ validate_signature-sign verify formats.signing b.request_type body b.principal
                        b.key public_key (bytes body) size (valid body),
              )
          | inr (inl (x, m)) ↦ absurd (ground arith)
          | inr (inr m) ↦ absurd (ground arith)
        ]
        | inr (inl (x, e)) ↦ absurd (ground arith)
        | inr (inr e) ↦ absurd (ground arith)
      ]
