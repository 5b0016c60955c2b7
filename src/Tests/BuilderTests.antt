-- ===== src/Tests/BuilderTests.antt =====
-- A request that a client builds and signs, with small formats: the theorem of Chain/Builder at it.
use wineventchain.Common.{
  ℕ, ◌≡◌, refl, ap, sym, ◌∙◌, true, List, [], ◌∷◌, ◌++◌, some, Outcome, ok, err, bytes_eq, codes,
  arith, ok_injective, length, replicate, take, drop, take-append, drop-append, hex_encode,
  hex_digit, All, ◌<◌, ◌/◌, ◌%◌,
}
use wineventchain.Chain.Response.{Failure, json_failure}
use wineventchain.Chain.Rpc.{SignedPayload, validate_signature, sign}
use wineventchain.Chain.Multiplexer.App.{MuxedRequest}
use wineventchain.Chain.Builder.{
  ClientFormats, ClientFormatLaws, Builder, build, build_signed, build_payload, wrap,
  validate_signature-build,
}

-- The three lengths, and the four fields behind them.
abbrev write : SignedPayload → List ℕ
write p =
    length p.type
    ∷ length p.body
    ∷ length p.principal
    ∷ (p.type ++ (p.body ++ (p.principal ++ p.signature)))

abbrev read_fields : ℕ → ℕ → ℕ → List ℕ → SignedPayload
read_fields a b c rest = record {
  type = take a rest;
  body = take b (drop a rest);
  principal = take c (drop b (drop a rest));
  signature = drop c (drop b (drop a rest));
}

abbrev parse : List ℕ → Outcome Failure SignedPayload
parse (a ∷ b ∷ c ∷ rest) = ok (read_fields a b c rest)
parse _ = err (json_failure [])

parse-write : (p : SignedPayload) → parse (write p) ≡ ok p
parse-write p =
    let tail = p.principal ++ p.signature in
    let rest = p.body ++ tail in
    rw (
      take-append (length p.type) p.type rest refl,
      drop-append (length p.type) p.type rest refl,
      take-append (length p.body) p.body tail refl,
      drop-append (length p.body) p.body tail refl,
      take-append (length p.principal) p.principal p.signature refl,
      drop-append (length p.principal) p.principal p.signature refl,
    )

hex_digit_is_ascii : (n : ℕ) → n < 16 → hex_digit n < 128
unfolding hex_digit
hex_digit_is_ascii n h = ground arith

hex_is_ascii : (bs : List ℕ) → All (λ b. b < 256) bs → All (λ c. c < 128) (hex_encode bs)
unfolding hex_encode
hex_is_ascii [] h = tt
hex_is_ascii (b ∷ bs) h = (
  hex_digit_is_ascii (b / 16) (omega arith),
  (hex_digit_is_ascii (b % 16) (omega arith), hex_is_ascii bs h.1),
)

abbrev formats : ClientFormats (List ℕ)
formats = record {
  marshal_input = λ input. ok input;
  marshal_signed = λ p. ok (write p);
  marshal_unsigned = λ p. ok p.body;
  marshal_request = λ r. ok r.body;
  signing = λ key message. 1 ∷ 2 ∷ [];
}

-- Texts of ASCII, and any body.
format_laws : ClientFormatLaws (List ℕ) formats parse
format_laws = record {
  IsUtf8 = λ text. All (λ c. c < 128) text;
  IsCompact = λ body. Unit {0};
  compact = λ input bs e. tt;
  utf8_hex = λ bs h. hex_is_ascii bs h;
  parse-marshal = λ p bs t n s c e. ap parse (sym (ok_injective e)) ∙ parse-write p;
}

abbrev builder : Builder (List ℕ) formats
builder = record {
  request_type = codes "register";
  input = some (7 ∷ []);
  signed = true;
  principal = codes "bob";
  key = [];
  app = codes "identity";
}

abbrev built : MuxedRequest
built = record {
  app = codes "identity";
  body = write (record {
    type = codes "register";
    body = 7 ∷ [];
    principal = codes "bob";
    signature = codes "0102";
  });
}

built_request : build (List ℕ) formats builder ≡ ok built
unfolding build build_signed build_payload wrap sign bytes_eq hex_encode
built_request = refl

ascii_texts : format_laws.IsUtf8 builder.request_type × format_laws.IsUtf8 builder.principal
unfolding format_laws
ascii_texts = (omega arith, omega arith)

validate_signature-build_example :
    (p : SignedPayload) × (parse built.body ≡ ok p)
    × (built.app ≡ builder.app)
    × (p.type ≡ builder.request_type)
    × (p.principal ≡ builder.principal)
    × (validate_signature (λ key message signature. true) p (replicate 32 7) ≡ ok true)
validate_signature-build_example =
    validate_signature-build (List ℕ) formats parse (λ key message signature. true) (replicate 32 7)
      builder built format_laws ascii_texts.0 ascii_texts.1
      (λ message. (omega arith, (omega arith, tt))) (λ message. refl) refl refl built_request
