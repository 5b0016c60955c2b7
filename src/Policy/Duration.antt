-- ===== src/Policy/Duration.antt =====
-- common/pkg/types/duration.go: durations in JSON. A duration is the bit pattern of its 64 bits, and
-- time.Duration.String, which writes it, is a parameter.
use wineventchain.Common.{
  ℕ, ◌+◌, ◌*◌, ◌%◌, ◌^◌, ◌-◌, ◌==◌, ◌≡◌, Bool, ◌&&◌, ◌||◌, not, ltb, leb, List, [], ◌∷◌, ◌++◌,
  Option, none, some, if◌then◌else◌, bytes_eq, codes, length, take, drop,
}

abbrev pub is_digit : ℕ → Bool
is_digit c = leb b'0' c && leb c b'9'

-- The digits that a text begins with, and the rest.
unfoldable pub span_digits : List ℕ → List ℕ × List ℕ
span_digits [] = ([], [])
span_digits (c ∷ cs) =
    let (digits, rest) = span_digits cs in if is_digit c then (c ∷ digits, rest) else ([], c ∷ cs)

-- The number of digits and the unit behind them: the digits and the rest of the text.
unfoldable pub match_unit : List ℕ → List ℕ → Option (List ℕ × List ℕ)
unfolding span_digits
match_unit unit text =
    let (digits, rest) = span_digits text in
    if not (length digits == 0) && bytes_eq (take (length unit) rest) unit
    then some (digits, drop (length unit) rest)
    else none

-- The first that is there.
unfoldable pub or_else : {A : Type 0} → Option A → Option A → Option A
or_else none b = b
or_else (some a) b = some a

-- The optional space behind a group.
unfoldable pub after_space : {A : Type 0} → (List ℕ → Option A) → List ℕ → Option A
unfolding or_else
after_space next [] = next []
after_space next (c ∷ cs) = if c == 32 then or_else (next cs) (next (c ∷ cs)) else next (c ∷ cs)

unfoldable pub put_group : List ℕ → Option (List (List ℕ)) → Option (List (List ℕ))
put_group digits none = none
put_group digits (some groups) = some (digits ∷ groups)

-- durationRegex: the digits of each unit, where a group that is left out has none.
unfoldable pub match_units : List (List ℕ) → List ℕ → Option (List (List ℕ))
unfolding match_unit after_space or_else put_group
match_units [] [] = some []
match_units [] (c ∷ cs) = none
match_units (unit ∷ units) text =
    let next : List ℕ → Option (List (List ℕ)) = λ t. match_units units t in
    let spaced : List ℕ → Option (List (List ℕ)) =
      λ t. elim units [ [] ↦ next t | u ∷ us ↦ after_space next t ] in
    let taken : Option (List (List ℕ)) = elim (match_unit unit text) [
      | none ↦ none
      | some (digits, rest) ↦ put_group digits (spaced rest)
    ] in
    or_else taken (put_group [] (spaced text))

abbrev pub units : List (List ℕ)
units = codes "w" ∷ codes "d" ∷ codes "h" ∷ codes "m" ∷ codes "s" ∷ codes "ms" ∷ codes "ns" ∷ []

abbrev pub factors : List ℕ
factors =
    604800000000000 ∷ 86400000000000 ∷ 3600000000000 ∷ 60000000000 ∷ 1000000000 ∷ 1000000 ∷ 1 ∷ []

unfoldable pub read_digits : ℕ → List ℕ → ℕ
read_digits n [] = n
read_digits n (c ∷ cs) = read_digits (n * 10 + (c - b'0')) cs

-- strconv.Atoi fails on a number that is no int64; the sum wraps.
unfoldable pub total : List (List ℕ) → List ℕ → Option ℕ
unfolding read_digits
total (g ∷ groups) (f ∷ fs) = elim (total groups fs) [
  | none ↦ none
  | some rest ↦
      if length g == 0
      then some rest
      else if ltb (read_digits 0 g) (2 ^ 63)
      then some ((read_digits 0 g * f + rest) % 2 ^ 64)
      else none
]
total _ _ = some 0

unfoldable pub parse_duration : List ℕ → Option ℕ
unfolding match_units total
parse_duration text =
    if bytes_eq text (codes "0")
    then some 0
    else elim (match_units units text) [ none ↦ none | some groups ↦ total groups factors ]

-- MarshalledDuration.MarshalJSON
unfoldable pub marshal_duration : (ℕ → List ℕ) → ℕ → List ℕ
marshal_duration print d = b'"' ∷ (print d ++ (b'"' ∷ []))

-- MarshalledDuration.UnmarshalJSON
unfoldable pub unmarshal_duration : List ℕ → Option ℕ
unfolding parse_duration
unmarshal_duration bytes =
    if ltb (length bytes) 2
      || (not (bytes_eq (take 1 bytes) (b'"' ∷ []))
          || not (bytes_eq (drop (length bytes - 1) bytes) (b'"' ∷ [])))
    then none
    else parse_duration (take (length bytes - 2) (drop 1 bytes))

-- A duration that is read back from its JSON. Those with a fraction, as "1.5s" for 1500ms, and the
-- negative ones are not.
abbrev pub IsReadable : (ℕ → List ℕ) → ℕ → Type 0
IsReadable print d = unmarshal_duration (marshal_duration print d) ≡ some d
