-- ===== src/Pool.antt =====
-- common/pkg/pool/pool.go: the pool of connections that the clients of the chain draw from. A call is
-- one step, in which the test of a connection has one outcome; the goroutine that tests the dead
-- connections is a call of `revive` for a round.
pub mod Selection
pub mod Listing
use wineventchain.Common.{
  ℕ, zero, suc, ◌+◌, ◌-◌, ◌==◌, Bool, true, false, ◌||◌, leb, List, [], ◌∷◌, ◌++◌, Option, none,
  some, if◌then◌else◌, length, take, drop, get_elem?,
}

module _ (A : Type 0) (same : A → A → Bool) (test : A → Bool) where
  pub record Pool : Type 0 where
    pub idx : ℕ
    pub conns : List A
    pub dead_conns : List A
    pub last_test_time : A → Option ℕ
    pub liveness_valid_threshold : ℕ

  -- NewPool without connections; a configuration without a test has one that always succeeds.
  unfoldable pub new_pool : ℕ → Pool
  new_pool threshold = record {
    idx = 0;
    conns = [];
    dead_conns = [];
    last_test_time = λ c. none;
    liveness_valid_threshold = threshold;
  }

  -- The loop of Add, and the pool behind it.
  unfoldable pub add : ℕ → Pool → List A → Pool
  add now p [] = p
  add now p (c ∷ cs) =
      let tested : Pool = record p {
        last_test_time = λ d. if same d c then some now else p.last_test_time d;
      } in
      if test c
      then add now (record tested { conns = p.conns ++ (c ∷ []) }) cs
      else add now (record tested { dead_conns = p.dead_conns ++ (c ∷ []) }) cs

  -- The list without the first entry that is the connection.
  unfoldable pub without : A → List A → Option (List A)
  without conn [] = none
  without conn (c ∷ cs) =
      let rest = without conn cs in
      if same c conn then some cs else elim rest [ none ↦ none | some ds ↦ some (c ∷ ds) ]

  unfoldable pub remove : Pool → A → Pool
  unfolding without
  remove p conn = elim (without conn p.conns) [
    | some cs ↦ record p { conns = cs }
    | none ↦ elim (without conn p.dead_conns) [ some cs ↦ record p { dead_conns = cs } | none ↦ p ]
  ]

  unfoldable pub is_recent : ℕ → Pool → A → Bool
  is_recent now p c = elim (p.last_test_time c) [
    | none ↦ false
    | some tested ↦ leb now (tested + p.liveness_valid_threshold)
  ]

  unfoldable pub next_idx : Pool → ℕ
  next_idx p = if leb (length p.conns) (p.idx + 1) then 0 else p.idx + 1

  -- Get with fuel for its calls of itself: the pool and the connection, or none in an empty pool.
  -- Without an answer it ran out of fuel or read beyond the connections.
  unfoldable pub get : ℕ → ℕ → Pool → Option (Pool × Option A)
  unfolding is_recent next_idx
  get zero now p = none
  get (suc fuel) now p =
      if length p.conns == 0 then some (p, none) else elim (get_elem? p.conns (next_idx p)) [
        | none ↦ none
        | some c ↦
            let moved : Pool = record p { idx = next_idx p } in
            let rest = get fuel now (record moved {
              conns = take (next_idx p) p.conns ++ drop (next_idx p + 1) p.conns;
              dead_conns = p.dead_conns ++ (c ∷ []);
            }) in
            if is_recent now p c || test c then some (moved, some c) else rest
      ]

  -- The array of a slice of the length `len` after the entry at `idx` is taken out in place.
  unfoldable pub shift : List A → ℕ → ℕ → List A
  shift array len idx =
      take idx array ++ (take (len - (idx + 1)) (drop (idx + 1) array) ++ drop (len - 1) array)

  -- The loop of GetAll from the index `i` for `k` more entries of the array, of which the first
  -- `len` are the connections: the pool that is left, and what was collected. `none` is a panic.
  unfoldable pub get_live : ℕ → Pool → List A → ℕ → ℕ → ℕ → Option (Pool × List A)
  unfolding is_recent shift
  get_live now p array len i zero = some (record p { conns = take len array }, [])
  get_live now p array len i (suc k) = elim (get_elem? array i) [
    | none ↦ none
    | some c ↦
        let kept = get_live now p array len (i + 1) k in
        let dropped =
          get_live now (record p { dead_conns = p.dead_conns ++ (c ∷ []) }) (shift array len p.idx)
            (len - 1) (i + 1) k in
        let recent = if is_recent now p c then c ∷ [] else [] in
        if test c
        then (elim kept [ none ↦ none | some (p', cs) ↦ some (p', recent ++ (c ∷ cs)) ])
        else if leb (p.idx + 1) len
        then (elim dropped [ none ↦ none | some (p', cs) ↦ some (p', recent ++ cs) ])
        else none
  ]

  -- GetAll
  unfoldable pub get_all : ℕ → Pool → Bool → Option (Pool × List A)
  unfolding get_live
  get_all now p true = some (p, p.conns ++ p.dead_conns)
  get_all now p false = get_live now p p.conns (length p.conns) 0 (length p.conns)

  -- The dead connections of a round of startDeadConnTester, from the last to the first: those that
  -- stay dead and those that are back.
  unfoldable pub sort_dead : List A → List A × List A
  sort_dead [] = ([], [])
  sort_dead (c ∷ cs) =
      let (dead, back) = sort_dead cs in
      if test c then (dead, back ++ (c ∷ [])) else (c ∷ dead, back)

  unfoldable pub revive : Pool → Pool
  unfolding sort_dead
  revive p =
      let (dead, back) = sort_dead p.dead_conns in
      record p { conns = p.conns ++ back; dead_conns = dead }
