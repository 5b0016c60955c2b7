-- ===== src/Chain/Multiplexer/Routing.antt =====
-- wineventchain/pkg/multiplexer/abci.go: what a block does to the identity application.
use wineventchain.Common.{
  ℕ, ◌≡◌, ap, sym, ◌∙◌, inl, inr, false, List, [], ◌∷◌, some, ok, bytes_eq, bytes_eq_sound, subst,
  All, arith, Bool-cases, Outcome-cases, Option-cases, length,
}
use wineventchain.Chain.Response.{TxResult}
use wineventchain.Chain.Multiplexer.App.{
  Hashes, Apps, Formats, MuxedRequest, Multiplexer, finalize_tx, finalize_txs, finalize_block,
  put_hash, get_hash,
}

-- The assignment of a hash leaves the hash of another name as it was.
get_hash-put_hash :
    (hashes : Hashes) (n name h : List ℕ)
    → bytes_eq n name ≡ false
    → get_hash (put_hash hashes n h) name ≡ get_hash hashes name
unfolding get_hash put_hash
get_hash-put_hash [] n name h e = ground arith
get_hash-put_hash ((m, k) ∷ hashes) n name h e = elim (Bool-cases (bytes_eq m n)) [
  | inl same ↦
      let other : bytes_eq m name ≡ false =
        subst (λ x. bytes_eq x name ≡ false) (sym (bytes_eq_sound m n same)) e in
      ground arith
  | inr other ↦ ground (arith, get_hash-put_hash hashes n name h e)
]

module _ (apps : Apps) (formats : Formats) where
  abbrev pub Mux : Type 0
  Mux = Multiplexer apps formats

  -- The transaction does not name the application.
  abbrev pub Elsewhere : List ℕ → List ℕ → Type 0
  Elsewhere name tx = (r : MuxedRequest) → formats.request tx ≡ ok r → bytes_eq r.app name ≡ false

  -- What one transaction leaves alone.
  finalize_tx-Elsewhere :
      (name : List ℕ) (mux : Mux) (tx : List ℕ) (mux' : Mux) (r : TxResult)
      → Elsewhere name tx
      → finalize_tx apps formats mux tx ≡ some (mux', r)
      → get_hash mux'.app_hashes name ≡ get_hash mux.app_hashes name
  unfolding finalize_tx
  finalize_tx-Elsewhere name mux tx mux' r away h = elim (Outcome-cases (formats.request tx)) [
    | inl (q, e) ↦ elim (Bool-cases (apps.known q.app)) [
      | inl k ↦ elim (Option-cases (apps.finalize q.app mux.world q.body)) [
        | inl n ↦ absurd (ground arith)
        | inr ((world, response), f) ↦
            let kept = get_hash-put_hash mux.app_hashes q.app name response.app_hash (away q e) in
            let same : mux'.app_hashes ≡ put_hash mux.app_hashes q.app response.app_hash =
              ground arith in
            ap (λ hs. get_hash hs name) same ∙ kept
      ]
      | inr k ↦ ground arith
    ]
    | inr (inl (x, e)) ↦ ground arith
    | inr (inr e) ↦ absurd (ground arith)
  ]

  finalize_txs-Elsewhere :
      (name : List ℕ) (txs : List (List ℕ)) (mux mux' : Mux) (results : List TxResult)
      → All (Elsewhere name) txs
      → finalize_txs apps formats mux txs ≡ some (mux', results)
      → (get_hash mux'.app_hashes name ≡ get_hash mux.app_hashes name)
        × (length results ≡ length txs)
  unfolding finalize_txs
  finalize_txs-Elsewhere name [] mux mux' results away h = ground arith
  finalize_txs-Elsewhere name (tx ∷ txs) mux mux' results away h =
      elim (Option-cases (finalize_tx apps formats mux tx)) [
        | inl e ↦ absurd (ground arith)
        | inr ((mux1, r), e) ↦ elim (Option-cases (finalize_txs apps formats mux1 txs)) [
          | inl f ↦ absurd (ground arith)
          | inr ((mux2, rs), f) ↦
              let first = finalize_tx-Elsewhere name mux tx mux1 r away.0 e in
              let rest = finalize_txs-Elsewhere name txs mux1 mux2 rs away.1 f in
              ground (arith, first, rest)
        ]
      ]

  -- A block gives a result for each of its transactions, and leaves alone the hash of every
  -- application that none of them names.
  pub finalize_block-Elsewhere :
      (name : List ℕ) (mux mux' : Mux) (height : ℕ) (txs : List (List ℕ)) (results : List TxResult)
      (hash : List ℕ)
      → All (Elsewhere name) txs
      → finalize_block apps formats mux height txs ≡ some (mux', results, hash)
      → (get_hash mux'.app_hashes name ≡ get_hash mux.app_hashes name)
        × (length results ≡ length txs)
  unfolding finalize_block
  finalize_block-Elsewhere name mux mux' height txs results hash away h =
      let fresh : Mux = record mux { commit_funcs = [] } in
      elim (Option-cases (finalize_txs apps formats fresh txs)) [
        | inl e ↦ absurd (ground arith)
        | inr ((mux1, rs), e) ↦
            let kept = finalize_txs-Elsewhere name txs fresh mux1 rs away e in ground (arith, kept)
      ]
