-- ===== src/Pool/Listing.antt =====
-- common/pkg/pool/pool.go: GetAll.
use wineventchain.Common.{
  ℕ, ◌+◌, ◌≡◌, refl, ap, ◌∙◌, inl, inr, Bool, true, false, List, [], ◌∷◌, ◌++◌, some, All, length,
  take, take_all, get_elem?-length, append_assoc, length-append, arith, Bool-cases, subst,
  if◌then◌else◌,
}
use wineventchain.Pool.{Pool, is_recent, get_live, get_all}

module _ (A : Type 0) (same : A → A → Bool) (test : A → Bool) where
  -- A connection that was tested lately, and every one for its test.
  abbrev pub listed : ℕ → Pool A same test → List A → List A
  listed now p [] = []
  listed now p (c ∷ cs) =
      (if is_recent A same test now p c then c ∷ [] else []) ++ (c ∷ listed now p cs)

  pub All-listed :
      (now : ℕ) (p : Pool A same test) (P : A → Type 0) (cs : List A)
      → All P (listed now p cs)
      → All P cs
  All-listed now p P [] h = tt
  All-listed now p P (c ∷ cs) h = elim (Bool-cases (is_recent A same test now p c)) [
    | inl recent ↦
        let twice : P c × (P c × All P (listed now p cs)) =
          subst (λ b. All P ((if b then c ∷ [] else []) ++ (c ∷ listed now p cs))) recent h in
        (twice.0, All-listed now p P cs twice.1.1)
    | inr old ↦
        let once : P c × All P (listed now p cs) =
          subst (λ b. All P ((if b then c ∷ [] else []) ++ (c ∷ listed now p cs))) old h in
        (once.0, All-listed now p P cs once.1)
  ]

  listed_from :
      (now : ℕ) (p : Pool A same test) (before rest : List A) (len : ℕ)
      → All (λ c. test c ≡ true) rest
      → get_live A same test now p (before ++ rest) len (length before) (length rest)
        ≡ some (record p { conns = take len (before ++ rest) }, listed now p rest)
  unfolding get_live
  listed_from now p before [] len alive = refl
  listed_from now p before (c ∷ rest) len alive =
      let at = get_elem?-length before c rest in
      let (live, others) = alive in
      let next = listed_from now p (before ++ (c ∷ [])) rest len others in
      let moved : (before ++ (c ∷ [])) ++ rest ≡ before ++ (c ∷ rest) =
        append_assoc before (c ∷ []) rest in
      let longer : length (before ++ (c ∷ [])) ≡ length before + 1 =
        length-append before (c ∷ []) in
      let there =
        subst
          (λ n.
            get_live A same test now p ((before ++ (c ∷ [])) ++ rest) len n (length rest)
            ≡ some
                (record p { conns = take len ((before ++ (c ∷ [])) ++ rest) }, listed now p rest))
          longer next in
      let here =
        subst
          (λ cs.
            get_live A same test now p cs len (length before + 1) (length rest)
            ≡ some (record p { conns = take len cs }, listed now p rest))
          moved there in
      ground (arith, at, live, here)

  -- Where all connections pass their test, GetAll leaves the pool as it is and gives each connection
  -- once, and once more before it if it was tested lately.
  pub get_all-listed :
      (now : ℕ) (p : Pool A same test)
      → All (λ c. test c ≡ true) p.conns
      → get_all A same test now p false ≡ some (p, listed now p p.conns)
  unfolding get_all
  get_all-listed now p alive =
      listed_from now p [] p.conns (length p.conns) alive
      ∙ ap (λ cs. some (record p { conns = cs }, listed now p p.conns))
          (take_all (length p.conns) p.conns (omega arith))
