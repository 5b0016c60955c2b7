-- ===== src/Harmoniser/Coverage.antt =====
-- harmoniser.go: no block is lost between those that were seen and those that are missing.
use wineventchain.Common.{
  ℕ, ◌+◌, ◌==◌, ◌≤◌, ◌<◌, ◌≡◌, refl, ap, sym, ◌∙◌, ◌⊎◌, inl, inr, true, ltb, leb, List, [], ◌∷◌,
  Option, none, some, ok, All, arith, Bool-cases, Option-cases, some-injective,
}
use wineventchain.Common.{suc, length, ◌^◌}
use wineventchain.Harmoniser.Listener.{BlockStore, logged, finish, see_block, on_block, on_blocks}

-- What the store is relied on for, as long as it is ready for a number of ranges: its calls work, it
-- holds one last height and adds the ranges that it is given. Heights are those of an int64.
pub record BlockStoreLaws (store : BlockStore) : Type 1 where
  pub Ready : store.State → ℕ → Type 0
  pub Missing : store.State → ℕ → Type 0
  pub last : store.State → Option ℕ
  pub fewer : (s : store.State) (n : ℕ) → Ready s (suc n) → Ready s n
  pub last_seen_lem : (s : store.State) (n : ℕ) → Ready s n → store.last_seen s ≡ ok (last s)
  pub set_works :
      (s : store.State) (n h : ℕ)
      → Ready s n
      → h < 2 ^ 63
      → (s' : store.State) × (store.set_last_seen s h ≡ ok s')
        × Ready s' n
        × (last s' ≡ some h)
        × ((b : ℕ) → Missing s b → Missing s' b)
  pub add_works :
      (s : store.State) (n l h : ℕ)
      → Ready s (suc n)
      → l < 2 ^ 63
      → h < 2 ^ 63
      → (s' : store.State) × (store.add_missing s l h ≡ ok s')
        × Ready s' n
        × ((b : ℕ) → Missing s b ⊎ ((l ≤ b) × (b < h)) → Missing s' b)

-- A height of a block.
abbrev pub IsHeight : ℕ → Type 0
IsHeight h = (0 < h) × (h < 2 ^ 63)

abbrev pub Occurs : ℕ → List ℕ → Type 0
Occurs b [] = ⊥
Occurs b (h ∷ hs) = (b ≡ h) ⊎ Occurs b hs

module _ (store : BlockStore) (laws : BlockStoreLaws store) where
  -- Each block up to the last height is one of `P` or missing.
  abbrev pub Covers : (ℕ → Type 0) → store.State → Type 0
  Covers P s = (b n : ℕ) → laws.last s ≡ some n → b ≤ n → P b ⊎ laws.Missing s b

  finish_lem :
      (s : store.State) (n h : ℕ)
      → laws.Ready s n
      → h < 2 ^ 63
      → (s' : store.State) × (finish store h (some s) ≡ some s')
        × laws.Ready s' n
        × (laws.last s' ≡ some h)
        × ((b : ℕ) → laws.Missing s b → laws.Missing s' b)
  unfolding finish logged
  finish_lem s n h ready small =
      let (s', e, ready', last, keeps) = laws.set_works s n h ready small in
      (s', rw (e, logged) refl, ready', last, keeps)

  see_first :
      (P : ℕ → Type 0) (s : store.State) (n h : ℕ)
      → laws.Ready s (suc n)
      → IsHeight h
      → (s' : store.State) × (see_block store s h none ≡ some s')
        × laws.Ready s' n
        × Covers (λ b. (b ≡ h) ⊎ P b) s'
  unfolding see_block logged
  see_first P s n h ready pos =
      let (s1, e, ready1, adds) = laws.add_works s n 0 h ready (omega arith) pos.1 in
      let (s', f, ready', last, keeps) = finish_lem s1 n h ready1 pos.1 in
      let positive : ltb 0 h ≡ true = ground arith in
      (
        s',
        rw (positive, e, logged) f,
        ready',
        λ b m same le.
            (let at : h ≡ m = some-injective h m (sym last ∙ same) in
              elim (Bool-cases (b == h)) [
                | inl here ↦ inl (inl (ground arith))
                | inr other ↦ inr (keeps b (adds b (inr (omega arith, ground arith))))
              ]),
      )

  see_next :
      (P : ℕ → Type 0) (s : store.State) (n h m : ℕ)
      → laws.Ready s (suc n)
      → IsHeight h
      → laws.last s ≡ some m
      → Covers P s
      → (s' : store.State) × (see_block store s h (some m) ≡ some s')
        × laws.Ready s' n
        × Covers (λ b. (b ≡ h) ⊎ P b) s'
  unfolding see_block logged
  see_next P s n h m ready pos seen c = elim (Bool-cases (leb h m)) [
    | inl old ↦ (
      s,
      rw old refl,
      laws.fewer s n ready,
      λ b k same le. elim (c b k same le) [ inl p ↦ inl (inr p) | inr q ↦ inr q ],
    )
    | inr new ↦ elim (Bool-cases (m + 1 == h)) [
      | inl next ↦
          let (s', f, ready', last, keeps) = finish_lem s n h (laws.fewer s n ready) pos.1 in
          (
            s',
            rw (new, next) f,
            ready',
            λ b k same le.
                (let at : h ≡ k = some-injective h k (sym last ∙ same) in
                  elim (Bool-cases (b == h)) [
                    | inl here ↦ inl (inl (ground arith))
                    | inr other ↦ elim (c b m seen (ground arith)) [
                      | inl p ↦ inl (inr p)
                      | inr q ↦ inr (keeps b q)
                    ]
                  ]),
          )
      | inr gap ↦
          let (s1, e, ready1, adds) =
            laws.add_works s n (m + 1) h ready (ground (arith, pos.1)) pos.1 in
          let (s', f, ready', last, keeps) = finish_lem s1 n h ready1 pos.1 in
          (
            s',
            rw (new, gap, e, logged) f,
            ready',
            λ b k same le.
                (let at : h ≡ k = some-injective h k (sym last ∙ same) in
                  elim (Bool-cases (b == h)) [
                    | inl here ↦ inl (inl (ground arith))
                    | inr other ↦ elim (Bool-cases (leb b m)) [
                      | inl low ↦ elim (c b m seen (ground arith)) [
                        | inl p ↦ inl (inr p)
                        | inr q ↦ inr (keeps b (adds b (inl q)))
                      ]
                      | inr high ↦ inr (keeps b (adds b (inr (ground arith, ground arith))))
                    ]
                  ]),
          )
    ]
  ]

  on_block-Covers :
      (P : ℕ → Type 0) (s : store.State) (n h : ℕ)
      → laws.Ready s (suc n)
      → IsHeight h
      → Covers P s
      → (s' : store.State) × (on_block store s h ≡ some s')
        × laws.Ready s' n
        × Covers (λ b. (b ≡ h) ⊎ P b) s'
  unfolding on_block
  on_block-Covers P s n h ready pos c = elim (Option-cases (laws.last s)) [
    | inl first ↦
        let read = laws.last_seen_lem s (suc n) ready ∙ ap ok first in
        let (s', f, ready', covers) = see_first P s n h ready pos in
        (s', rw (read, on_block) f, ready', covers)
    | inr (m, later) ↦
        let read = laws.last_seen_lem s (suc n) ready ∙ ap ok later in
        let (s', f, ready', covers) = see_next P s n h m ready pos later c in
        (s', rw (read, on_block) f, ready', covers)
  ]

  coverage_kept :
      (P : ℕ → Type 0) (heights : List ℕ) (s : store.State)
      → laws.Ready s (length heights)
      → All IsHeight heights
      → Covers P s
      → (s' : store.State) × (on_blocks store s heights ≡ some s')
        × Covers (λ b. Occurs b heights ⊎ P b) s'
  unfolding on_blocks
  coverage_kept P [] s ready pos c =
      (s, refl, λ b n same le. elim (c b n same le) [ inl p ↦ inl (inr p) | inr q ↦ inr q ])
  coverage_kept P (h ∷ hs) s ready pos c =
      let (s1, e, ready1, c1) = on_block-Covers P s (length hs) h ready pos.0 c in
      let (s', f, c') = coverage_kept (λ b. (b ≡ h) ⊎ P b) hs s1 ready1 pos.1 c1 in
      (
        s',
        rw (e, on_blocks) f,
        λ b n same le. elim (c' b n same le) [
          | inr q ↦ inr q
          | inl (inl later) ↦ inl (inl (inr later))
          | inl (inr (inl here)) ↦ inl (inl (inl here))
          | inl (inr (inr p)) ↦ inl (inr p)
        ],
      )

  -- A node whose store is ready for as many ranges as there are heights, and has no last height yet,
  -- handles every sequence of heights above 0, with gaps, repetitions and in any order, without a
  -- panic; then every block up to the last height that it knows was seen or is in a range that the
  -- store holds as missing.
  pub on_blocks-Covers :
      (heights : List ℕ) (s : store.State)
      → All IsHeight heights
      → laws.Ready s (length heights)
      → laws.last s ≡ none
      → (s' : store.State) × (on_blocks store s heights ≡ some s')
        × ((b n : ℕ) → laws.last s' ≡ some n → b ≤ n → Occurs b heights ⊎ laws.Missing s' b)
  on_blocks-Covers heights s pos ready new =
      let (s', e, c) =
        coverage_kept (λ b. ⊥) heights s ready pos
          (λ b n same le. absurd (let clash : none ≡ some n = sym new ∙ same in ground arith)) in
      (
        s',
        e,
        λ b n same le. elim (c b n same le) [
          | inr q ↦ inr q
          | inl (inl seen) ↦ inl seen
          | inl (inr never) ↦ absurd never
        ],
      )
