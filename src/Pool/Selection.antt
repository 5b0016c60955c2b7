-- ===== src/Pool/Selection.antt =====
-- common/pkg/pool/pool.go: Get.
use wineventchain.Common.{
  ℕ, zero, suc, ◌+◌, ◌<◌, ◌≡◌, refl, sym, inl, inr, Bool, true, false, ◌||◌, List, [], ◌∷◌, ◌++◌,
  Option, none, some, All, length, take, drop, get_elem?, get_elem?-some, arith, Bool-cases,
  some-injective, subst, ◌==◌, length-append, length-take, length-drop,
}
use mathlib.Core.List.{Perm}
use mathlib.Core.List.Perm
use wineventchain.Common.{append-nil, append_assoc, sym, ◌∙◌, get_elem?}
use wineventchain.Pool.{Pool, is_recent, next_idx, get}

-- A list without the entry at an index.
length-without_entry :
    {A : Type 0} (cs : List A) (i : ℕ)
    → i < length cs
    → length (take i cs ++ drop (i + 1) cs) + 1 ≡ length cs
length-without_entry cs i h =
    omega
      (arith, length-append (take i cs) (drop (i + 1) cs), length-take i cs, length-drop (i + 1) cs)

without_entry-perm :
    {A : Type 0} (cs : List A) (i : ℕ) (c : A)
    → get_elem? cs i ≡ some c
    → Perm cs (c ∷ (take i cs ++ drop (i + 1) cs))
without_entry-perm [] i c e = absurd (ground arith)
without_entry-perm (d ∷ cs) zero c e = Perm.cons' (some-injective d c e) Perm.rfl
without_entry-perm (d ∷ cs) (suc i) c e =
    let next : suc i + 1 ≡ suc (i + 1) = omega arith in
    let rest = take i cs ++ drop (i + 1) cs in
    let moved : Perm (d ∷ cs) (c ∷ (d ∷ rest)) =
      Perm.trans (Perm.cons d (without_entry-perm cs i c e)) (Perm.swap c d rest) in
    subst (λ n. Perm (d ∷ cs) (c ∷ (take (suc i) (d ∷ cs) ++ drop n (d ∷ cs)))) (sym next) moved

empty_list : {A : Type 0} (cs : List A) → length cs ≡ 0 → cs ≡ []
empty_list [] h = refl
empty_list (c ∷ cs) h = absurd (omega arith)

module _ (A : Type 0) (same : A → A → Bool) (test : A → Bool) where
  -- A connection that Get may answer: one tested lately, or one that passes its test.
  abbrev pub usable : ℕ → Pool A same test → A → Bool
  usable now p c = is_recent A same test now p c || test c

  next_idx_lem :
      (p : Pool A same test) → 0 < length p.conns → next_idx A same test p < length p.conns
  unfolding next_idx
  next_idx_lem p h = ground arith

  -- The connections that Get took out, which all fail, and what it left: they are the last of the dead
  -- ones, none is lost, and an answer is the connection at the index of the pool.
  pub record Selected (now : ℕ) (p p' : Pool A same test) (answer : Option A) : Type 0 where
    pub removed : List A
    pub dead : p'.dead_conns ≡ p.dead_conns ++ removed
    pub failing : All (λ c. usable now p c ≡ false) removed
    pub kept : Perm p.conns (removed ++ p'.conns)
    pub tests : p'.last_test_time ≡ p.last_test_time
    pub answered : (c : A) → answer ≡ some c → get_elem? p'.conns p'.idx ≡ some c
    pub works : (c : A) → answer ≡ some c → usable now p c ≡ true
    pub exhausted : answer ≡ none → p'.conns ≡ []

  -- Get with more fuel than the pool has connections gives an answer: a connection of the pool that
  -- was tested lately or passes its test, or none, where the pool then has no connection left. The
  -- connections that it takes out are neither, and become dead; no other is taken out.
  pub get-usable :
      (fuel now : ℕ) (p : Pool A same test)
      → length p.conns < fuel
      → (p' : Pool A same test) × (answer : Option A) × (get A same test fuel now p
          ≡ some (p', answer))
        × Selected now p p' answer
  unfolding get is_recent
  get-usable zero now p h = absurd (omega arith)
  get-usable (suc fuel) now p h = elim (Bool-cases (length p.conns == 0)) [
    | inl empty ↦ (
      p,
      none,
      rw empty refl,
      record {
        removed = [];
        dead = sym (append-nil p.dead_conns);
        failing = tt;
        kept = Perm.rfl;
        tests = refl;
        answered = λ c e. absurd (ground arith);
        works = λ c e. absurd (ground arith);
        exhausted = λ e. empty_list p.conns (ground arith);
      },
    )
    | inr full ↦
        let i = next_idx A same test p in
        let within = next_idx_lem p (ground arith) in
        let (c, at) = get_elem?-some p.conns i within in
        let left = length-without_entry p.conns i within in
        let rest : Pool A same test = record p {
          idx = i;
          conns = take i p.conns ++ drop (i + 1) p.conns;
          dead_conns = p.dead_conns ++ (c ∷ []);
        } in
        elim (Bool-cases (usable now p c)) [
          | inl good ↦ (
            record p { idx = i },
            some c,
            rw (full, at, good) refl,
            record {
              removed = [];
              dead = sym (append-nil p.dead_conns);
              failing = tt;
              kept = Perm.rfl;
              tests = refl;
              answered = λ d e. at ∙ e;
              works = λ d e. subst (λ x. usable now p x ≡ true) (some-injective c d e) good;
              exhausted = λ e. absurd (ground arith);
            },
          )
          | inr bad ↦
              let (p', answer, e, s) = get-usable fuel now rest (omega arith) in
              (
                p',
                answer,
                rw (full, at, bad) e,
                record {
                  removed = c ∷ s.removed;
                  dead = s.dead ∙ append_assoc p.dead_conns (c ∷ []) s.removed;
                  failing = (bad, s.failing);
                  kept = Perm.trans (without_entry-perm p.conns i c at) (Perm.cons c s.kept);
                  tests = s.tests;
                  answered = s.answered;
                  works = s.works;
                  exhausted = s.exhausted;
                },
              )
        ]
  ]
