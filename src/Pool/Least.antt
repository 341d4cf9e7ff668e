-- ===== src/Pool/Least.antt =====
-- `Select` picks a connection with the fewest streams.
use mathlib.Core.List.{Mem, mem-cons_self, mem-cons_of_mem}
use revdial.Common.{
  ℕ, ℤ, pos, negsuc, ◌≡◌, refl, ap, sym, subst, true, false, List, [], ◌∷◌, some, none, ltb_ℤ,
  leb_ℤ, All, Bool-cases, ◌⊎◌, inl, inr, arith, not,
}
use revdial.Pool.Selector.{select, select_loop}

leb_ℤ-trans : (a b c : ℤ) → leb_ℤ a b ≡ true → leb_ℤ b c ≡ true → leb_ℤ a c ≡ true
leb_ℤ-trans (pos a) (pos b) (pos c) h k = ground arith
leb_ℤ-trans (pos a) (pos b) (negsuc c) h k = ground arith
leb_ℤ-trans (pos a) (negsuc b) c h k = ground arith
leb_ℤ-trans (negsuc a) b (pos c) h k = refl
leb_ℤ-trans (negsuc a) (pos b) (negsuc c) h k = ground arith
leb_ℤ-trans (negsuc a) (negsuc b) (negsuc c) h k = ground arith

leb_ℤ-total : (a b : ℤ) → ltb_ℤ a b ≡ true → leb_ℤ a b ≡ true
leb_ℤ-total (pos a) (pos b) h = ground arith
leb_ℤ-total (pos a) (negsuc b) h = ground arith
leb_ℤ-total (negsuc a) (pos b) h = ground arith
leb_ℤ-total (negsuc a) (negsuc b) h = ground arith

leb_ℤ-refl : (a : ℤ) → leb_ℤ a a ≡ true
leb_ℤ-refl (pos a) = ground arith
leb_ℤ-refl (negsuc a) = ground arith

module _ (streams : ℕ → ℤ) where
  abbrev pub AtMost : ℤ → ℕ → Type 0
  AtMost n conn = leb_ℤ n (streams conn) ≡ true

  AtMost-All :
      (n k : ℤ) (conns : List ℕ) → leb_ℤ n k ≡ true → All (AtMost k) conns → All (AtMost n) conns
  AtMost-All n k [] h a = tt
  AtMost-All n k (conn ∷ conns) h a = (leb_ℤ-trans n k _ h a.0, AtMost-All n k conns h a.1)

  abbrev Least : ℕ → ℕ → List ℕ → Type 0
  Least r best conns = (leb_ℤ (streams r) (streams best) ≡ true) × All (AtMost (streams r)) conns

  select_loop_next :
      (best : ℕ) (least : ℤ) (conn : ℕ) (conns : List ℕ)
      → ltb_ℤ (streams conn) least ≡ true
      → select_loop streams best least (conn ∷ conns)
        ≡ select_loop streams conn (streams conn) conns
  unfolding select_loop
  select_loop_next best least conn conns h = rw h refl

  select_loop_keep :
      (best : ℕ) (least : ℤ) (conn : ℕ) (conns : List ℕ)
      → ltb_ℤ (streams conn) least ≡ false
      → select_loop streams best least (conn ∷ conns) ≡ select_loop streams best least conns
  unfolding select_loop
  select_loop_keep best least conn conns h = rw h refl

  select_loop_nil :
      (best : ℕ)
      → leb_ℤ (streams (select_loop streams best (streams best) [])) (streams best) ≡ true
  unfolding select_loop
  select_loop_nil best = leb_ℤ-refl (streams best)

  -- The loop's result has no more streams than what it started from, nor than what it saw.
  select_loop-Least :
      (best : ℕ) (conns : List ℕ) → Least (select_loop streams best (streams best) conns) best conns
  select_loop-Least best [] = (select_loop_nil best, tt)
  select_loop-Least best (conn ∷ conns) = elim (Bool-cases (ltb_ℤ (streams conn) (streams best))) [
    | inl h ↦
        let (p, q) = select_loop-Least conn conns in
        subst (λ r. Least r best (conn ∷ conns)) (sym (select_loop_next best _ conn conns h))
          (
            leb_ℤ-trans (streams (select_loop streams conn (streams conn) conns)) (streams conn)
                (streams best) p (leb_ℤ-total (streams conn) (streams best) h),
            (p, q),
          )
    | inr h ↦
        let (p, q) = select_loop-Least best conns in
        subst (λ r. Least r best (conn ∷ conns)) (sym (select_loop_keep best _ conn conns h))
          (
            p,
            (
              leb_ℤ-trans (streams (select_loop streams best (streams best) conns)) (streams best)
                  (streams conn) p (ap not h),
              q,
            ),
          )
  ]

  select_loop-Mem :
      (best : ℕ) (least : ℤ) (conns : List ℕ)
      → (select_loop streams best least conns ≡ best)
        ⊎ Mem (select_loop streams best least conns) conns
  unfolding select_loop
  select_loop-Mem best least [] = inl refl
  select_loop-Mem best least (conn ∷ conns) = elim (Bool-cases (ltb_ℤ (streams conn) least)) [
    | inl h ↦ rw h (
        inr (elim (select_loop-Mem conn (streams conn) conns) [
          | inl e ↦ subst (λ c. Mem c (conn ∷ conns)) (sym e) mem-cons_self
          | inr e ↦ mem-cons_of_mem conn e
        ]))
    | inr h ↦ rw h (elim (select_loop-Mem best least conns) [
      | inl e ↦ inl e
      | inr e ↦ inr (mem-cons_of_mem conn e)
    ])
  ]

  -- `Select` of a slice that is not empty returns one of its connections, and none of them has fewer
  -- streams; it returns nothing of an empty slice only.
  pub select_lem :
      (conns : List ℕ)
      → ((conns ≡ []) × (select streams conns ≡ none))
        ⊎ ((best : ℕ) × (select streams conns ≡ some best)
            × Mem best conns
            × All (AtMost (streams best)) conns)
  unfolding select
  select_lem [] = inl (refl, refl)
  select_lem (conn ∷ conns) = inr (
    select_loop streams conn (streams conn) conns,
    refl,
    elim (select_loop-Mem conn (streams conn) conns) [
      | inl e ↦ subst (λ c. Mem c (conn ∷ conns)) (sym e) mem-cons_self
      | inr e ↦ mem-cons_of_mem conn e
    ],
    select_loop-Least conn conns,
  )
