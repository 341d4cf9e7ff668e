-- ===== src/Pool/Shrinking.antt =====
-- Which connection `scaleDown` removes: the one that `Select` would pick.
use mathlib.Core.Bool.{true≢false}
use revdial.Common.{
  ℕ, zero, suc, ◌+◌, ℤ, pos, negsuc, true, false, List, [], ◌∷◌, length, Option, none, some, ok,
  ◌≡◌, refl, ap, sym, ◌∙◌, subst, ltb_ℤ, leb_ℤ, arith, Bool-cases, inl, inr, ◌⊎◌, get_elem?, All,
  ◌||◌,
}
use revdial.Pool.MuxConn.{Yamux}
use revdial.Pool.Validated.{IsValid}
use revdial.Pool.Selector.{select, select_loop}
use revdial.Pool.State.{Pool, streams_of, with_connections}
use revdial.Pool.Operations.{find_target, scale_down, remove_at, close_conn, is_minus_one}

module _ (streams : ℕ → ℤ) where
  -- No counter is below 0.
  abbrev pub Counts : ℕ → Type 0
  Counts conn = leb_ℤ (pos 0) (streams conn) ≡ true

  not_minus_one : (n : ℤ) → leb_ℤ (pos 0) n ≡ true → is_minus_one n ≡ false
  not_minus_one (pos n) h = refl
  not_minus_one (negsuc n) h = ground arith

  find_target_next :
      (least : ℤ) (target : Option (ℕ × ℕ)) (i conn : ℕ) (conns : List ℕ)
      → (is_minus_one least || ltb_ℤ (streams conn) least) ≡ true
      → find_target streams least target i (conn ∷ conns)
        ≡ find_target streams (streams conn) (some (conn, i)) (i + 1) conns
  unfolding find_target
  find_target_next least target i conn conns h = rw h refl

  find_target_keep :
      (least : ℤ) (target : Option (ℕ × ℕ)) (i conn : ℕ) (conns : List ℕ)
      → (is_minus_one least || ltb_ℤ (streams conn) least) ≡ false
      → find_target streams least target i (conn ∷ conns)
        ≡ find_target streams least target (i + 1) conns
  unfolding find_target
  find_target_keep least target i conn conns h = rw h refl

  -- From the second connection on both loops move together.
  find_target-select_loop :
      (best j i : ℕ) (conns : List ℕ)
      → Counts best
      → All Counts conns
      → (k : ℕ) × (find_target streams (streams best) (some (best, j)) i conns
          ≡ some (select_loop streams best (streams best) conns, k))
        × ((k ≡ j) × (select_loop streams best (streams best) conns ≡ best)
            ⊎ ((d : ℕ) × (k ≡ i + d)
                × (get_elem? conns d ≡ some (select_loop streams best (streams best) conns))))
  unfolding find_target select_loop
  find_target-select_loop best j i [] c a = (j, refl, inl (refl, refl))
  find_target-select_loop best j i (conn ∷ conns) c a =
      elim (Bool-cases (ltb_ℤ (streams conn) (streams best))) [
        | inl h ↦
            let (k, e, o) = find_target-select_loop conn i (i + 1) conns a.0 a.1 in
            rw (not_minus_one (streams best) c, h)
              (
                k,
                e,
                inr (elim o [
                  | inl (x, y) ↦ (0, x ∙ omega arith, ap some (sym y))
                  | inr (d, x, y) ↦ (suc d, x ∙ omega arith, y)
                ]),
              )
        | inr h ↦
            let (k, e, o) = find_target-select_loop best j (i + 1) conns c a.1 in
            rw (not_minus_one (streams best) c, h)
              (
                k,
                e,
                elim o [
                  | inl (x, y) ↦ inl (x, y)
                  | inr (d, x, y) ↦ inr (suc d, x ∙ omega arith, y)
                ],
              )
      ]

remove_at_lem :
    (conns : List ℕ) (i conn : ℕ)
    → get_elem? conns i ≡ some conn
    → length (remove_at i conns) + 1 ≡ length conns
remove_at_lem [] i conn e = ground arith
remove_at_lem (c ∷ conns) zero conn e = omega arith
remove_at_lem (c ∷ conns) (suc i) conn e = omega (arith, remove_at_lem conns i conn e)

enough_left : (n : ℕ) (least : ℤ) → leb_ℤ (pos (n + 1)) least ≡ false → leb_ℤ least (pos n) ≡ true
enough_left n (pos least) h = ground arith
enough_left n (negsuc least) h = refl

none_left : (least : ℤ) → leb_ℤ (pos 1) least ≡ true → leb_ℤ (pos 0) least ≡ true
none_left (pos a) h = ground arith
none_left (negsuc a) h = ground arith

-- The place that the loop finds, for any slice that is not empty.
target_lem :
    (streams : ℕ → ℤ) (conn : ℕ) (conns : List ℕ)
    → All (Counts streams) (conn ∷ conns)
    → (i : ℕ) × (find_target streams (negsuc 0) none 0 (conn ∷ conns)
        ≡ some (select_loop streams conn (streams conn) conns, i))
      × (get_elem? (conn ∷ conns) i ≡ some (select_loop streams conn (streams conn) conns))
unfolding find_target
target_lem streams conn conns a =
    let (k, e, o) = find_target-select_loop streams conn 0 1 conns a.0 a.1 in
    (
      k,
      e,
      elim o [
        | inl (x, y) ↦ rw x (ap some (sym y))
        | inr (d, x, y) ↦ let x' : k ≡ suc d = omega arith in rw x' y
      ],
    )

selected_target :
    (streams : ℕ → ℤ) (least : ℤ) (conns : List ℕ)
    → leb_ℤ (pos 1) least ≡ true
    → All (Counts streams) conns
    → leb_ℤ (pos (length conns)) least ≡ false
    → (conn i : ℕ) × (select streams conns ≡ some conn)
      × (get_elem? conns i ≡ some conn)
      × (find_target streams (negsuc 0) none 0 conns ≡ some (conn, i))
unfolding select
selected_target streams least [] v a h = absurd (true≢false (sym (none_left least v) ∙ h))
selected_target streams least (conn ∷ conns) v a h =
    let (i, t, g) = target_lem streams conn conns a in
    (select_loop streams conn (streams conn) conns, i, refl, g, t)

module _ {S : Type 0} (y : Yamux S) where
  -- With a valid configuration, more connections than MinConnections and no counter below 0,
  -- `scaleDown` succeeds: it closes and removes the connection that `Select` picks, no other, and
  -- at least MinConnections are left.
  pub scale_down-select :
      (p : Pool S)
      → IsValid p.config
      → All (Counts (streams_of p)) p.connections
      → leb_ℤ (pos (length p.connections)) p.config.min_connections ≡ false
      → (conn i : ℕ) × (select (streams_of p) p.connections ≡ some conn)
        × (get_elem? p.connections i ≡ some conn)
        × (scale_down y p
            ≡ (ok tt, with_connections (remove_at i p.connections) (close_conn y conn p)))
        × (length (remove_at i p.connections) + 1 ≡ length p.connections)
        × (leb_ℤ p.config.min_connections (pos (length (remove_at i p.connections))) ≡ true)
  unfolding scale_down
  scale_down-select p v a h =
      let (conn, i, s, g, t) =
        selected_target (streams_of p) p.config.min_connections p.connections v.one_at_least a h in
      let l = remove_at_lem p.connections i conn g in
      (
        conn,
        i,
        s,
        g,
        simp (h, t),
        l,
        enough_left (length (remove_at i p.connections)) p.config.min_connections
            (subst (λ n. leb_ℤ (pos n) p.config.min_connections ≡ false) (sym l) h),
      )
