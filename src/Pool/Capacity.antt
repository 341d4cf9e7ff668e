-- ===== src/Pool/Capacity.antt =====
-- What every run of the pool keeps.
use mathlib.Core.Option.{some-injective}
use revdial.Common.{
  ℕ, zero, suc, ◌≤◌, ◌+◌, ◌^◌, ◌%◌, ℤ, pos, negsuc, Bool, true, false, List, [], ◌∷◌, length,
  Option, none, some, Result, ok, err, ◌≡◌, refl, sym, subst, if◌then◌else◌, leb_ℤ, arith, Ends,
  Ends-map, length-append, Bool-cases, inl, inr, ◌⊎◌, ◌==◌, Option-cases,
}
use revdial.Pool.Config.{Config, PoolError, validate}
use revdial.Pool.Validated.{IsValid, validate-Ends}
use revdial.Pool.Metrics.{Metrics, decrement_active_streams}
use revdial.Pool.MuxConn.{MuxConn, Yamux, TrackedStream}
use revdial.Pool.MuxConn as Conn
use revdial.Pool.Steps.{
  Step, Reaches, starts, adds, removes, opens, ends_stream, records, shrinks, cools, resets, closes,
  uses, stays, goes,
}
use revdial.Pool.State.{
  Pool, new, built, initial, or_defaults, add_connection, with_connections, streams_of,
}
use revdial.Pool.Operations.{
  remove_connection, opened, open_on, close_stream, close_pool, scale_down, remove_loop, remove_at,
  close_each, find_target, close_conn,
}

-- The capacity is kept, the metrics count the connections, and the configuration is valid.
pub record IsWithin {S : Type 0} (p : Pool S) : Type 0 where
  pub bounded : leb_ℤ (pos (length p.connections)) p.config.max_connections ≡ true
  pub counted : p.metrics.connection_count ≡ length p.connections % 2 ^ 32
  pub valid : IsValid p.config

fewer : (a b : ℕ) (most : ℤ) → a ≤ b → leb_ℤ (pos b) most ≡ true → leb_ℤ (pos a) most ≡ true
fewer a b (pos n) h k = ground arith
fewer a b (negsuc n) h k = ground arith

one_more : (a : ℕ) (most : ℤ) → leb_ℤ most (pos a) ≡ false → leb_ℤ (pos (a + 1)) most ≡ true
one_more a (pos n) h = ground arith
one_more a (negsuc n) h = ground arith

remove_loop-cases :
    (conn : ℕ) (conns : List ℕ)
    → (remove_loop conn conns ≡ none)
      ⊎ ((rest : List ℕ) × (remove_loop conn conns ≡ some rest) × (length conns ≡ length rest + 1))
unfolding remove_loop
remove_loop-cases conn [] = inl refl
remove_loop-cases conn (c ∷ conns) = elim (Bool-cases (c == conn)) [
  | inl h ↦ inr (conns, rw h refl, omega arith)
  | inr h ↦ elim (remove_loop-cases conn conns) [
    | inl e ↦ inl (rw (h, e) refl)
    | inr (rest, e, l) ↦ inr (c ∷ rest, rw (h, e) refl, omega arith)
  ]
]

room_for_none :
    (least most : ℤ)
    → leb_ℤ (pos 1) least ≡ true
    → leb_ℤ least most ≡ true
    → leb_ℤ (pos 0) most ≡ true
room_for_none least (pos b) h k = ground arith
room_for_none (pos a) (negsuc b) h k = ground arith
room_for_none (negsuc a) (negsuc b) h k = ground arith

length-remove_at : (i : ℕ) (conns : List ℕ) → length (remove_at i conns) ≤ length conns
length-remove_at i [] = omega arith
length-remove_at zero (c ∷ conns) = omega arith
length-remove_at (suc i) (c ∷ conns) = omega (arith, length-remove_at i conns)

same_count :
    (b : Bool) (m : Metrics)
    → (if b then m else decrement_active_streams m).connection_count ≡ m.connection_count
same_count true m = refl
same_count false m = refl

module _ {S : Type 0} where
  -- What does not touch the slice.
  same-IsWithin :
      {p q : Pool S}
      → q.connections ≡ p.connections
      → q.config ≡ p.config
      → q.metrics.connection_count ≡ p.metrics.connection_count
      → IsWithin p
      → IsWithin q
  same-IsWithin {p} {q} e f g h = record {
    bounded = rw (e, f) h.bounded;
    counted = rw (e, g) h.counted;
    valid = subst IsValid (sym f) h.valid;
  }

  -- What leaves fewer connections.
  shorter-IsWithin :
      (p q : Pool S) (conns : List ℕ)
      → length conns ≤ length p.connections
      → q.config ≡ p.config
      → IsWithin p
      → IsWithin (with_connections conns q)
  shorter-IsWithin p q conns l f h = record {
    bounded = rw f (fewer (length conns) _ _ l h.bounded);
    counted = refl;
    valid = subst IsValid (sym f) h.valid;
  }

  built-IsWithin :
      (r : Result PoolError (Unit {0}) × Config) (now : ℕ) (memory : ℕ → MuxConn S) (p : Pool S)
      → Ends (λ _ c. IsValid c) (λ _ _. Unit {0}) r
      → built r now memory ≡ some p
      → IsWithin p
  built-IsWithin (err x, c) now memory p h e = ground arith
  built-IsWithin (ok a, c) now memory p h e =
      let t : initial c now memory ≡ p = some-injective (initial c now memory) p e in
      subst IsWithin t (record {
        bounded =
            room_for_none c.min_connections c.max_connections h.holds.one_at_least h.holds.ordered;
        counted = refl;
        valid = h.holds;
      })

  new-IsWithin :
      (c : Option Config) (now : ℕ) (memory : ℕ → MuxConn S) (p : Pool S)
      → new c now memory ≡ some p
      → IsWithin p
  unfolding new
  new-IsWithin c now memory p e =
      built-IsWithin (validate (or_defaults c)) now memory p
        (Ends-map (validate (or_defaults c)) (λ _ v h. h.0) (λ _ _ _. tt)
          (validate-Ends (or_defaults c)))
        e

module _ {S : Type 0} (y : Yamux S) where
  close_each-config : (conns : List ℕ) (p : Pool S) → (close_each y conns p).config ≡ p.config
  close_each-config [] p = refl
  close_each-config (conn ∷ conns) p = close_each-config conns (close_conn y conn p)

  add-IsWithin : (conn : ℕ) (p : Pool S) → IsWithin p → IsWithin (add_connection conn p).1
  unfolding add_connection
  add-IsWithin conn p h =
      elim (Bool-cases (leb_ℤ p.config.max_connections (pos (length p.connections)))) [
        | inl e ↦ rw e h
        | inr e ↦ rw e (record {
          bounded =
              rw (length-append p.connections (conn ∷ []))
                (one_more (length p.connections) p.config.max_connections e);
          counted = refl;
          valid = h.valid;
        })
      ]

  remove-IsWithin : (conn : ℕ) (p : Pool S) → IsWithin p → IsWithin (remove_connection y conn p).1
  unfolding remove_connection
  remove-IsWithin conn p h = elim (remove_loop-cases conn p.connections) [
    | inl e ↦ rw e h
    | inr (rest, e, l) ↦ rw e (shorter-IsWithin p (close_conn y conn p) rest (omega arith) refl h)
  ]

  opened-IsWithin :
      (conn : ℕ) (r : Result PoolError TrackedStream × MuxConn S) (p : Pool S)
      → IsWithin p
      → IsWithin (opened conn r p).1
  opened-IsWithin conn (ok t, m) p h = same-IsWithin refl refl refl h
  opened-IsWithin conn (err e, m) p h = same-IsWithin refl refl refl h

  open-IsWithin : (conn : ℕ) (p : Pool S) → IsWithin p → IsWithin (open_on y conn p).1
  unfolding open_on
  open-IsWithin conn p h = opened-IsWithin conn (Conn.open_stream y (p.memory conn)) p h

  shrink-IsWithin : (p : Pool S) → IsWithin p → IsWithin (scale_down y p).1
  unfolding scale_down
  shrink-IsWithin p h =
      elim (Bool-cases (leb_ℤ (pos (length p.connections)) p.config.min_connections)) [
        | inl e ↦ rw e h
        | inr e ↦
            rw e (elim (Option-cases (find_target (streams_of p) (negsuc 0) none 0 p.connections)) [
              | inl t ↦ rw t h
              | inr ((conn, i), t) ↦ rw t (
                  shorter-IsWithin p (close_conn y conn p) (remove_at i p.connections)
                    (length-remove_at i p.connections) refl h)
            ])
      ]

  Step-IsWithin : {p q : Pool S} → Step y p q → IsWithin p → IsWithin q
  unfolding close_pool close_stream
  Step-IsWithin (starts p) h = same-IsWithin refl refl refl h
  Step-IsWithin (adds conn p) h = add-IsWithin conn p h
  Step-IsWithin (removes conn p) h = remove-IsWithin conn p h
  Step-IsWithin (opens conn p) h = open-IsWithin conn p h
  Step-IsWithin (ends_stream t p) h = same-IsWithin refl refl (same_count t.done p.metrics) h
  Step-IsWithin (records d p) h = same-IsWithin refl refl refl h
  Step-IsWithin (shrinks p) h = shrink-IsWithin p h
  Step-IsWithin (cools now p) h = same-IsWithin refl refl refl h
  Step-IsWithin (resets p) h = same-IsWithin refl refl refl h
  Step-IsWithin (closes p) h =
      shorter-IsWithin p (close_each y p.connections (record p { monitoring = false })) []
        (omega arith) (close_each-config p.connections (record p { monitoring = false })) h
  Step-IsWithin (uses memory p) h = same-IsWithin refl refl refl h

  Reaches-IsWithin : {p q : Pool S} → Reaches y p q → IsWithin p → IsWithin q
  Reaches-IsWithin stays h = h
  Reaches-IsWithin (goes r s) h = Step-IsWithin s (Reaches-IsWithin r h)

-- A pool that `New` makes has at most MaxConnections connections after any run, its metrics count
-- them (modulo 2^32), and its configuration is valid.
pub reached-IsWithin :
    {S : Type 0} (y : Yamux S) (c : Option Config) (now : ℕ) (memory : ℕ → MuxConn S) (p q : Pool S)
    → new c now memory ≡ some p
    → Reaches y p q
    → IsWithin q
reached-IsWithin y c now memory p q e r = Reaches-IsWithin y r (new-IsWithin c now memory p e)
