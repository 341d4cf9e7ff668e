-- ===== src/Pool/Settling.antt =====
-- A pool that is not used shrinks to its least size, one connection for each tick of the monitor.
use native.Mathlib.Nat.{zero-div}
use revdial.Common.{
  ℕ, zero, suc, ◌+◌, ◌<◌, ◌^◌, ℤ, pos, true, false, List, [], ◌∷◌, length, ◌≡◌, refl, ap, sym, ◌∙◌,
  subst, ltb_ℤ, leb_ℤ, is_zero, ◌/ℤ◌, ◌&&◌, ◌||◌, arith, Bool-cases, inl, inr, All, ◌==◌, word,
  value-word, ==_iff, lt→ltb,
}
use revdial.Pool.Config.{Config}
use revdial.Pool.MuxConn.{MuxConn, Yamux, num_streams}
use revdial.Pool.MuxConn as Conn
use revdial.Pool.Validated.{IsValid}
use revdial.Pool.Scaler.{AutoScaler, evaluate, cooling, underused, scale_down}
use revdial.Pool.Decisions.{evaluate-tests}
use revdial.Pool.Shrinking.{Counts, scale_down-select}
use revdial.Pool.State.{Pool, streams_of, with_connections}
use revdial.Pool.Operations.{
  Tick, remove_at, close_conn, cool, reset, evaluate_scaling, monitor_and_scale,
}

-- The lower threshold is positive, and the latency, which is none, is below half of its threshold.
pub record Shrinkable (c : Config) : Type 0 where
  pub threshold : ltb_ℤ (pos 0) c.scale_down_threshold ≡ true
  pub unmeasured :
      (is_zero c.latency_threshold || ltb_ℤ (pos 0) (c.latency_threshold /ℤ pos 2)) ≡ true

module _ {S : Type 0} where
  -- Nothing uses the pool, and its metrics say so.
  pub record IsQuiet (p : Pool S) : Type 0 where
    pub valid : IsValid p.config
    pub same_config : p.scaler.config ≡ p.config
    pub shrinkable : Shrinkable p.config
    pub counted : p.metrics.connection_count ≡ word 32 (pos (length p.connections))
    pub few : length p.connections < 2 ^ 31
    pub no_streams : p.metrics.active_streams ≡ 0
    pub no_latency : p.metrics.latency_count ≡ 0
    pub counts : All (Counts (streams_of p)) p.connections

  IsQuiet-underused :
      (p : Pool S)
      → IsQuiet p
      → ltb_ℤ p.config.min_connections (pos (length p.connections)) ≡ true
      → underused p.scaler.config p.metrics ≡ true
  IsQuiet-underused p q h =
      rw
        (
          q.same_config,
          q.counted,
          value-word (length p.connections) q.few,
          q.no_streams,
          q.no_latency,
        )
        (subst
          (λ z.
            (ltb_ℤ p.config.min_connections (pos (length p.connections))
              && (ltb_ℤ (pos z) p.config.scale_down_threshold
                  && (is_zero p.config.latency_threshold
                      || ltb_ℤ (pos 0) (p.config.latency_threshold /ℤ pos 2))))
            ≡ true)
          (sym (zero-div (length p.connections)))
          (rw (h, q.shrinkable.threshold, q.shrinkable.unmeasured) refl))

All-remove_at : (P : ℕ → Type 0) (i : ℕ) (xs : List ℕ) → All P xs → All P (remove_at i xs)
All-remove_at P i [] a = tt
All-remove_at P zero (x ∷ xs) a = a.1
All-remove_at P (suc i) (x ∷ xs) a = (a.0, All-remove_at P i xs a.1)

All-same :
    (f g : ℕ → ℤ) (xs : List ℕ) → ((k : ℕ) → g k ≡ f k) → All (Counts f) xs → All (Counts g) xs
All-same f g [] e a = tt
All-same f g (x ∷ xs) e a = (ap (leb_ℤ (pos 0)) (e x) ∙ a.0, All-same f g xs e a.1)

module _ {S : Type 0} (y : Yamux S) where
  close-streams : (m : MuxConn S) → num_streams (Conn.close y m).1 ≡ num_streams m
  unfolding Conn.close
  close-streams m = elim (Bool-cases m.closed) [ inl e ↦ rw e refl | inr e ↦ rw e refl ]

  close_conn-streams :
      (conn : ℕ) (p : Pool S) (k : ℕ) → streams_of (close_conn y conn p) k ≡ streams_of p k
  close_conn-streams conn p k = elim (Bool-cases (k == conn)) [
    | inl e ↦
        let same : k ≡ conn = (==_iff k conn).0 e in
        rw e (close-streams (p.memory conn) ∙ ap (λ n. num_streams (p.memory n)) (sym same))
    | inr e ↦ rw e refl
  ]

  -- What is left of the pool after one connection was removed at this time.
  abbrev shrunk : ℕ → ℕ → ℕ → Pool S → Pool S
  shrunk conn i later p =
      reset (cool later (with_connections (remove_at i p.connections) (close_conn y conn p)))

  shrunk-IsQuiet :
      (conn i later : ℕ) (p : Pool S)
      → IsQuiet p
      → length (remove_at i p.connections) + 1 ≡ length p.connections
      → IsQuiet (shrunk conn i later p)
  shrunk-IsQuiet conn i later p q l = record {
    valid = q.valid;
    same_config = q.same_config;
    shrinkable = q.shrinkable;
    counted = refl;
    few = omega (arith, q.few, l);
    no_streams = q.no_streams;
    no_latency = refl;
    counts =
        All-same (streams_of p) (streams_of (close_conn y conn p)) (remove_at i p.connections)
          (close_conn-streams conn p)
          (All-remove_at (Counts (streams_of p)) i p.connections q.counts);
  }

  too_many : (n : ℕ) (m : ℤ) → ltb_ℤ m (pos n) ≡ true → leb_ℤ (pos n) m ≡ false
  too_many n m h = rw h refl

  -- A tick after the cooldown removes one connection.
  one_tick :
      (t : Tick S) (p : Pool S)
      → IsQuiet p
      → cooling t.now p.scaler ≡ false
      → ltb_ℤ p.config.min_connections (pos (length p.connections)) ≡ true
      → (conn i : ℕ) × (evaluate_scaling y t.made t.now t.later p ≡ shrunk conn i t.later p)
        × (length (remove_at i p.connections) + 1 ≡ length p.connections)
  unfolding evaluate_scaling
  one_tick t p q over more =
      let (conn, i, s, g, down, l, enough) =
        scale_down-select y p q.valid q.counts (too_many (length p.connections) _ more) in
      let asks : evaluate t.now p.metrics p.scaler ≡ scale_down =
        (evaluate-tests t.now p.metrics p.scaler (rw q.same_config q.valid)).1
          (over, IsQuiet-underused p q more) in
      (conn, i, rw (asks, down) refl, l)

  -- Every tick comes after the cooldown of the one before.
  abbrev pub Spaced : AutoScaler → List (Tick S) → Type 0
  Spaced s [] = Unit {0}
  Spaced s (t ∷ ts) = (cooling t.now s ≡ false) × Spaced (record s { last_scale_time = t.later }) ts

  -- On a pool with a valid configuration whose metrics count its connections, no streams and no
  -- latencies, with a positive lower threshold, no counter of a connection below 0, and half of the
  -- latency threshold above 0 where there is one: if the ticks of the monitor are the cooldown apart,
  -- each removes one connection, so that as many ticks as there are connections too many leave exactly
  -- MinConnections.
  pub monitor_and_scale-settles :
      (m : ℕ) (ticks : List (Tick S)) (p : Pool S)
      → IsQuiet p
      → p.config.min_connections ≡ pos m
      → length p.connections ≡ length ticks + m
      → Spaced p.scaler ticks
      → length (monitor_and_scale y ticks p).connections ≡ m
  unfolding monitor_and_scale
  monitor_and_scale-settles m [] p q e l s = omega (arith, l)
  monitor_and_scale-settles m (t ∷ ts) p q e l s =
      let more : ltb_ℤ p.config.min_connections (pos (length p.connections)) ≡ true =
        rw (e, l) (lt→ltb _ _ (omega arith)) in
      let (conn, i, done, less) = one_tick t p q s.0 more in
      ap (λ r. length (monitor_and_scale y ts r).connections) done
      ∙ (monitor_and_scale-settles m ts (shrunk conn i t.later p)
          (shrunk-IsQuiet conn i t.later p q less) e (omega (arith, less, l)) s.1)
