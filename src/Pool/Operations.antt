-- ===== src/Pool/Operations.antt =====
-- The operations of pool/pool.go that change connections: removal, streams, closing and scaling.
use revdial.Common.{
  ℕ, ◌+◌, zero, suc, ℤ, pos, negsuc, Bool, true, false, List, [], ◌∷◌, length, Option, none, some,
  Result, ok, err, if◌then◌else◌, ◌==◌, ◌||◌, ltb_ℤ, leb_ℤ,
}
use revdial.Pool.Config.{
  PoolError, not_in_pool, no_connections, already_at_maximum, no_factory, factory_failed,
  already_at_minimum, nothing_to_remove,
}
use revdial.Pool.Metrics.{increment_active_streams, decrement_active_streams, reset_latency}
use revdial.Pool.MuxConn.{MuxConn, Yamux, TrackedStream, close_tracked}
use revdial.Pool.MuxConn as Conn
use revdial.Pool.Selector.{select}
use revdial.Pool.Scaler.{ScaleAction, scale_none, evaluate, record_scale}
use revdial.Pool.Scaler as Action
use revdial.Pool.State.{Pool, PoolStream, streams_of, write_conn, with_connections, add_connection}

-- The slice without the first occurrence; none where there is none.
abbrev kept : ℕ → Option (List ℕ) → Option (List ℕ)
kept c none = none
kept c (some cs) = some (c ∷ cs)

unfoldable pub remove_loop : ℕ → List ℕ → Option (List ℕ)
remove_loop conn [] = none
remove_loop conn (c ∷ cs) =
    let rest = remove_loop conn cs in if c == conn then some cs else kept c rest

abbrev pub remove_at : ℕ → List ℕ → List ℕ
remove_at i [] = []
remove_at zero (c ∷ cs) = cs
remove_at (suc i) (c ∷ cs) = c ∷ remove_at i cs

abbrev pub is_minus_one : ℤ → Bool
is_minus_one (pos n) = false
is_minus_one (negsuc n) = n == 0

-- The loop of `scaleDown`, with `minStreams`, the target and its place so far, and the next place.
unfoldable pub find_target : (ℕ → ℤ) → ℤ → Option (ℕ × ℕ) → ℕ → List ℕ → Option (ℕ × ℕ)
find_target streams least target i [] = target
find_target streams least target i (conn ∷ conns) =
    let n : ℤ = streams conn in
    let next : ℤ × Option (ℕ × ℕ) =
      if is_minus_one least || ltb_ℤ n least then (n, some (conn, i)) else (least, target) in
    find_target streams next.0 next.1 (i + 1) conns

module _ {S : Type 0} where
  -- `RecordScale` and `ResetLatency`.
  abbrev pub cool : ℕ → Pool S → Pool S
  cool now p = record p { scaler = record_scale now p.scaler }

  abbrev pub reset : Pool S → Pool S
  reset p = record p { metrics = reset_latency p.metrics }

  abbrev pub added : Option (ℕ × MuxConn S) → Pool S → Result PoolError (Unit {0}) × Pool S
  added none p = (err factory_failed, p)
  added (some (conn, m)) p = add_connection conn (write_conn conn m p)

  -- `scaleUp`; `made` is what the connection factory returns, a place in memory and what stands there.
  unfoldable pub scale_up : Option (ℕ × MuxConn S) → Pool S → Result PoolError (Unit {0}) × Pool S
  scale_up made p =
      if leb_ℤ p.config.max_connections (pos (length p.connections))
      then (err already_at_maximum, p)
      else (if p.has_factory then added made p else (err no_factory, p))

  abbrev pub cooled : ℕ → Result PoolError (Unit {0}) × Pool S → Pool S
  cooled now (ok a, p) = cool now p
  cooled now (err e, p) = p

  abbrev pub opened :
      ℕ → Result PoolError TrackedStream × MuxConn S → Pool S → Result PoolError PoolStream × Pool S
  opened conn (err e, m) p = (err e, write_conn conn m p)
  opened conn (ok t, m) p = (
    ok (record { conn = conn; tracked = t; done = false }),
    record (write_conn conn m p) { metrics = increment_active_streams p.metrics },
  )

-- What one tick of the monitor finds.
pub record Tick (S : Type 0) : Type 0 where
  pub made : Option (ℕ × MuxConn S)
  pub now : ℕ
  pub later : ℕ

module _ {S : Type 0} (y : Yamux S) where
  -- An error of `Close` is logged.
  abbrev pub close_conn : ℕ → Pool S → Pool S
  close_conn conn p = write_conn conn (Conn.close y (p.memory conn)).1 p

  abbrev removed : ℕ → Option (List ℕ) → Pool S → Result PoolError (Unit {0}) × Pool S
  removed conn none p = (err not_in_pool, p)
  removed conn (some conns) p = (ok tt, with_connections conns (close_conn conn p))

  unfoldable pub remove_connection : ℕ → Pool S → Result PoolError (Unit {0}) × Pool S
  unfolding remove_loop
  remove_connection conn p = removed conn (remove_loop conn p.connections) p

  -- `OpenStream` after the selection, which holds the pool's mutex no more.
  unfoldable pub open_on : ℕ → Pool S → Result PoolError PoolStream × Pool S
  open_on conn p = opened conn (Conn.open_stream y (p.memory conn)) p

  abbrev open_selected : Option ℕ → Pool S → Result PoolError PoolStream × Pool S
  open_selected none p = (err no_connections, p)
  open_selected (some conn) p = open_on conn p

  unfoldable pub open_stream : Pool S → Result PoolError PoolStream × Pool S
  open_stream p = open_selected (select (streams_of p) p.connections) p

  -- `poolTrackedStream.Close`.
  unfoldable pub close_stream :
      PoolStream → Pool S → Result PoolError (Unit {0}) × PoolStream × Pool S
  close_stream t p =
      let r = close_tracked y t.tracked (p.memory t.conn) in
      (
        r.0,
        record t { tracked = r.1; done = true },
        record (write_conn t.conn r.2 p) {
          metrics = if t.done then p.metrics else decrement_active_streams p.metrics;
        },
      )

  abbrev pub close_each : List ℕ → Pool S → Pool S
  close_each [] p = p
  close_each (conn ∷ conns) p = close_each conns (close_conn conn p)

  -- `Close`, where the monitoring goroutine stands between two evaluations when it is cancelled.
  unfoldable pub close_pool : Pool S → Result PoolError (Unit {0}) × Pool S
  close_pool p =
      (ok tt, with_connections [] (close_each p.connections (record p { monitoring = false })))

  abbrev shrunk : Option (ℕ × ℕ) → Pool S → Result PoolError (Unit {0}) × Pool S
  shrunk none p = (err nothing_to_remove, p)
  shrunk (some (conn, i)) p =
      (ok tt, with_connections (remove_at i p.connections) (close_conn conn p))

  unfoldable pub scale_down : Pool S → Result PoolError (Unit {0}) × Pool S
  unfolding find_target
  scale_down p =
      if leb_ℤ (pos (length p.connections)) p.config.min_connections
      then (err already_at_minimum, p)
      else shrunk (find_target (streams_of p) (negsuc 0) none 0 p.connections) p

  abbrev pub perform : ScaleAction → Option (ℕ × MuxConn S) → ℕ → Pool S → Pool S
  perform Action.scale_none made now p = p
  perform Action.scale_up made now p = cooled now (scale_up made p)
  perform Action.scale_down made now p = cooled now (scale_down p)

  -- `evaluateScaling`, which reads the clock at its start and after scaling.
  unfoldable pub evaluate_scaling : Option (ℕ × MuxConn S) → ℕ → ℕ → Pool S → Pool S
  unfolding scale_up scale_down
  evaluate_scaling made now later p = reset (perform (evaluate now p.metrics p.scaler) made later p)

  -- `monitorAndScale`: an evaluation for each tick, with what the factory gives and the two readings of
  -- the clock, until the context is done.
  unfoldable pub monitor_and_scale : List (Tick S) → Pool S → Pool S
  unfolding evaluate_scaling
  monitor_and_scale [] p = record p { monitoring = false }
  monitor_and_scale (t ∷ ts) p = monitor_and_scale ts (evaluate_scaling t.made t.now t.later p)
