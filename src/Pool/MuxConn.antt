-- ===== src/Pool/MuxConn.antt =====
-- pool/mux_conn.go, over a yamux session that is a parameter. The mutex makes a call one step.
use revdial.Common.{ℕ, ℤ, Bool, true, false, Result, ok, err, Option, none, some, if◌then◌else◌}
use revdial.Pool.Config.{PoolError, connection_closed, stream_failed, close_failed}
use revdial.Pool.Metrics.{
  ConnMetrics, new_conn_metrics, conn_active_streams, increment_conn_streams,
  decrement_conn_streams,
}

-- What the code calls of a yamux session in state S: a stream is known by a number, and none is an
-- error; the closing calls say whether they fail.
pub record Yamux (S : Type 0) : Type 0 where
  pub open_session_stream : S → Option ℕ × S
  pub accept_session_stream : S → Option ℕ × S
  pub close_session_stream : ℕ → S → Bool × S
  pub close_session : S → Bool × S

pub record MuxConn (S : Type 0) : Type 0 where
  pub session : S
  pub metrics : ConnMetrics
  pub closed : Bool

-- `done` is whether the stream's `sync.Once` has run.
pub record TrackedStream : Type 0 where
  pub stream : ℕ
  pub done : Bool

module _ {S : Type 0} where
  abbrev pub new_mux_conn : S → ℤ → MuxConn S
  new_mux_conn session now = record {
    session = session;
    metrics = new_conn_metrics now;
    closed = false;
  }

  abbrev pub num_streams : MuxConn S → ℤ
  num_streams m = conn_active_streams m.metrics

  abbrev pub track : Option ℕ × S → MuxConn S → Result PoolError TrackedStream × MuxConn S
  track (none, session) m = (err stream_failed, record m { session = session })
  track (some n, session) m = (
    ok (record { stream = n; done = false }),
    record m { session = session; metrics = increment_conn_streams m.metrics },
  )

  -- Once closed, a connection opens nothing; both calls differ in the session's side only.
  abbrev start_stream : (S → Option ℕ × S) → MuxConn S → Result PoolError TrackedStream × MuxConn S
  start_stream f m = if m.closed then (err connection_closed, m) else track (f m.session) m

module _ {S : Type 0} (y : Yamux S) where
  unfoldable pub open_stream : MuxConn S → Result PoolError TrackedStream × MuxConn S
  open_stream m = start_stream y.open_session_stream m

  unfoldable pub accept_stream : MuxConn S → Result PoolError TrackedStream × MuxConn S
  accept_stream m = start_stream y.accept_session_stream m

  abbrev close_result : Bool → Result PoolError (Unit {0})
  close_result true = err close_failed
  close_result false = ok tt

  unfoldable pub close : MuxConn S → Result PoolError (Unit {0}) × MuxConn S
  close m =
      let r = y.close_session m.session in
      if m.closed then (ok tt, m) else (close_result r.0, record m { closed = true; session = r.1 })

  -- `trackedStream.Close`: the counter goes down the first time only.
  unfoldable pub close_tracked :
      TrackedStream → MuxConn S → Result PoolError (Unit {0}) × TrackedStream × MuxConn S
  close_tracked t m =
      let r = y.close_session_stream t.stream m.session in
      (
        close_result r.0,
        record t { done = true },
        record m {
          session = r.1;
          metrics = if t.done then m.metrics else decrement_conn_streams m.metrics;
        },
      )
