-- ===== src/Pool/State.antt =====
-- `Pool` of pool/pool.go and its operations. Every part of the code that holds the mutex is one step.
-- Connections are shared, so the pool's slice holds their places in memory, and the memory is part of
-- the state.
use revdial.Common.{
  ℕ, ℤ, pos, Bool, true, false, List, [], ◌∷◌, ◌++◌, length, Option, none, some, Result, ok, err,
  if◌then◌else◌, ◌==◌, leb_ℤ,
}
use revdial.Pool.Config.{Config, PoolError, at_capacity, validate, default_config}
use revdial.Pool.Metrics.{Metrics, new_metrics, set_connection_count}
use revdial.Pool.MuxConn.{MuxConn, TrackedStream, num_streams}
use revdial.Pool.Scaler.{AutoScaler, new_auto_scaler}

-- `has_factory` is whether `Start` has set `onNewConn`, `monitoring` whether the
-- goroutine that it starts is running.
pub record Pool (S : Type 0) : Type 0 where
  pub config : Config
  pub metrics : Metrics
  pub scaler : AutoScaler
  pub connections : List ℕ
  pub memory : ℕ → MuxConn S
  pub has_factory : Bool
  pub monitoring : Bool

-- `poolTrackedStream`: the stream of a connection, with a `sync.Once` of its own.
pub record PoolStream : Type 0 where
  pub conn : ℕ
  pub tracked : TrackedStream
  pub done : Bool

abbrev pub or_defaults : Option Config → Config
or_defaults none = default_config
or_defaults (some c) = c

module _ {S : Type 0} where
  abbrev pub streams_of : Pool S → ℕ → ℤ
  streams_of p conn = num_streams (p.memory conn)

  abbrev pub write_conn : ℕ → MuxConn S → Pool S → Pool S
  write_conn conn m p = record p { memory = λ i. if i == conn then m else p.memory i }

  -- The slice changes together with the count in the metrics.
  abbrev pub with_connections : List ℕ → Pool S → Pool S
  with_connections conns p = record p {
    connections = conns;
    metrics = set_connection_count (length conns) p.metrics;
  }

  abbrev pub initial : Config → ℕ → (ℕ → MuxConn S) → Pool S
  initial c now memory = record {
    config = c;
    metrics = new_metrics;
    scaler = new_auto_scaler c now;
    connections = [];
    memory = memory;
    has_factory = false;
    monitoring = false;
  }

  abbrev pub built : Result PoolError (Unit {0}) × Config → ℕ → (ℕ → MuxConn S) → Option (Pool S)
  built (ok a, c) now memory = some (initial c now memory)
  built (err e, c) now memory = none

  -- `New`; none is its panic on a configuration that is not valid.
  unfoldable pub new : Option Config → ℕ → (ℕ → MuxConn S) → Option (Pool S)
  new c now memory = built (validate (or_defaults c)) now memory

  abbrev pub start : Pool S → Pool S
  start p = record p { has_factory = true; monitoring = true }

  unfoldable pub add_connection : ℕ → Pool S → Result PoolError (Unit {0}) × Pool S
  add_connection conn p =
      if leb_ℤ p.config.max_connections (pos (length p.connections))
      then (err at_capacity, p)
      else (ok tt, with_connections (p.connections ++ conn ∷ []) p)
