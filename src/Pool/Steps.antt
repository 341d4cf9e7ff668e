-- ===== src/Pool/Steps.antt =====
-- The pool under concurrent use: each constructor is one stretch of code that runs under a mutex or is
-- one atomic call, and a run takes them in any order.
use revdial.Common.{
  ℕ, ℤ, pos, Bool, true, false, length, Option, none, some, Result, ok, err, if◌then◌else◌, leb_ℤ,
}
use revdial.Pool.Config.{PoolError}
use revdial.Pool.Metrics.{record_latency}
use revdial.Pool.MuxConn.{MuxConn, Yamux}
use revdial.Pool.Scaler.{ScaleAction, evaluate}
use revdial.Pool.Scaler as Action
use revdial.Pool.State.{Pool, PoolStream, start, add_connection, write_conn}
use revdial.Pool.Operations.{
  remove_connection, open_on, added, cooled, perform, close_stream, close_pool, scale_up,
  scale_down, evaluate_scaling, cool, reset,
}

module _ {S : Type 0} (y : Yamux S) where
  -- `uses` is what others do with the connections themselves.
  pub data Step : Pool S → Pool S → Type 0 where
    starts : (p : Pool S) → Step p (start p)
    adds : (conn : ℕ) (p : Pool S) → Step p (add_connection conn p).1
    removes : (conn : ℕ) (p : Pool S) → Step p (remove_connection y conn p).1
    opens : (conn : ℕ) (p : Pool S) → Step p (open_on y conn p).1
    ends_stream : (t : PoolStream) (p : Pool S) → Step p (close_stream y t p).2
    records : (d : ℤ) (p : Pool S) → Step p (record p { metrics = record_latency d p.metrics })
    shrinks : (p : Pool S) → Step p (scale_down y p).1
    cools : (now : ℕ) (p : Pool S) → Step p (cool now p)
    resets : (p : Pool S) → Step p (reset p)
    closes : (p : Pool S) → Step p (close_pool y p).1
    uses : (memory : ℕ → MuxConn S) (p : Pool S) → Step p (record p { memory = memory })

  pub data Reaches (p : Pool S) : Pool S → Type 0 where
    stays : Reaches p p
    goes : {q r : Pool S} → Reaches p q → Step q r → Reaches p r

module _ {S : Type 0} (y : Yamux S) where
  Reaches-trans : {p q r : Pool S} → Reaches y p q → Reaches y q r → Reaches y p r
  Reaches-trans a stays = a
  Reaches-trans a (goes b s) = goes (Reaches-trans a b) s

  one : {p q : Pool S} → Step y p q → Reaches y p q
  one s = goes stays s

  cooled-Reaches :
      (now : ℕ) (p : Pool S) (r : Result PoolError (Unit {0}) × Pool S)
      → Reaches y p r.1
      → Reaches y p (cooled now r)
  cooled-Reaches now p (ok a, q) h = goes h (cools now q)
  cooled-Reaches now p (err e, q) h = h

  added-Reaches : (made : Option (ℕ × MuxConn S)) (p : Pool S) → Reaches y p (added made p).1
  added-Reaches none p = stays
  added-Reaches (some (conn, m)) p = goes (one (uses _ p)) (adds conn (write_conn conn m p))

  if-Reaches :
      (b : Bool) {p : Pool S} (r t : Result PoolError (Unit {0}) × Pool S)
      → Reaches y p r.1
      → Reaches y p t.1
      → Reaches y p (if b then r else t).1
  if-Reaches true r t h k = h
  if-Reaches false r t h k = k

  scale_up-Reaches : (made : Option (ℕ × MuxConn S)) (p : Pool S) → Reaches y p (scale_up made p).1
  unfolding scale_up
  scale_up-Reaches made p =
      if-Reaches (leb_ℤ p.config.max_connections (pos (length p.connections))) _ _ stays
        (if-Reaches p.has_factory _ _ (added-Reaches made p) stays)

  perform-Reaches :
      (action : ScaleAction) (made : Option (ℕ × MuxConn S)) (now : ℕ) (p : Pool S)
      → Reaches y p (perform y action made now p)
  perform-Reaches Action.scale_none made now p = stays
  perform-Reaches Action.scale_up made now p =
      cooled-Reaches now p (scale_up made p) (scale_up-Reaches made p)
  perform-Reaches Action.scale_down made now p =
      cooled-Reaches now p (scale_down y p) (one (shrinks p))

  -- One evaluation of the monitor is a run of the steps.
  pub evaluate_scaling-Reaches :
      (made : Option (ℕ × MuxConn S)) (now later : ℕ) (p : Pool S)
      → Reaches y p (evaluate_scaling y made now later p)
  unfolding evaluate_scaling
  evaluate_scaling-Reaches made now later p =
      goes (perform-Reaches (evaluate now p.metrics p.scaler) made later p) (resets _)
