-- ===== src/Pool/Streams.antt =====
-- The counters of streams and of latencies.
use revdial.Common.{
  ℕ, suc, ◌+◌, ◌-◌, ◌/◌, ◌%◌, ◌^◌, ◌<◌, ◌≡◌, refl, ◌∙◌, pos, value, List, [], ◌∷◌, length, false,
  arith, ◌==◌, Bool-cases, inl, inr, Option, none, some, Ends, ==_refl,
}
use revdial.Pool.MuxConn.{Yamux, track, close_tracked, open_stream}
use revdial.Pool.State.{Pool, PoolStream}
use revdial.Pool.Operations.{opened, open_on, close_stream}
use revdial.Pool.Metrics.{Metrics, record_latency, reset_latency, avg_latency}

abbrev pub record_all : List ℕ → Metrics → Metrics
record_all [] m = m
record_all (d ∷ ds) m = record_all ds (record_latency (pos d) m)

abbrev pub sum : List ℕ → ℕ
sum [] = 0
sum (d ∷ ds) = d + sum ds

-- Both counters, while nothing overflows.
record_all-sum :
    (ds : List ℕ) (m : Metrics)
    → m.latency_sum + sum ds < 2 ^ 63
    → m.latency_count + length ds < 2 ^ 63
    → ((record_all ds m).latency_sum ≡ m.latency_sum + sum ds)
      × ((record_all ds m).latency_count ≡ m.latency_count + length ds)
record_all-sum [] m h k = omega arith
record_all-sum (d ∷ ds) m h k =
    let a : (m.latency_sum + d % 2 ^ 64) % 2 ^ 64 ≡ m.latency_sum + d = omega arith in
    let b : (m.latency_count + 1) % 2 ^ 64 ≡ m.latency_count + 1 = omega arith in
    let (p, q) = record_all-sum ds (record_latency (pos d) m) (omega arith) (omega arith) in
    (p ∙ omega arith, q ∙ omega arith)

value_small : (n : ℕ) → n < 2 ^ 63 → value 64 n ≡ pos n
value_small n h = ground arith

avg_of :
    (m : Metrics) (s n : ℕ)
    → m.latency_sum ≡ s
    → m.latency_count ≡ suc n
    → s < 2 ^ 63
    → suc n < 2 ^ 63
    → avg_latency m ≡ pos (s / suc n)
avg_of m s n e f h k =
    let z : (suc n == 0) ≡ false = ground arith in
    simp (e, f, z, value_small s h, value_small (suc n) k)

-- After a reset the average of the latencies recorded is their sum divided by their number, while
-- the sum and the number are below 2^63.
pub avg_latency-record_all :
    (d : ℕ) (ds : List ℕ) (m : Metrics)
    → sum (d ∷ ds) < 2 ^ 63
    → length (d ∷ ds) < 2 ^ 63
    → avg_latency (record_all (d ∷ ds) (reset_latency m)) ≡ pos (sum (d ∷ ds) / length (d ∷ ds))
avg_latency-record_all d ds m h k =
    let (p, q) = record_all-sum (d ∷ ds) (reset_latency m) (omega arith) (omega arith) in
    avg_of (record_all (d ∷ ds) (reset_latency m)) (sum (d ∷ ds)) (length ds) (p ∙ omega arith)
      (q ∙ omega arith) h k

up_down : (n : ℕ) → n < 2 ^ 64 → ((n + 1) % 2 ^ 64 + (2 ^ 64 - 1)) % 2 ^ 64 ≡ n
up_down n h = omega arith

up_down_conn : (n : ℕ) → n < 2 ^ 32 → ((n + 1) % 2 ^ 32 + (2 ^ 32 - 1)) % 2 ^ 32 ≡ n
up_down_conn n h = omega arith

module _ {S : Type 0} (y : Yamux S) where
  -- The counters of the pool and of a connection are those of an earlier pool.
  abbrev pub SameStreams : Pool S → ℕ → Pool S → Type 0
  SameStreams p conn q =
      (q.metrics.active_streams ≡ p.metrics.active_streams)
      × ((q.memory conn).metrics.active_streams ≡ (p.memory conn).metrics.active_streams)

  -- The pool after a stream is closed, and after it is closed again.
  abbrev pub closed_once : PoolStream → Pool S → Pool S
  closed_once t q = (close_stream y t q).2

  abbrev pub closed_twice : PoolStream → Pool S → Pool S
  closed_twice t q = let r = close_stream y t q in (close_stream y r.1 r.2).2

  abbrev pub Balanced : Pool S → ℕ → PoolStream → Pool S → Type 0
  Balanced p conn t q = SameStreams p conn (closed_once t q) × SameStreams p conn (closed_twice t q)

  track-Balanced :
      (o : Option ℕ × S) (conn : ℕ) (p : Pool S)
      → p.metrics.active_streams < 2 ^ 64
      → (p.memory conn).metrics.active_streams < 2 ^ 32
      → Ends
          (Balanced p conn)
          (λ e q. SameStreams p conn q)
          (opened conn (track o (p.memory conn)) p)
  unfolding close_stream close_tracked
  track-Balanced (none, s) conn p h k = record { holds = simp (==_refl conn) (refl, refl) }
  track-Balanced (some n, s) conn p h k = record {
    holds = simp (==_refl conn, up_down _ h, up_down_conn _ k) ((refl, refl), (refl, refl));
  }

  -- Where `OpenStream` on a connection gives a stream, one or two `Close` calls of it bring the counters
  -- of the pool and of the connection back to what they were; where it fails they are unchanged.
  pub open_on-Balanced :
      (conn : ℕ) (p : Pool S)
      → p.metrics.active_streams < 2 ^ 64
      → (p.memory conn).metrics.active_streams < 2 ^ 32
      → Ends (Balanced p conn) (λ e q. SameStreams p conn q) (open_on y conn p)
  unfolding open_on open_stream
  open_on-Balanced conn p h k = elim (Bool-cases (p.memory conn).closed) [
    | inl c ↦ simp c (record { holds = simp (==_refl conn) (refl, refl) })
    | inr c ↦ simp c (track-Balanced (y.open_session_stream (p.memory conn).session) conn p h k)
  ]
