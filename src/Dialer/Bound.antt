-- ===== src/Dialer/Bound.antt =====
-- A stream that the listener's end asks to have bound, at the dialer's end.
use revdial.Common.{ℕ, ◌≡◌, refl, ap, List, [], ◌∷◌, length, ok, some, false, Bool, Result, ==_refl}
use revdial.Proto.Static.{cmd_bind, res_success}
use revdial.Proto.Failure.{Error}
use revdial.Proto.Conn.{Conn, read, write}
use revdial.Proto.Conn.Laws.{healthy, read_uuid}
use revdial.Proto.Uuid.{Uuid}
use revdial.Proto.Multiplex.Wires.{Wires, Settles, silence, settles, round}
use revdial.Dialer.Requests.{Requests, remove_request, take_request, release, send, dialled, wait}
use revdial.Dialer.Streams.{handle_v2_stream, read_bind}
use revdial.Listener.Streams.{bind_stream}

abbrev pub requests_of : Result Error (Unit {0}) × Conn → Wires
requests_of (r, stream) = record { plain = stream.outbound; control = [] }

abbrev pub replies_of : Conn × Requests → Wires
replies_of (stream, r) = record { plain = stream.outbound; control = [] }

abbrev pub IsBound : Result Error (Unit {0}) × Conn → Type 0
IsBound (r, stream) = (r ≡ ok tt) × (stream.closed ≡ false)

-- The call that waits for request m gets stream n, and its handler has left the stream open.
abbrev pub Dials : ℕ → List ℕ → ℕ → Conn × Requests → Type 0
Dials n id m (stream, r) =
    (stream.closed ≡ false)
    × ((pick later : Bool) → (wait later id m (send false pick n m r)).0 ≡ dialled n)

module _ (u : Uuid) (id : List ℕ) (n : ℕ) (r : Requests) where
  abbrev pub listener_run : Wires → Result Error (Unit {0}) × Conn
  listener_run w = bind_stream id (healthy w.plain [])

  abbrev pub dialer_run : Wires → Conn × Requests
  dialer_run w = handle_v2_stream u n (healthy w.plain []) r

  abbrev asking : List (List ℕ)
  asking = (1 ∷ cmd_bind ∷ id) ∷ []

  abbrev granting : List (List ℕ)
  granting = (1 ∷ res_success ∷ []) ∷ []

  listener_asks : requests_of (listener_run silence) ≡ record { plain = asking; control = [] }
  unfolding bind_stream write read
  listener_asks = refl

  listener_ends :
      let answered : Wires = record { plain = granting; control = [] } in
      IsBound (listener_run answered)
      × (requests_of (listener_run answered) ≡ record { plain = asking; control = [] })
  unfolding bind_stream write read
  listener_ends = ((refl, refl), refl)

  dialer_answers :
      length id ≡ 16
      → dialer_run (record { plain = asking; control = [] })
        ≡ (healthy ([] ∷ []) granting, take_request n id r)
  unfolding handle_v2_stream read_bind write read
  dialer_answers l = simp (read_uuid id [] [] l, u.from_bytes_sixteen id l) refl

  pub taken :
      (m : ℕ)
      → (remove_request id r).0 ≡ some m
      → r.cancelled m ≡ false
      → r.channel m ≡ []
      → (pick later : Bool)
      → (wait later id m (send false pick n m (take_request n id r))).0 ≡ dialled n
  unfolding wait send release take_request remove_request
  taken m e c h pick later = simp (e, c, h, ==_refl) refl

  -- Where a call of `DialContext` waits for a connection under an id of 16 bytes, its context is live
  -- and nothing was sent to it, the listener's request to bind a stream under that id settles after
  -- one round trip: both ends leave the stream open, and the call returns it.
  pub stream_dialled :
      (m : ℕ)
      → length id ≡ 16
      → (remove_request id r).0 ≡ some m
      → r.cancelled m ≡ false
      → r.channel m ≡ []
      → Settles listener_run requests_of dialer_run replies_of 1 IsBound (Dials n id m)
  stream_dialled m l e c h =
      let answers = dialer_answers l in
      let one =
        round listener_run requests_of dialer_run replies_of 0 refl listener_asks
          (ap replies_of answers) in
      settles listener_run requests_of dialer_run replies_of 1 one listener_ends.1
        (ap replies_of answers) listener_ends.0 (rw answers (refl, taken m e c h))
