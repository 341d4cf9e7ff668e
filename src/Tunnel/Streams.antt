-- ===== src/Tunnel/Streams.antt =====
-- Version 2: a stream of the session.
use revdial.Common.{ℕ, ◌≡◌, refl, ap, ◌∙◌, List, [], length, some, none, Option, true, false, Bool}
use revdial.Proto.Conn.{Conn}
use revdial.Proto.Conn.Laws.{healthy}
use revdial.Proto.Uuid.{Uuid}
use revdial.Proto.Commands.{Command, command_type}
use revdial.Proto.Multiplex.Wires.{Wires, Settles, Settles-instead}
use revdial.Dialer.Requests.{Requests, add_request}
use revdial.Dialer.Runs.{Reached, added_request}
use revdial.Dialer.Bound.{dialer_run, replies_of, IsBound, Dials, stream_dialled}
use revdial.Dialer.Bound as Bound
use revdial.Listener.Closing.{IsCalled}
use revdial.Tunnel.Accepting.{requests_of, Accepts, settled-requests, settled-Accepts}
use revdial.Listener.Streams.{bind_stream}
use revdial.Listener.State.{World, Listener}
use revdial.Listener.Accept.{
  Accepted, accept, accept_loop, accept_connection, accept_v2_stream, settled,
}

-- It is in version 2, with this session and without a pool.
pub record Multiplexes {S : Type 0} (session : S) (l : Listener S) : Type 0 where
  pub version : l.client.is_v2 ≡ true
  pub no_pool : l.settings.pool ≡ none
  pub has_session : l.client.session ≡ some session

-- `world q` stands for what the listener meets where q is what comes over the stream that it opens.
module _ {S R : Type 0} (world : List (List ℕ) → World S R) (opened : List (List ℕ) → S)
    (session : S)
    (opens : (q : List (List ℕ))
      → (world q).yamux.open_stream session ≡ (some (healthy q []), opened q))
    (parse_id : List ℕ → Option (List ℕ)) (dialled : Option Conn) (pick : ℕ → Bool) (id : List ℕ)
    (rest : List Command) (l : Listener S) (c : IsCalled id rest l)
    (m : Multiplexes session l) where
  abbrev pub listener_run : Wires → Accepted × Listener S
  listener_run w = accept (world w.plain) parse_id dialled pick l

  abbrev afterwards : List (List ℕ) → Listener S
  afterwards q = record l {
    client = record l.client {
      base = record l.client.base { cmds = rest };
      session = some (opened q);
    };
  }

  accept-bind_stream :
      (w : Wires)
      → listener_run w ≡ settled (bind_stream id (healthy w.plain [])) (afterwards w.plain)
  unfolding accept accept_loop accept_connection accept_v2_stream command_type
  accept-bind_stream w =
      simp (c.live, c.next_command, m.version, m.no_pool, m.has_session, opens) refl

  -- A listener in version 2, whose next command asks for a connection under an id of 16 bytes, and a
  -- dialer that has just made the request of that id, with its context live: `Accept` against the
  -- handler of the stream settles after one round trip. `Accept` returns the stream that it opened,
  -- the call of `DialContext` gets it, and both leave it open.
  pub accept_v2-DialContext :
      (u : Uuid) (n : ℕ) (r : Requests)
      → length id ≡ 16
      → Reached r
      → r.cancelled r.made ≡ false
      → let a = add_request id r in
        Settles listener_run requests_of
          (dialer_run u id n a.1)
          replies_of
          1
          (Accepts l.left)
          (Dials n id a.0)
  unfolding add_request
  accept_v2-DialContext u n r e reached live =
      let a = add_request id r in
      let added = added_request id r reached in
      Settles-instead (Bound.listener_run u id n a.1) Bound.requests_of listener_run requests_of
        (dialer_run u id n a.1) replies_of 1
        (λ w.
          ap requests_of (accept-bind_stream w)
          ∙ settled-requests id (bind_stream id (healthy w.plain [])) (afterwards w.plain))
        (λ w bound.
          rw (accept-bind_stream w)
            (settled-Accepts id (bind_stream id (healthy w.plain [])) (afterwards w.plain) bound))
        (stream_dialled u id n a.1 a.0 e added.0 live added.1)
