-- ===== src/Tunnel/Dialling.antt =====
-- From a call of `DialContext` to the connection that it gets.
use revdial.Common.{ℕ, ◌≡◌, refl, List, [], ◌∷◌, length, Option, some, false, Bool, arith}
use revdial.Connmng.Manager.{ServerConn, got, get_conn}
use revdial.Proto.Conn.{Conn}
use revdial.Proto.Conn.Laws.{healthy}
use revdial.Proto.Uuid.{Uuid}
use revdial.Proto.Commands.{Json}
use revdial.Proto.Client.Types.{live, disable_v2_fallback}
use revdial.Proto.Server.Types.{registered}
use revdial.Proto.Multiplex.Yamux.{Yamux}
use revdial.Proto.Multiplex.Wires.{Settles}
use revdial.Dialer.Requests.{add_request}
use revdial.Dialer.Runs.{Reached}
use revdial.Dialer.State.{Dialer, requested}
use revdial.Dialer.Bound.{Dials}
use revdial.Dialer.Bound as Bound
use revdial.Listener.State.{World, Listener}
use revdial.Listener.Closing.{IsCalled}
use revdial.Tunnel.Accepting.{Accepts}
use revdial.Tunnel.Accepting as Accepting
use revdial.Tunnel.Streams.{Multiplexes, accept_v2-DialContext}
use revdial.Tunnel.Streams as Streamed
use revdial.Tunnel.Connections.{DialsConn, accept_v1-DialContext}
use revdial.Tunnel.Connections as Connected
use revdial.Tunnel.Asking.{having_asked, having_heard, request_connection-listener}
use revdial.Tunnel.Asking as Asking

-- What a call of `DialContext` under the id finds: a registered server, a live listener with nothing
-- in its channel at the other end, and a table of requests that was reached, with a live context.
pub record CanDial {S : Type 0} (id : List ℕ) (conn : ServerConn) (d : Dialer S) (l : Listener S)
    : Type 0 where
  pub sixteen : length id ≡ 16
  pub got_conn : (get_conn d.manager).0 ≡ got conn
  pub is_registered : (d.servers conn.handle).base.state ≡ registered
  pub client_live : l.client.base.ctx ≡ live
  pub no_commands : l.client.base.cmds ≡ []
  pub listener_live : l.cancelled ≡ false
  pub reached : Reached d.requests
  pub call_live : d.requests.cancelled d.requests.made ≡ false

module _ {S R V : Type 0} (u : Uuid) (y : Yamux S R) (json : Json V) (pick : Bool) (id : List ℕ)
    (conn : ServerConn) (d : Dialer S) (l : Listener S) (c : CanDial id conn d l) where
  -- The call has made its request, and the listener has the command.
  abbrev pub Asks : Type 0
  Asks =
      Settles (Asking.dialer_run u y id conn d) (Asking.requests_of u y id conn d)
        (Asking.listener_run u y json pick id l) (Asking.replies_of u y json pick id l) 1
        (λ r. r ≡ (requested d.requests.made, having_asked u y id conn d))
        (λ after. after ≡ having_heard u y json pick id l)

  asks : Asks
  unfolding add_request
  asks =
      request_connection-listener u y json pick id conn d l c.sixteen c.got_conn c.is_registered
        c.client_live (rw c.no_commands (omega arith))

  abbrev pub heard : Listener S
  heard = having_heard u y json pick id l

  pub heard-IsCalled : IsCalled id [] heard
  heard-IsCalled = record { live = c.listener_live; next_command = rw c.no_commands refl }

  module _ (world : List (List ℕ) → World S R) (opened : List (List ℕ) → S) (session : S)
      (opens : (q : List (List ℕ))
        → (world q).yamux.open_stream session ≡ (some (healthy q []), opened q))
      (parse_id : List ℕ → Option (List ℕ)) (dialled : Option Conn) (choose : ℕ → Bool) (n : ℕ)
      (m : Multiplexes session l) where
    pub heard-Multiplexes : Multiplexes session heard
    heard-Multiplexes = record {
      version = m.version;
      no_pool = m.no_pool;
      has_session = m.has_session;
    }

    -- In version 2, with a listener whose settings have no pool, from a call of DialContext under an id
    -- of 16 bytes to its connection: where GetConn gives a registered server, and the listener at its
    -- other end is live with nothing in its channel, the command settles after one round trip, then
    -- Accept against the handler of the stream that it opens after another. The call gets that stream,
    -- Accept returns it, and both leave it open.
    pub dial_v2 :
        Asks
        × Settles
            (Streamed.listener_run world opened session opens parse_id dialled choose id [] heard
              heard-IsCalled heard-Multiplexes)
            Accepting.requests_of
            (Bound.dialer_run u id n (having_asked u y id conn d).requests)
            Bound.replies_of
            1
            (Accepts l.left)
            (Dials n id d.requests.made)
    unfolding add_request
    dial_v2 = (
      asks,
      accept_v2-DialContext world opened session opens parse_id dialled choose id [] heard
          heard-IsCalled heard-Multiplexes u n d.requests c.sixteen c.reached c.call_live,
    )

  module _ (w : World S R) (parse_id : List ℕ → Option (List ℕ)) (choose : ℕ → Bool) (n : ℕ)
      (version : l.client.is_v2 ≡ false) (opts : l.settings.client_opts ≡ disable_v2_fallback ∷ [])
      (plain : d.server_opts ≡ []) where
    -- In version 1, with a dialer without authentication, the command settles after one round trip, then
    -- Accept, on the connection that it dials, against the handler of that connection after two more. The
    -- call of DialContext gets that connection, Accept returns it, and both leave it open.
    pub dial_v1 :
        Asks
        × Settles
            (Connected.listener_run w parse_id choose id [] heard heard-IsCalled version opts)
            Accepting.requests_of
            (Connected.dialer_run u y n (having_asked u y id conn d) plain)
            (Connected.replies_of u y n (having_asked u y id conn d) plain)
            2
            (Accepts l.left)
            (DialsConn n id d.requests.made)
    unfolding add_request
    dial_v1 = (
      asks,
      accept_v1-DialContext w parse_id choose id [] heard heard-IsCalled version opts u y n
          (record (having_asked u y id conn d) { requests = d.requests }) plain c.sixteen c.reached
          c.call_live,
    )
