-- ===== src/Tunnel/Connections.antt =====
-- Version 1: a connection of its own.
use revdial.Common.{
  ℕ, ◌≡◌, refl, ap, ◌∙◌, List, [], ◌∷◌, length, some, Option, true, false, Bool, Result, ==_refl,
}
use revdial.Proto.Static.{no_auth, cmd_bind}
use revdial.Proto.Failure.{Error}
use revdial.Proto.Conn.{Conn, read_msg, write, close, send_request}
use revdial.Proto.Conn.Laws.{healthy, read_uuid}
use revdial.Proto.Uuid.{Uuid}
use revdial.Proto.Commands.{Command, command_type}
use revdial.Proto.Client.Types.{Client, new_client, disable_v2_fallback}
use revdial.Proto.Client.Session.{bind, establish, handle_bind, handle_auth, cancel}
use revdial.Proto.Server.Types.{new_server}
use revdial.Proto.Server.Init.{handle_init, try_methods}
use revdial.Proto.Server.Init.{handle_auth as server_handle_auth}
use revdial.Proto.Server.Session.{handle_bind as server_handle_bind}
use revdial.Proto.Handshake.Rounds.{new_at}
use revdial.Proto.Multiplex.Yamux.{Yamux}
use revdial.Proto.Multiplex.ServerEnd.{process, process_command, process_v1_command, new_server_v2}
use revdial.Proto.Multiplex.Wires.{Wires, silence, Settles, Settles-instead, round, settles}
use revdial.Dialer.Requests.{add_request, take_request}
use revdial.Dialer.Runs.{Reached, added_request}
use revdial.Dialer.State.{Dialer, handle_connection}
use revdial.Dialer.Bound.{Dials, IsBound, taken}
use revdial.Dialer.Bound as Bound
use revdial.Listener.Closing.{IsCalled}
use revdial.Tunnel.Accepting.{requests_of, Accepts, settled-requests, settled-Accepts}
use revdial.Listener.State.{World, Listener}
use revdial.Listener.Accept.{
  Accepted, accept, accept_loop, accept_connection, accept_v1_connection, settled, bound_client,
}

abbrev greeting : List (List ℕ)
greeting = (1 ∷ 1 ∷ no_auth ∷ []) ∷ []

abbrev hello : List ℕ
hello = 1 ∷ 0 ∷ []

module _ (id : List ℕ) where
  abbrev asking : List (List ℕ)
  asking = (1 ∷ 1 ∷ no_auth ∷ []) ∷ (1 ∷ cmd_bind ∷ id) ∷ []

  -- The client that binds a connection for a listener with no options but its version.
  abbrev binder : Conn → Client
  binder conn = record (new_at no_auth [] conn) { disable_v2 = true }

  abbrev pub binding_run : Wires → Result Error (Unit {0}) × Conn
  binding_run w = bound_client (bind id (binder (healthy w.plain [])))

  binder_greets :
      Bound.requests_of (binding_run silence) ≡ record { plain = greeting; control = [] }
  unfolding bind establish handle_auth write send_request read_msg close cancel
  binder_greets = refl

  binder_asks :
      Bound.requests_of (binding_run (record { plain = hello ∷ []; control = [] }))
      ≡ record { plain = asking; control = [] }
  unfolding bind establish handle_auth handle_bind write send_request read_msg close cancel
  binder_asks = refl

  binder_ends :
      let all : Wires = record { plain = hello ∷ hello ∷ []; control = [] } in
      IsBound (binding_run all)
      × (Bound.requests_of (binding_run all) ≡ record { plain = asking; control = [] })
  unfolding bind establish handle_auth handle_bind write send_request read_msg close cancel
  binder_ends = ((refl, refl), refl)

module _ {S R : Type 0} (u : Uuid) (y : Yamux S R) (n : ℕ) (d : Dialer S)
    (plain : d.server_opts ≡ []) where
  abbrev pub dialer_run : Wires → Dialer S
  dialer_run w = handle_connection u y n (healthy w.plain []) d

  abbrev pub replies_of : Dialer S → Wires
  replies_of after = record { plain = (after.servers n).base.conn.outbound; control = [] }

  dialer_greets :
      replies_of (dialer_run (record { plain = greeting; control = [] }))
      ≡ record { plain = hello ∷ []; control = [] }
  unfolding handle_connection process new_server_v2 new_server handle_init try_methods
      server_handle_auth read_msg write close
  dialer_greets = simp (plain, ==_refl) refl

  module _ (id : List ℕ) (e : length id ≡ 16) where
    dialer_binds :
        let after = dialer_run (record { plain = asking id; control = [] }) in
        ((after.servers n).base.conn ≡ healthy ([] ∷ []) (hello ∷ hello ∷ []))
        × (after.requests ≡ take_request n id d.requests)
    unfolding handle_connection process process_command process_v1_command new_server_v2 new_server
        handle_init try_methods server_handle_auth server_handle_bind read_msg write close
    dialer_binds =
        simp (plain, ==_refl, read_uuid id [] (hello ∷ []) e, u.from_bytes_sixteen id e)
          (refl, refl)

abbrev outbound_of : Conn → Wires
outbound_of conn = record { plain = conn.outbound; control = [] }

-- The call that waits for request m gets connection n, which its handler has left open.
abbrev pub DialsConn : {S : Type 0} → ℕ → List ℕ → ℕ → Dialer S → Type 0
DialsConn n id m after = Dials n id m ((after.servers n).base.conn, after.requests)

module _ {S R : Type 0} (w : World S R) (parse_id : List ℕ → Option (List ℕ)) (pick : ℕ → Bool)
    (id : List ℕ) (rest : List Command) (l : Listener S) (c : IsCalled id rest l)
    (version : l.client.is_v2 ≡ false)
    (opts : l.settings.client_opts ≡ disable_v2_fallback ∷ []) where
  -- The connection that the listener dials gives it what the dialer's end has sent.
  abbrev pub listener_run : Wires → Accepted × Listener S
  listener_run q = accept w parse_id (some (healthy q.plain [])) pick l

  abbrev afterwards : Listener S
  afterwards = record l { client = record l.client { base = record l.client.base { cmds = rest } } }

  accept-bind : (q : Wires) → listener_run q ≡ settled (binding_run id q) afterwards
  unfolding accept accept_loop accept_connection accept_v1_connection command_type new_client
  accept-bind q = simp (c.live, c.next_command, version, opts) refl

  module _ (u : Uuid) (y : Yamux S R) (n : ℕ) (d : Dialer S) (plain : d.server_opts ≡ []) where
    -- A listener in version 1, whose next command asks for a connection under an id of 16 bytes, and a
    -- dialer without authentication that has just made the request of that id, with its context live:
    -- `Accept`, on the connection that it dials, against the dialer's handler of that connection settles
    -- after two round trips. `Accept` returns the connection, the call of `DialContext` gets it, and both
    -- leave it open.
    pub accept_v1-DialContext :
        length id ≡ 16
        → Reached d.requests
        → d.requests.cancelled d.requests.made ≡ false
        → let a = add_request id d.requests in
          Settles listener_run requests_of
            (dialer_run u y n (record d { requests = a.1 }) plain)
            (replies_of u y n (record d { requests = a.1 }) plain)
            2
            (Accepts l.left)
            (DialsConn n id a.0)
    unfolding add_request
    accept_v1-DialContext e reached live =
        let a = add_request id d.requests in
        let asked : Dialer S = record d { requests = a.1 } in
        let added = added_request id d.requests reached in
        let binds = dialer_binds u y n asked plain id e in
        let dialer = dialer_run u y n asked plain in
        let replies = replies_of u y n asked plain in
        let answers = ap outbound_of binds.0 in
        let one =
          round (binding_run id) Bound.requests_of dialer replies 0 refl (binder_greets id)
            (dialer_greets u y n asked plain) in
        let two =
          round (binding_run id) Bound.requests_of dialer replies 1 one (binder_asks id) answers in
        Settles-instead (binding_run id) Bound.requests_of listener_run requests_of dialer replies 2
          {P = IsBound}
          (λ q. ap requests_of (accept-bind q) ∙ settled-requests id (binding_run id q) afterwards)
          (λ q bound. rw (accept-bind q) (settled-Accepts id (binding_run id q) afterwards bound))
          (settles (binding_run id) Bound.requests_of dialer replies 2 two (binder_ends id).1
            answers (binder_ends id).0
            (rw (binds.0, binds.1) (refl, taken u id n a.1 a.0 added.0 live added.1)))
