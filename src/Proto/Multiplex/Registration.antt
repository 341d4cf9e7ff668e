-- ===== src/Proto/Multiplex/Registration.antt =====
-- Both ends of a registration by version 2.
use revdial.Common.{
  ℕ, ◌≡◌, refl, List, [], ◌∷◌, length, ok, none, some, Option, true, false, Result,
}
use revdial.Mux.{Config, to_yamux}
use revdial.Proto.Static.{no_auth, cmd_register, cmd_mux_init, cmd_mux_ready, res_success}
use revdial.Proto.Failure.{Error}
use revdial.Proto.Conn.{Conn, read_msg, write, close, send_request}
use revdial.Proto.Conn.Laws.{healthy, read_uuid}
use revdial.Proto.Uuid.{Uuid}
use revdial.Proto.Client.Types as Dialling
use revdial.Proto.Client.Session.{establish, handle_auth}
use revdial.Proto.Server.Types as Serving
use revdial.Proto.Server.Init.{handle_init, try_methods}
use revdial.Proto.Server.Init.{handle_auth as server_handle_auth}
use revdial.Proto.Handshake.Rounds.{new_at, plain}
use revdial.Proto.Multiplex.Yamux.{Yamux, sizes}
use revdial.Proto.Multiplex.ClientEnd.{ClientV2, register}
use revdial.Proto.Multiplex.ClientEnd as ClientEnd
use revdial.Proto.Multiplex.ServerEnd.{ServerV2, process, register_on_control}
use revdial.Proto.Handshake.ServerSteps.{server_at}
use revdial.Proto.Multiplex.ServerEnd as ServerEnd
use revdial.Proto.Multiplex.Wires.{Wires, Settles, silence, settles, round}

-- `y q` stands for yamux where q is what comes over the first stream. Documented: over an open
-- connection both ends start a session with a configuration that yamux takes, and the first stream
-- that one end opens is the first that the other accepts.
pub record Carries {S R : Type 0} (y : List (List ℕ) → Yamux S R)
    (client_config server_config : Config) : Type 0 where
  pub client_session : List (List ℕ) → Conn → S
  pub client_rest : List (List ℕ) → Conn → S
  pub server_session : List (List ℕ) → Conn → S
  pub server_rest : List (List ℕ) → Conn → S
  pub client_starts :
      (q : List (List ℕ)) (conn : Conn)
      → (y q).client_session (to_yamux (y q).yamux_default client_config) conn
        ≡ some (client_session q conn)
  pub client_opens :
      (q : List (List ℕ)) (conn : Conn)
      → (y q).open_stream (client_session q conn) ≡ (some (healthy q []), client_rest q conn)
  pub server_starts :
      (q : List (List ℕ)) (conn : Conn)
      → (y q).server_session (to_yamux (y q).yamux_default server_config) conn
        ≡ some (server_session q conn)
  pub server_accepts :
      (q : List (List ℕ)) (conn : Conn)
      → (y q).accept_stream (server_session q conn) ≡ (some (healthy q []), server_rest q conn)

-- What an end has written: over the connection, which the session has taken over from some point on,
-- and over the control stream.
abbrev written : Option Conn → Conn → List (List ℕ)
written none conn = conn.outbound
written (some below) conn = below.outbound

abbrev streamed : Option Conn → List (List ℕ)
streamed none = []
streamed (some stream) = stream.outbound

module _ {S : Type 0} where
  abbrev pub requests_of : Result Error (Unit {0}) × ClientV2 S → Wires
  requests_of (r, c) = record { plain = written c.below c.base.conn; control = streamed c.control }

  abbrev pub replies_of : Result Error (Unit {0}) × ServerV2 S → Wires
  replies_of (r, s) = record { plain = written s.below s.base.conn; control = streamed s.control }

  -- The client is registered over a session, on an open control stream.
  abbrev pub HasRegistered : Result Error (Unit {0}) × ClientV2 S → Type 0
  HasRegistered (r, c) =
      (r ≡ ok tt)
      × (c.is_v2 ≡ true)
      × (c.base.state ≡ Dialling.registered)
      × (c.base.ctx ≡ Dialling.live)
      × (c.base.conn.closed ≡ false)

  abbrev pub Serves : List ℕ → Result Error (Unit {0}) × ServerV2 S → Type 0
  Serves id (r, s) =
      (r ≡ ok tt)
      × (s.is_v2 ≡ true)
      × (s.base.state ≡ Serving.registered)
      × (s.base.id ≡ id)
      × (s.base.conn.closed ≡ false)

module _ {S R : Type 0} (u : Uuid) (y : List (List ℕ) → Yamux S R) (id : List ℕ)
    (client_config server_config : Config) where
  abbrev pub client_run : Wires → Result Error (Unit {0}) × ClientV2 S
  client_run w =
      register (y w.control) id (record (ClientEnd.over (new_at no_auth [] (healthy w.plain []))) {
        mux_config = client_config;
      })

  abbrev pub server_run : Wires → Result Error (Unit {0}) × ServerV2 S
  server_run w =
      process u (y w.control)
        (record (ServerEnd.over (plain (healthy w.plain []))) { mux_config = server_config })

  abbrev greeting : List (List ℕ)
  greeting = (1 ∷ 1 ∷ no_auth ∷ []) ∷ []

  abbrev asking : List (List ℕ)
  asking = (1 ∷ 1 ∷ no_auth ∷ []) ∷ (1 ∷ cmd_mux_init ∷ sizes client_config) ∷ []

  abbrev ready : List (List ℕ)
  ready = (1 ∷ no_auth ∷ []) ∷ (1 ∷ cmd_mux_ready ∷ []) ∷ sizes server_config ∷ []

  client_first : requests_of (client_run silence) ≡ record { plain = greeting; control = [] }
  unfolding register establish handle_auth send_request read_msg write
  client_first = refl

  server_first :
      replies_of (server_run (record { plain = greeting; control = [] }))
      ≡ record { plain = (1 ∷ no_auth ∷ []) ∷ []; control = [] }
  unfolding process handle_init try_methods server_handle_auth read_msg write close
  server_first = refl

  client_second :
      requests_of (client_run (record { plain = (1 ∷ no_auth ∷ []) ∷ []; control = [] }))
      ≡ record { plain = asking; control = [] }
  unfolding register establish handle_auth send_request read_msg write
  client_second = refl

  module _ (w : Carries y client_config server_config) where
    server_second :
        replies_of (server_run (record { plain = asking; control = [] }))
        ≡ record { plain = ready; control = [] }
    unfolding process handle_init try_methods server_handle_auth read_msg write close sizes
        register_on_control
    server_second = simp (w.server_starts, w.server_accepts) refl

    client_third :
        requests_of (client_run (record { plain = ready; control = [] }))
        ≡ record { plain = asking; control = (1 ∷ cmd_register ∷ id) ∷ [] }
    unfolding register establish handle_auth send_request read_msg write sizes
    client_third = simp (w.client_starts, w.client_opens) refl

    module _ (n : length id ≡ 16) where
      -- The server once the session runs, before and after the registration.
      abbrev at_control : List (List ℕ) → Conn → ServerV2 S
      at_control segs conn =
          record (ServerEnd.over (server_at Serving.processing [] none true conn)) {
            session = some (w.server_rest segs conn);
            mux_config = server_config;
            is_v2 = true;
            below = some conn;
            control = some (healthy segs []);
          }

      control_registers :
          (segs : List (List ℕ)) (conn : Conn)
          → register_on_control u (at_control ((1 ∷ cmd_register ∷ id) ∷ segs) conn) ≡ (
            ok tt,
            record (ServerEnd.over (
                server_at Serving.registered id none true
                  (healthy ([] ∷ segs) ((1 ∷ res_success ∷ []) ∷ [])))) {
                    session = some (w.server_rest ((1 ∷ cmd_register ∷ id) ∷ segs) conn);
                    mux_config = server_config;
                    is_v2 = true;
                    below = some conn;
                    control = some (healthy ([] ∷ segs) ((1 ∷ res_success ∷ []) ∷ []));
                  },
          )
      unfolding register_on_control read_msg write
      control_registers segs conn = simp (read_uuid id segs [] n, u.from_bytes_sixteen id n)

      server_reaches_control :
          (segs : List (List ℕ))
          → server_run (record { plain = asking; control = segs })
            ≡ register_on_control u (at_control segs (healthy ([] ∷ []) ready))
      unfolding process handle_init try_methods server_handle_auth read_msg write close sizes
      server_reaches_control segs = simp (w.server_starts, w.server_accepts)

      server_third :
          let asked : Wires = record { plain = asking; control = (1 ∷ cmd_register ∷ id) ∷ [] } in
          Serves id (server_run asked)
          × (replies_of (server_run asked)
              ≡ record { plain = ready; control = (1 ∷ res_success ∷ []) ∷ [] })
      server_third =
          rw
            (
              server_reaches_control ((1 ∷ cmd_register ∷ id) ∷ []),
              control_registers [] (healthy ([] ∷ []) ready),
            )
            ((refl, refl, refl, refl, refl), refl)

      client_ends :
          let all : Wires = record { plain = ready; control = (1 ∷ res_success ∷ []) ∷ [] } in
          HasRegistered (client_run all)
          × (requests_of (client_run all)
              ≡ record { plain = asking; control = (1 ∷ cmd_register ∷ id) ∷ [] })
      unfolding register establish handle_auth send_request read_msg write sizes
      client_ends = simp (w.client_starts, w.client_opens) ((refl, refl, refl, refl, refl), refl)

      -- Without authentication, between ends whose configurations yamux takes, Register of version 2 with
      -- an id of 16 bytes against Process of version 2 settles after three round trips: both
      -- succeed, both use a session, and the server holds the client's id.
      pub register_v2 :
          Settles client_run requests_of server_run replies_of 3 HasRegistered (Serves id)
      register_v2 =
          let one =
            round client_run requests_of server_run replies_of 0 refl client_first server_first in
          let two =
            round client_run requests_of server_run replies_of 1 one client_second server_second in
          let three =
            round client_run requests_of server_run replies_of 2 two client_third server_third.1 in
          settles client_run requests_of server_run replies_of 3 three client_ends.1 server_third.1
            client_ends.0 server_third.0
