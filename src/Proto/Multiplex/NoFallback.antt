-- ===== src/Proto/Multiplex/NoFallback.antt =====
-- A client of version 2 at a server of version 1.
use revdial.Common.{ℕ, ◌≡◌, refl, List, [], err, none, true, false, Result}
use revdial.Mux.{Config}
use revdial.Proto.Static.{no_auth, cmd_mux_init}
use revdial.Proto.Failure.{Error, eof, unsupported_command}
use revdial.Proto.Conn.{read_msg, write, close, send_request}
use revdial.Proto.Conn.Laws.{healthy}
use revdial.Proto.Uuid.{Uuid}
use revdial.Proto.Client.Types as Dialling
use revdial.Proto.Client.Session.{establish, handle_auth}
use revdial.Proto.Server.Types.{Server}
use revdial.Proto.Server.Types as Serving
use revdial.Proto.Server.Init.{handle_init, try_methods}
use revdial.Proto.Server.Init.{handle_auth as server_handle_auth}
use revdial.Proto.Server.Session.{process, handle_command}
use revdial.Proto.Handshake.Rounds.{new_at, plain}
use revdial.Proto.Multiplex.Yamux.{Yamux}
use revdial.Proto.Multiplex.ClientEnd.{ClientV2, register, over}
use revdial.Proto.Multiplex.Wires.{Wires, Settles}
use revdial.Proto.Multiplex.Registration.{requests_of}

abbrev pub replies_of : Result Error (Unit {0}) × Server → Wires
replies_of (r, s) = record { plain = s.conn.outbound; control = [] }

-- The call has failed, and nothing has been closed or cancelled.
abbrev pub Hangs : {S : Type 0} → Result Error (Unit {0}) × ClientV2 S → Type 0
Hangs (r, c) =
    (r ≡ err eof)
    × (c.session ≡ none)
    × (c.base.state ≡ Dialling.processing)
    × (c.base.ctx ≡ Dialling.live)
    × (c.base.conn.closed ≡ false)

abbrev pub Refuses : Result Error (Unit {0}) × Server → Type 0
Refuses (r, s) =
    (r ≡ err (unsupported_command cmd_mux_init))
    × (s.state ≡ Serving.processing)
    × (s.conn.closed ≡ true)

module _ {S R : Type 0} (u : Uuid) (y : List (List ℕ) → Yamux S R) (id : List ℕ)
    (config : Config) where
  abbrev pub client_run : Wires → Result Error (Unit {0}) × ClientV2 S
  client_run w =
      register (y w.control) id
        (record (over (new_at no_auth [] (healthy w.plain []))) { mux_config = config })

  abbrev pub server_run : Wires → Result Error (Unit {0}) × Server
  server_run w = process u (plain (healthy w.plain []))

  -- Register of version 2, which says that it falls back to version 1, does not: a client without
  -- credentials that runs it against Process of version 1 on a server without authentication settles
  -- after one round trip, the server refuses the command and closes the
  -- connection, and the client fails in its processing state, registered with neither version.
  pub no_fallback : Settles client_run requests_of server_run replies_of 1 Hangs Refuses
  unfolding register establish handle_auth send_request read_msg write process handle_init
      try_methods server_handle_auth handle_command close
  no_fallback = record {
    settled = refl;
    client_ends = (refl, refl, refl, refl, refl);
    server_ends = (refl, refl, refl);
  }
