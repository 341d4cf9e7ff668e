-- ===== src/Proto/Handshake/Rounds.antt =====
-- The handshake of client.go against the one of server.go, where no authentication is asked for.
use revdial.Common.{ℕ, ◌≡◌, refl, ap, List, [], ◌∷◌, length, ok, none, true, false}
use revdial.Proto.Conn.Laws.{healthy}
use revdial.Proto.Static.{cmd_register, cmd_bind, no_auth}
use revdial.Proto.Conn.{Conn, read_msg, write, send_request, close}
use revdial.Proto.Uuid.{Uuid}
use revdial.Proto.Client.Types.{Client, Ctx, ClientState, credentials}
use revdial.Proto.Client.Types
use revdial.Proto.Client.Session.{
  register, bind, establish, handle_register, handle_bind, handle_auth, cancel,
}
use revdial.Proto.Server.Types.{Server, State, Verifier}
use revdial.Proto.Server.Types as Served
use revdial.Proto.Server.Init.{handle_init, try_methods}
use revdial.Proto.Server.Init.{handle_auth as server_handle_auth}
use revdial.Proto.Server.Session.{process, handle_command}
use revdial.Proto.Handshake.ServerSteps.{server_at, init_no_auth, command_register, command_bind}
use revdial.Proto.Handshake.Exchange.{Outcome, Settles, replies_after, settle_two}

-- A client that has done nothing, without and with credentials.
abbrev pub new_at : ℕ → List ℕ → Conn → Client
new_at auth_mode token conn = record {
  conn = conn;
  ctx = Types.unset;
  cmds = [];
  cmds_closed = false;
  token = token;
  auth_mode = auth_mode;
  state = Types.connected;
  disable_v2 = false;
}

abbrev pub HasRegistered : Outcome Client → Type 0
HasRegistered (r, c) =
    (r ≡ ok tt) × (c.state ≡ Types.registered) × (c.ctx ≡ Types.live) × (c.conn.closed ≡ false)

abbrev pub HasBound : Outcome Client → Type 0
HasBound (r, c) =
    (r ≡ ok tt) × (c.state ≡ Types.bound) × (c.ctx ≡ Types.live) × (c.conn.closed ≡ false)

abbrev pub Serves : State → List ℕ → Outcome Server → Type 0
Serves state id (r, s) = (r ≡ ok tt) × (s.state ≡ state) × (s.id ≡ id) × (s.conn.closed ≡ false)

abbrev pub plain : Conn → Server
plain = server_at Served.connected [] none true

abbrev hello : List ℕ
hello = 1 ∷ 0 ∷ []

-- The server's side of the rounds, while the command has not come and when it has.
module _ (u : Uuid) where
  serve_hello :
      (process u (plain (healthy ((1 ∷ 1 ∷ no_auth ∷ []) ∷ []) []))).1.conn.outbound ≡ hello ∷ []
  unfolding process handle_command handle_init try_methods server_handle_auth read_msg write close
  serve_hello = refl

  module _ (id : List ℕ) (n : length id ≡ 16) where
    serve_register :
        process u (plain (healthy ((1 ∷ 1 ∷ no_auth ∷ []) ∷ (1 ∷ cmd_register ∷ id) ∷ []) []))
        ≡ (ok tt, server_at Served.registered id none true (healthy ([] ∷ []) (hello ∷ hello ∷ [])))
    unfolding process
    serve_register = simp (init_no_auth, command_register u id [] none true [] (hello ∷ []) n)

    serve_bind :
        process u (plain (healthy ((1 ∷ 1 ∷ no_auth ∷ []) ∷ (1 ∷ cmd_bind ∷ id) ∷ []) []))
        ≡ (ok tt, server_at Served.bound id none true (healthy ([] ∷ []) (hello ∷ hello ∷ [])))
    unfolding process
    serve_bind = simp (init_no_auth, command_bind u id [] none true [] (hello ∷ []) n)

module _ (u : Uuid) (id : List ℕ) (n : length id ≡ 16) where
  -- Without authentication, Register with an id of 16 bytes against Process settles after two round
  -- trips: both succeed, the client is registered, and the server holds its id as registered.
  pub register-no_auth :
      Settles
        (register id)
        (new_at no_auth [])
        (process u)
        plain
        2
        HasRegistered
        (Serves Served.registered id)
  unfolding register establish handle_register handle_auth read_msg write send_request close cancel
  register-no_auth =
      let served : replies_after (register id) (new_at no_auth []) (process u) plain
            (hello ∷ hello ∷ [])
          ≡ hello ∷ hello ∷ [] =
        ap (λ r. r.1.conn.outbound) (serve_register u id n) in
      settle_two (register id) (new_at no_auth []) (process u) plain (hello ∷ [])
        (hello ∷ hello ∷ []) (serve_hello u) served served (refl, refl, refl, refl)
        (simp (serve_register u id n) (refl, refl, refl, refl))

  -- Without authentication, Bind with an id of 16 bytes against Process settles after two round
  -- trips: both succeed, and both ends are bound, the server under the id.
  pub bind-no_auth :
      Settles (bind id) (new_at no_auth []) (process u) plain 2 HasBound (Serves Served.bound id)
  unfolding bind establish handle_bind handle_auth read_msg write send_request close cancel
  bind-no_auth =
      let served : replies_after (bind id) (new_at no_auth []) (process u) plain
            (hello ∷ hello ∷ [])
          ≡ hello ∷ hello ∷ [] =
        ap (λ r. r.1.conn.outbound) (serve_bind u id n) in
      settle_two (bind id) (new_at no_auth []) (process u) plain (hello ∷ []) (hello ∷ hello ∷ [])
        (serve_hello u) served served (refl, refl, refl, refl)
        (simp (serve_bind u id n) (refl, refl, refl, refl))
