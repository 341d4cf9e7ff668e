-- ===== src/Proto/Multiplex/ServerEnd.antt =====
-- proto/server_v2.go: the accepting end, which takes both versions.
--
-- `Process` runs once for a connection before anything else is called, so a call is one step, though
-- it holds the mutex in stretches.
use Prim.Native.String.{String}
use revdial.Common.{
  ℕ, Bool, true, false, List, [], ◌∷◌, Option, none, some, ok, err, Result, if◌then◌else◌, ◌==◌,
  ◌>>=◌, ◌>>◌, done, fail,
}
use revdial.Mux.{Config, default_config, to_yamux}
use revdial.Proto.Static.{
  version_v1, cmd_register, cmd_bind, cmd_connect, cmd_mux_init, cmd_mux_ready, res_success,
}
use revdial.Proto.Failure.{
  Error, connect_refused, mux_register_expected, no_session, not_multiplexed, session_failed,
  unsupported_command,
}
use revdial.Proto.Conn.{Conn, M, read, read_full, write, close, read_msg, send_request}
use revdial.Proto.Uuid.{Uuid}
use revdial.Proto.Commands.{Json}
use revdial.Proto.Server.Types.{
  Server, ServerOption, connected, processing, registered, new_server, on_conn, set_id, set_state,
  require,
}
use revdial.Proto.Server.Init.{handle_init}
use revdial.Proto.Server.Session.{
  parsed, close_on_error, handle_register, handle_bind, close_server,
}
use revdial.Proto.Server.Send
use revdial.Proto.Multiplex.Yamux.{Yamux, sizes}

-- As in the client: `below` is the connection that the session runs over, and `control` its first
-- stream until it stands in place of the server's connection.
pub record ServerV2 (S : Type 0) : Type 0 where
  pub base : Server
  pub session : Option S
  pub mux_config : Config
  pub is_v2 : Bool
  pub below : Option Conn
  pub control : Option Conn

pub data ServerV2Option : Type 0 where
  with_mux_config : Config → ServerV2Option

module _ {S : Type 0} where
  abbrev apply_option : ServerV2 S → ServerV2Option → ServerV2 S
  apply_option s (with_mux_config config) = record s { mux_config = config }

  abbrev apply_options : ServerV2 S → List ServerV2Option → ServerV2 S
  apply_options s [] = s
  apply_options s (opt ∷ opts) = apply_options (apply_option s opt) opts

  abbrev pub over : Server → ServerV2 S
  over s = record {
    base = s;
    session = none;
    mux_config = default_config;
    is_v2 = false;
    below = none;
    control = none;
  }

  unfoldable pub new_server_v2 : Conn → List ServerOption → List ServerV2Option → ServerV2 S
  new_server_v2 conn base_opts opts = apply_options (over (new_server conn base_opts)) opts

  -- A call on the embedded server.
  abbrev pub on_base : {A : Type 0} → M Server A → M (ServerV2 S) A
  on_base m s = let r = m s.base in (r.0, record s { base = r.1 })

  abbrev pub with_control : {A : Type 0} → Option Conn → M Conn A → M (ServerV2 S) A
  with_control none m s = (err no_session, s)
  with_control (some stream) m s = let r = m stream in (r.0, record s { control = some r.1 })

  -- A call on the control stream, which there is wherever the code makes one.
  abbrev pub on_control : {A : Type 0} → M Conn A → M (ServerV2 S) A
  on_control m s = with_control s.control m s

  abbrev taking : Option Conn → M (ServerV2 S) (Unit {0})
  taking none s = (err no_session, s)
  taking (some stream) s = (ok tt, record s { base = record s.base { conn = stream } })

  abbrev pub take_control : M (ServerV2 S) (Unit {0})
  take_control s = taking s.control s

  abbrev pub expect_register : ℕ → M (ServerV2 S) (Unit {0})
  expect_register msg = if msg == cmd_register then done else fail (mux_register_expected msg)

  abbrev pub send_sizes : M (ServerV2 S) (Unit {0})
  send_sizes s = on_base (on_conn (write (sizes s.mux_config))) s

module _ {S : Type 0} (u : Uuid) where
  -- Registration over the control stream.
  unfoldable pub register_on_control : M (ServerV2 S) (Unit {0})
  register_on_control = do
    msg ← on_control read_msg
    expect_register msg
    buf ← on_control (read 16)
    id ← on_base (parsed (u.from_bytes buf))
    on_base (set_id id)
    on_base (set_state registered)
    on_control (write (version_v1 ∷ res_success ∷ []))
    take_control

module _ {S R : Type 0} (u : Uuid) (y : Yamux S R) where
  abbrev session_over : Option S → M (ServerV2 S) (Unit {0})
  session_over none s = (err session_failed, s)
  session_over (some session) s =
      (ok tt, record s { session = some session; is_v2 = true; below = some s.base.conn })

  -- `yamux.Server`, with the server's own sizes.
  abbrev pub start_session : M (ServerV2 S) (Unit {0})
  start_session s =
      session_over (y.server_session (to_yamux y.yamux_default s.mux_config) s.base.conn) s

  abbrev accepted : Option Conn × S → M (ServerV2 S) (Unit {0})
  accepted (none, session) s = (err session_failed, record s { session = some session })
  accepted (some stream, session) s =
      (ok tt, record s { session = some session; control = some stream })

  abbrev accept_on : Option S → M (ServerV2 S) (Unit {0})
  accept_on none s = (err no_session, s)
  accept_on (some session) s = accepted (y.accept_stream session) s

  abbrev pub accept_control : M (ServerV2 S) (Unit {0})
  accept_control s = accept_on s.session s

  -- The client's sizes are read and not used.
  unfoldable pub process_v2_after_auth : M (ServerV2 S) (Unit {0})
  process_v2_after_auth = do
    wanted ← on_base (on_conn (read_full 12))
    on_base (on_conn (write (version_v1 ∷ cmd_mux_ready ∷ [])))
    send_sizes
    start_session
    accept_control
    register_on_control u

  -- The two commands of version 1.
  unfoldable pub process_v1_command : ℕ → M Server (Unit {0})
  process_v1_command msg =
      if msg == cmd_register
      then handle_register u
      else (if msg == cmd_bind then handle_bind u else fail (unsupported_command msg))

  unfoldable pub process_command : ℕ → M (ServerV2 S) (Unit {0})
  unfolding process_v2_after_auth process_v1_command
  process_command msg =
      if msg == cmd_mux_init then process_v2_after_auth else on_base (process_v1_command msg)

  abbrev pub read_or_close : Result Error ℕ × Server → Result Error ℕ × Server
  read_or_close (ok msg, s) = (ok msg, s)
  read_or_close (err e, s) = (err e, (on_conn close s).1)

  -- An error of the authentication, and one of reading the command, closes the connection; an error
  -- of what the command starts does not.
  unfoldable pub process : M (ServerV2 S) (Unit {0})
  unfolding process_command
  process = do
    on_base (require connected)
    on_base (set_state processing)
    on_base (λ s. close_on_error (handle_init s))
    msg ← on_base (λ s. read_or_close (on_conn read_msg s))
    process_command msg

  abbrev pub stream_of : Option Conn × S → M (ServerV2 S) Conn
  stream_of (none, session) s = (err session_failed, record s { session = some session })
  stream_of (some stream, session) s = (ok stream, record s { session = some session })

  abbrev pub accept_from : Bool → Option S → M (ServerV2 S) Conn
  accept_from true (some session) s = stream_of (y.accept_stream session) s
  accept_from _ _ s = (err not_multiplexed, s)

  unfoldable pub accept_stream : M (ServerV2 S) Conn
  accept_stream s = accept_from s.is_v2 s.session s

  abbrev pub closed_session : Option S → Option S
  closed_session none = none
  closed_session (some session) = some (y.close_session session)

  abbrev pub closed_under : Option S → Option Conn → Option Conn
  closed_under (some session) (some below) = some (y.close_under session below)
  closed_under _ below = below

  -- Closing the session closes the connection that it runs over.
  unfoldable pub close_v2 : M (ServerV2 S) (Unit {0})
  close_v2 s =
      on_base close_server
        (record s { session = closed_session s.session; below = closed_under s.session s.below })

module _ {S : Type 0} where
  unfoldable pub send_connect_command_v2 : List ℕ → M (ServerV2 S) (Unit {0})
  send_connect_command_v2 id = do
    on_base (require registered)
    resp ← on_base (on_conn (send_request (cmd_connect ∷ id)))
    if resp == res_success then done else fail (connect_refused resp)

  unfoldable pub send_connect_command : List ℕ → M (ServerV2 S) (Unit {0})
  unfolding send_connect_command_v2
  send_connect_command id s =
      if s.is_v2 then send_connect_command_v2 id s else on_base (Send.send_connect_command id) s

  -- The server's connection is the control stream in version 2.
  unfoldable pub send_custom_event : {V : Type 0} → Json V → String → V → M (ServerV2 S) (Unit {0})
  send_custom_event json name v = on_base (Send.send_custom_event json name v)
