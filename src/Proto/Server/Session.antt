-- ===== src/Proto/Server/Session.antt =====
-- proto/server.go: `Process`, `Close` and the two commands by which a client starts a session.
use revdial.Common.{
  ℕ, List, [], ◌∷◌, Option, none, some, ok, err, Result, if◌then◌else◌, ◌==◌, ◌>>=◌, ◌>>◌, pure,
  fail,
}
use revdial.Proto.Static.{version_v1, cmd_register, cmd_bind, res_success}
use revdial.Proto.Failure.{Error, unsupported_command, bad_uuid}
use revdial.Proto.Conn.{M, read, write, close, read_msg}
use revdial.Proto.Uuid.{Uuid}
use revdial.Proto.Server.Types.{
  Server, connected, processing, registered, bound, disconnected, on_conn, set_id, set_state,
  require,
}
use revdial.Proto.Server.Init.{handle_init}

abbrev pub parsed : Option (List ℕ) → M Server (List ℕ)
parsed none = fail bad_uuid
parsed (some id) = pure id

-- What `Process` does with the outcome of one of its two parts: an error closes the connection.
abbrev pub close_on_error : Result Error (Unit {0}) × Server → Result Error (Unit {0}) × Server
close_on_error (ok u, s) = (ok u, s)
close_on_error (err e, s) = (err e, (on_conn close s).1)

module _ (u : Uuid) where
  unfoldable pub handle_register : M Server (Unit {0})
  handle_register = do
    buf ← on_conn (read 16)
    id ← parsed (u.from_bytes buf)
    set_id id
    on_conn (write (version_v1 ∷ res_success ∷ []))
    require processing
    set_state registered

  unfoldable pub handle_bind : M Server (Unit {0})
  handle_bind = do
    buf ← on_conn (read 16)
    id ← parsed (u.from_bytes buf)
    set_id id
    on_conn (write (version_v1 ∷ res_success ∷ []))
    require processing
    set_state bound

  unfoldable pub dispatch_command : ℕ → M Server (Unit {0})
  dispatch_command msg =
      if msg == cmd_register
      then handle_register
      else (if msg == cmd_bind then handle_bind else fail (unsupported_command msg))

  unfoldable pub handle_command : M Server (Unit {0})
  unfolding dispatch_command
  handle_command = do msg ← on_conn read_msg; dispatch_command msg

  unfoldable pub process : M Server (Unit {0})
  process = do
    require connected
    set_state processing
    λ s. close_on_error (handle_init s)
    λ s. close_on_error (handle_command s)

-- The state changes also where the connection reports an error.
unfoldable pub close_server : M Server (Unit {0})
close_server = do set_state disconnected; on_conn close
