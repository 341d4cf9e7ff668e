-- ===== src/Proto/Server/Send.antt =====
-- proto/server.go: the commands that the dialer sends to a registered client.
use Prim.Native.String.{String}
use revdial.Common.{
  ℕ, List, [], ◌∷◌, ◌++◌, length, Result, if◌then◌else◌, ltb, ◌==◌, ◌>>=◌, ◌>>◌, fail, done,
}
use revdial.Proto.Static.{cmd_connect, cmd_ping, cmd_custom_event, res_success}
use revdial.Proto.Failure.{
  Error, connect_refused, ping_refused, event_refused, event_too_long, marshal_failed,
}
use revdial.Proto.Conn.{M, send_request}
use revdial.Proto.Commands.{Json, new_custom_event_command, or_error, put_uint16}
use revdial.Proto.Server.Types.{Server, registered, on_conn, require}

-- A value that a step before the request computed.
abbrev pub lift : {A : Type 0} → Result Error A → M Server A
lift r s = (r, s)

-- `if resp != resSuccess { return error }`.
abbrev pub expect_success : ℕ → (ℕ → Error) → M Server (Unit {0})
expect_success resp refused = if resp == res_success then done else fail (refused resp)

unfoldable pub send_connect_command : List ℕ → M Server (Unit {0})
send_connect_command id = do
  require registered
  resp ← on_conn (send_request (cmd_connect ∷ id))
  expect_success resp connect_refused

unfoldable pub send_ping_command : M Server (Unit {0})
send_ping_command = do
  require registered
  resp ← on_conn (send_request (cmd_ping ∷ []))
  expect_success resp ping_refused

abbrev pub max_data_len : ℕ
max_data_len = 65535

abbrev pub within_limit : List ℕ → M Server (Unit {0})
within_limit text = if ltb max_data_len (length text) then fail event_too_long else done

module _ {V : Type 0} (json : Json V) where
  unfoldable pub send_custom_event : String → V → M Server (Unit {0})
  send_custom_event name v = do
    require registered
    event ← lift (new_custom_event_command json name v)
    text ← lift (or_error (json.marshal_event event) marshal_failed)
    within_limit text
    resp ← on_conn (send_request (cmd_custom_event ∷ put_uint16 (length text) ++ text))
    expect_success resp event_refused
