-- ===== src/Proto/Failure.antt =====
-- The errors of proto/ as values. A `fmt.Errorf` that wraps another error with `%w` is that error
-- here: the code reads errors by `errors.Is` alone, which looks through such a wrapper.
use revdial.Common.{ℕ, Bool, true, false}

-- The first four are those of the connection (io.EOF, io.ErrUnexpectedEOF, a closed connection, a
-- write that the network refuses), the others stand in proto/*.go. `blocked` is no Go error: the
-- call waits on a full channel and has not returned.
pub data Error : Type 0 where
  eof unexpected_eof conn_closed write_refused : Error
  unexpected_version unexpected_state unsupported_command unexpected_result : ℕ → Error
  unsupported_auth_method no_acceptable_method : Error
  empty_username empty_password authentication_failed bad_uuid : Error
  other_auth_method register_refused bind_refused : Error
  auth_refused unsupported_auth_reply connect_refused ping_refused event_refused : ℕ → Error
  event_too_long empty_event_name reserved_event_name marshal_failed unmarshal_failed
        payload_refused :
      Error
  mux_refused mux_register_expected : ℕ → Error
  no_session not_multiplexed session_failed credentials_too_long blocked : Error

-- `errors.Is(err, ErrUnsupportedAuthMethod)`.
abbrev pub is_unsupported : Error → Bool
is_unsupported unsupported_auth_method = true
is_unsupported _ = false
