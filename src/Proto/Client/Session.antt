-- ===== src/Proto/Client/Session.antt =====
-- proto/client.go: authentication, `Register`, `Bind` and `Close`.
use revdial.Common.{ℕ, List, [], ◌∷◌, ok, err, Result, if◌then◌else◌, ◌==◌, ◌>>=◌, ◌>>◌, fail, done}
use revdial.Proto.Static.{
  no_auth, user_pass_auth, no_acceptable_auth_method, cmd_register, cmd_bind, res_success,
  res_failure,
}
use revdial.Proto.Failure.{
  Error, other_auth_method, auth_refused, no_acceptable_method, unsupported_auth_reply,
  register_refused, unexpected_result, bind_refused,
}
use revdial.Proto.Conn.{M, close, send_request}
use revdial.Proto.Client.Types.{
  Client, connected, processing, registered, bound, disconnected, Ctx, unset, live, cancelled,
  on_conn, set_state, set_ctx, require, client_state_eq,
}

-- `c.cancel()`. The goroutine that `Register` and `Bind` start waits for this and closes the
-- connection; its step is taken at once here.
unfoldable pub cancel : Client → Client
cancel c = record c { ctx = cancelled; conn = (close c.conn).1 }

abbrev pub expect_mode : ℕ → M Client (Unit {0})
expect_mode mode c = (if c.auth_mode == mode then ok tt else err other_auth_method, c)

abbrev pub send_token : M Client ℕ
send_token c = on_conn (send_request c.token) c

unfoldable pub handle_auth : ℕ → M Client (Unit {0})
handle_auth method =
    if method == no_auth
    then expect_mode no_auth
    else (if method == user_pass_auth
        then (do
          expect_mode user_pass_auth
          resp ← send_token
          if resp == res_success then done else fail (auth_refused resp))
        else (if method == no_acceptable_auth_method
            then fail no_acceptable_method
            else fail (unsupported_auth_reply method)))

-- One method is offered: its count, 1, and the method.
unfoldable pub establish : M Client (Unit {0})
establish c = (do resp ← on_conn (send_request (1 ∷ c.auth_mode ∷ [])); handle_auth resp) c

unfoldable pub handle_register : List ℕ → M Client (Unit {0})
handle_register id = do
  resp ← on_conn (send_request (cmd_register ∷ id))
  if resp == res_success
      then done
      else (if resp == res_failure then fail register_refused else fail (unexpected_result resp))

unfoldable pub handle_bind : List ℕ → M Client (Unit {0})
handle_bind id = do
  resp ← on_conn (send_request (cmd_bind ∷ id))
  if resp == res_success then done else fail bind_refused

abbrev pub cancel_on_error : Result Error (Unit {0}) × Client → Result Error (Unit {0}) × Client
cancel_on_error (ok u, c) = (ok u, c)
cancel_on_error (err e, c) = (err e, cancel c)

-- After this the goroutine that reads commands runs.
unfoldable pub register : List ℕ → M Client (Unit {0})
register id = do
  require connected
  set_state processing
  set_ctx live
  λ c. cancel_on_error (establish c)
  λ c. cancel_on_error (handle_register id c)
  set_state registered

-- An error leaves the context live and the connection open: the caller closes it.
unfoldable pub bind : List ℕ → M Client (Unit {0})
bind id = do
  require connected
  set_state processing
  set_ctx live
  establish
  handle_bind id
  set_state bound

abbrev close_with : Ctx → M Client (Unit {0})
close_with unset = done
close_with ctx = do set_ctx cancelled; set_state disconnected; on_conn close

-- The goroutine that closes the connection on cancellation may be first, and then the result is its
-- error of a second close; here this call is first.
unfoldable pub close_client : M Client (Unit {0})
close_client c = if client_state_eq c.state disconnected then (ok tt, c) else close_with c.ctx c
