-- ===== src/Proto/Server/Init.antt =====
-- proto/server.go: authentication, the first part of `Process`.
use revdial.Common.{
  ℕ, Bool, true, false, List, [], ◌∷◌, Option, none, some, ok, err, Result, if◌then◌else◌, ◌==◌,
  ◌>>=◌, ◌>>◌, fail,
}
use revdial.Proto.Static.{
  version_v1, no_auth, user_pass_auth, no_acceptable_auth_method, res_success, res_failure,
}
use revdial.Proto.Failure.{
  Error, unsupported_auth_method, no_acceptable_method, empty_username, empty_password,
  authentication_failed, is_unsupported,
}
use revdial.Proto.Conn.{M, read, read_full, write, read_msg, send_request}
use revdial.Proto.Server.Types.{Server, Verifier, on_conn}

abbrev pub read_nonempty : ℕ → Error → M Server (List ℕ)
read_nonempty n e = if n == 0 then fail e else on_conn (read n)

abbrev pub first_byte : List ℕ → ℕ
first_byte [] = 0
first_byte (b ∷ bs) = b

abbrev pub judge : Bool → M Server (Unit {0})
judge true = on_conn (write (version_v1 ∷ res_success ∷ []))
judge false = do on_conn (write (version_v1 ∷ res_failure ∷ [])); fail authentication_failed

unfoldable pub handle_user_pass_auth : Verifier → M Server (Unit {0})
handle_user_pass_auth verify = do
  user_len ← on_conn (send_request (user_pass_auth ∷ []))
  username ← read_nonempty user_len empty_username
  pass_len ← on_conn (read 1)
  password ← read_nonempty (first_byte pass_len) empty_password
  judge (verify username password)

abbrev pub user_pass_if : Option Verifier → M Server (Unit {0})
user_pass_if none = fail unsupported_auth_method
user_pass_if (some verify) = handle_user_pass_auth verify

unfoldable pub handle_auth : ℕ → M Server (Unit {0})
handle_auth method s =
    if method == no_auth
    then (if s.allows_no_auth
        then on_conn (write (version_v1 ∷ no_auth ∷ [])) s
        else (err unsupported_auth_method, s))
    else (if method == user_pass_auth
        then user_pass_if s.verifier s
        else (err unsupported_auth_method, s))

-- What the loop over the methods does after one of them.
abbrev pub after_method :
    Result Error (Unit {0}) × Server
    → (Server → Result Error (Unit {0}) × Server)
    → Result Error (Unit {0}) × Server
after_method (ok u, s) next = (ok u, s)
after_method (err e, s) next = if is_unsupported e then next s else (err e, s)

unfoldable pub try_methods : List ℕ → M Server (Unit {0})
try_methods [] = do
  on_conn (write (version_v1 ∷ no_acceptable_auth_method ∷ []))
  fail no_acceptable_method
try_methods (m ∷ ms) = λ s. after_method (handle_auth m s) (try_methods ms)

unfoldable pub handle_init : M Server (Unit {0})
handle_init = do
  nmethods ← on_conn read_msg
  methods ← on_conn (read_full nmethods)
  try_methods methods
