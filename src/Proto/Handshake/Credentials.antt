-- ===== src/Proto/Handshake/Credentials.antt =====
-- What a client with credentials meets, as `WithUserPass` makes them.
use revdial.Common.{ℕ, ◌≡◌, ◌<◌, refl, subst, List, [], ◌∷◌, length, ok, true, false, arith}
use revdial.Proto.Static.{no_auth, user_pass_auth, res_failure}
use revdial.Proto.Failure.{auth_refused, authentication_failed, no_acceptable_method}
use revdial.Proto.Conn.{read_msg, write, send_request, close}
use revdial.Proto.Uuid.{Uuid}
use revdial.Proto.Client.Types.{user_pass, credentials, with_user_pass}
use revdial.Proto.Client.Session.{register, establish, handle_auth, cancel}
use revdial.Proto.Server.Types.{Verifier}
use revdial.Proto.Server.Types as Served
use revdial.Proto.Server.Init.{handle_init, try_methods}
use revdial.Proto.Server.Init.{handle_auth as server_handle_auth}
use revdial.Proto.Server.Session.{process}
use revdial.Proto.Handshake.Exchange.{Settles}
use revdial.Proto.Handshake.Rounds.{new_at, plain, HasRegistered, Serves}
use revdial.Proto.Handshake.Secured.{secured, ClientFails, ServerFails, granted, denied}

token_of_option :
    (name password token : List ℕ)
    → with_user_pass name password ≡ ok (user_pass token)
    → credentials name password ≡ token
unfolding with_user_pass
token_of_option name password token e = ground arith

module _ (u : Uuid) (verify : Verifier) (id : List ℕ) (n : length id ≡ 16) where
  -- With an id of 16 bytes and a nonempty name and password that `WithUserPass` takes and the server's
  -- function accepts, Register against Process settles after three round trips: both succeed, the
  -- client is registered on an open connection, and the server holds its id.
  pub register_granted :
      (name password token : List ℕ)
      → with_user_pass name password ≡ ok (user_pass token)
      → 0 < length name
      → 0 < length password
      → verify name password ≡ true
      → Settles
          (register id)
          (new_at user_pass_auth token)
          (process u)
          (secured verify)
          3
          HasRegistered
          (Serves Served.registered id)
  register_granted [] password token e p q v = absurd (omega arith)
  register_granted (a ∷ xs) [] token e p q v = absurd (omega arith)
  register_granted (a ∷ xs) (b ∷ ys) token e p q v =
      subst
        (λ t.
          Settles (register id) (new_at user_pass_auth t) (process u) (secured verify) 3
            HasRegistered (Serves Served.registered id))
        (token_of_option (a ∷ xs) (b ∷ ys) token e) (granted u verify id n a b xs ys v)

  -- With an id of 16 bytes and a nonempty name and password that `WithUserPass` takes and the server's
  -- function rejects, Register against Process settles after two round trips: both calls fail with
  -- their authentication errors, and both ends have closed the connection.
  pub register_denied :
      (name password token : List ℕ)
      → with_user_pass name password ≡ ok (user_pass token)
      → 0 < length name
      → 0 < length password
      → verify name password ≡ false
      → Settles
          (register id)
          (new_at user_pass_auth token)
          (process u)
          (secured verify)
          2
          (ClientFails (auth_refused res_failure))
          (ServerFails authentication_failed)
  register_denied [] password token e p q v = absurd (omega arith)
  register_denied (a ∷ xs) [] token e p q v = absurd (omega arith)
  register_denied (a ∷ xs) (b ∷ ys) token e p q v =
      subst
        (λ t.
          Settles (register id) (new_at user_pass_auth t) (process u) (secured verify) 2
            (ClientFails (auth_refused res_failure)) (ServerFails authentication_failed))
        (token_of_option (a ∷ xs) (b ∷ ys) token e) (denied u verify id n a b xs ys v)

module _ (u : Uuid) (verify : Verifier) (id token : List ℕ) where
  -- A client with no credentials at a server that asks for some, and a client with credentials at a
  -- server that asks for none: both calls fail in one round trip with the error of no acceptable
  -- method, and both ends have closed the connection.
  pub register_mismatch :
      Settles
        (register id)
        (new_at no_auth [])
        (process u)
        (secured verify)
        1
        (ClientFails no_acceptable_method)
        (ServerFails no_acceptable_method)
      × Settles
          (register id)
          (new_at user_pass_auth token)
          (process u)
          plain
          1
          (ClientFails no_acceptable_method)
          (ServerFails no_acceptable_method)
  unfolding register establish handle_auth read_msg write send_request close cancel process
      handle_init try_methods server_handle_auth
  register_mismatch = (
    record {
      settled = refl;
      client_ends = (refl, refl, refl, refl);
      server_ends = (refl, refl, refl);
    },
    record {
      settled = refl;
      client_ends = (refl, refl, refl, refl);
      server_ends = (refl, refl, refl);
    },
  )
