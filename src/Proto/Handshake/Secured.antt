-- ===== src/Proto/Handshake/Secured.antt =====
-- Handshakes with a server that asks for credentials.
use revdial.Common.{ℕ, ◌≡◌, refl, ap, List, [], ◌∷◌, ◌++◌, length, ok, err, some, true, false}
use revdial.Proto.Static.{cmd_register, user_pass_auth, res_success, res_failure}
use revdial.Proto.Failure.{Error, auth_refused, authentication_failed}
use revdial.Proto.Conn.{Conn, read_msg, write, send_request, close}
use revdial.Proto.Conn.Laws.{healthy}
use revdial.Proto.Uuid.{Uuid}
use revdial.Proto.Client.Types.{Client, ClientOption, user_pass, credentials, with_user_pass}
use revdial.Proto.Client.Types
use revdial.Proto.Client.Session.{register, establish, handle_register, handle_auth, cancel}
use revdial.Proto.Server.Types.{Server, Verifier}
use revdial.Proto.Server.Types as Served
use revdial.Proto.Server.Init.{handle_init, try_methods, handle_user_pass_auth}
use revdial.Proto.Server.Init.{handle_auth as server_handle_auth}
use revdial.Proto.Server.Session.{process, handle_command}
use revdial.Proto.Handshake.ServerSteps.{
  server_at, init_user_pass, init_wrong_pass, command_register,
}
use revdial.Proto.Handshake.Exchange.{Outcome, Settles, replies_after, settle_two, settle_three}
use revdial.Proto.Handshake.Rounds.{new_at, HasRegistered, Serves}

-- A server with an authentication function and no other way in.
abbrev pub secured : Verifier → Conn → Server
secured verify = server_at Served.connected [] (some verify) false

-- A call that failed has left the connection closed and no session.
abbrev pub ClientFails : Error → Outcome Client → Type 0
ClientFails e (r, c) =
    (r ≡ err e) × (c.state ≡ Types.processing) × (c.ctx ≡ Types.cancelled) × (c.conn.closed ≡ true)

abbrev pub ServerFails : Error → Outcome Server → Type 0
ServerFails e (r, s) = (r ≡ err e) × (s.state ≡ Served.processing) × (s.conn.closed ≡ true)

abbrev ask : List ℕ
ask = 1 ∷ user_pass_auth ∷ []

abbrev yes_reply : List ℕ
yes_reply = 1 ∷ res_success ∷ []

abbrev no_reply : List ℕ
no_reply = 1 ∷ res_failure ∷ []

module _ (u : Uuid) (verify : Verifier) where
  serve_ask :
      (process u (secured verify (healthy ((1 ∷ 1 ∷ user_pass_auth ∷ []) ∷ []) []))).1.conn.outbound
      ≡ ask ∷ []
  unfolding process handle_command handle_init try_methods server_handle_auth handle_user_pass_auth
      send_request read_msg write close
  serve_ask = refl

  module _ (a b : ℕ) (as' bs' : List ℕ) where
    abbrev pub token : List ℕ
    token = credentials (a ∷ as') (b ∷ bs')

    abbrev offered : List (List ℕ) → List (List ℕ)
    offered segs =
        (1 ∷ 1 ∷ user_pass_auth ∷ [])
        ∷ (1 ∷ length (a ∷ as') ∷ (a ∷ as') ++ length (b ∷ bs') ∷ b ∷ bs')
        ∷ segs

    serve_granted :
        verify (a ∷ as') (b ∷ bs') ≡ true
        → (process u (secured verify (healthy (offered []) []))).1.conn.outbound
          ≡ ask ∷ yes_reply ∷ []
    unfolding process handle_command read_msg close
    serve_granted e = simp (init_user_pass Served.processing [] verify false a b as' bs' [] [] e)

    serve_denied :
        verify (a ∷ as') (b ∷ bs') ≡ false
        → process u (secured verify (healthy (offered []) [])) ≡ (
          err authentication_failed,
          server_at Served.processing [] (some verify) false (record {
            inbound = [] ∷ [];
            outbound = ask ∷ no_reply ∷ [];
            closed = true;
            failing = [];
          }),
        )
    unfolding process close
    serve_denied e = simp (init_wrong_pass Served.processing [] verify false a b as' bs' [] [] e)

    serve_registered :
        (id : List ℕ)
        → length id ≡ 16
        → verify (a ∷ as') (b ∷ bs') ≡ true
        → process u (secured verify (healthy (offered ((1 ∷ cmd_register ∷ id) ∷ [])) [])) ≡ (
          ok tt,
          server_at Served.registered id
              (some verify)
              false
              (healthy ([] ∷ []) (ask ∷ yes_reply ∷ yes_reply ∷ [])),
        )
    unfolding process
    serve_registered id n e = simp (
      init_user_pass Served.processing [] verify false a b as' bs' ((1 ∷ cmd_register ∷ id) ∷ []) []
          e,
      command_register u id [] (some verify) false [] (ask ∷ yes_reply ∷ []) n,
    )

  module _ (id : List ℕ) (n : length id ≡ 16) (a b : ℕ) (as' bs' : List ℕ) where
    pub granted :
        verify (a ∷ as') (b ∷ bs') ≡ true
        → Settles
            (register id)
            (new_at user_pass_auth (token a b as' bs'))
            (process u)
            (secured verify)
            3
            HasRegistered
            (Serves Served.registered id)
    unfolding register establish handle_register handle_auth read_msg write send_request close
        cancel credentials
    granted e =
        let full : replies_after (register id) (new_at user_pass_auth (token a b as' bs'))
              (process u) (secured verify) (ask ∷ yes_reply ∷ yes_reply ∷ [])
            ≡ ask ∷ yes_reply ∷ yes_reply ∷ [] =
          ap (λ r. r.1.conn.outbound) (serve_registered a b as' bs' id n e) in
        settle_three (register id) (new_at user_pass_auth (token a b as' bs')) (process u)
          (secured verify) (ask ∷ []) (ask ∷ yes_reply ∷ []) (ask ∷ yes_reply ∷ yes_reply ∷ [])
          serve_ask (serve_granted a b as' bs' e) full full (refl, refl, refl, refl)
          (simp (serve_registered a b as' bs' id n e) (refl, refl, refl, refl))

    pub denied :
        verify (a ∷ as') (b ∷ bs') ≡ false
        → Settles
            (register id)
            (new_at user_pass_auth (token a b as' bs'))
            (process u)
            (secured verify)
            2
            (ClientFails (auth_refused res_failure))
            (ServerFails authentication_failed)
    unfolding register establish handle_register handle_auth read_msg write send_request close
        cancel credentials
    denied e =
        let full : replies_after (register id) (new_at user_pass_auth (token a b as' bs'))
              (process u) (secured verify) (ask ∷ no_reply ∷ [])
            ≡ ask ∷ no_reply ∷ [] =
          ap (λ r. r.1.conn.outbound) (serve_denied a b as' bs' e) in
        settle_two (register id) (new_at user_pass_auth (token a b as' bs')) (process u)
          (secured verify) (ask ∷ []) (ask ∷ no_reply ∷ []) serve_ask full full
          (refl, refl, refl, refl) (simp (serve_denied a b as' bs' e) (refl, refl, refl))
