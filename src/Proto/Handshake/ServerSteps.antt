-- ===== src/Proto/Handshake/ServerSteps.antt =====
-- The server's part of a handshake, step by step, on an open connection.
use revdial.Common.{
  ℕ, ◌≡◌, refl, List, [], ◌∷◌, ◌++◌, length, ok, err, some, Option, Bool, true, false, suc, ◌==◌,
  arith,
}
use revdial.Proto.Static.{
  no_auth, res_success, res_failure, cmd_register, cmd_bind, user_pass_auth,
  no_acceptable_auth_method,
}
use revdial.Proto.Conn.{Conn, write, read_msg, send_request}
use revdial.Proto.Conn.Laws.{healthy, read_uuid, read_exact, read_rest, read_one}
use revdial.Proto.Failure.{no_acceptable_method, authentication_failed}
use revdial.Proto.Uuid.{Uuid}
use revdial.Proto.Server.Types.{Server, State, Verifier, processing, registered, bound}
use revdial.Proto.Server.Init.{handle_init, handle_auth, try_methods, handle_user_pass_auth}
use revdial.Proto.Server.Session.{handle_register, handle_bind, handle_command}

abbrev pub server_at : State → List ℕ → Option Verifier → Bool → Conn → Server
server_at state id verifier allows conn = record {
  conn = conn;
  verifier = verifier;
  state = state;
  id = id;
  allows_no_auth = allows;
}

module _ (state : State) (id : List ℕ) (verifier : Option Verifier) (segs out : List (List ℕ)) where
  pub init_no_auth :
      handle_init (server_at state id verifier true (healthy ((1 ∷ 1 ∷ no_auth ∷ []) ∷ segs) out))
      ≡ (
        ok tt,
        server_at state id verifier true (healthy ([] ∷ segs) (out ++ (1 ∷ no_auth ∷ []) ∷ [])),
      )
  unfolding handle_init try_methods handle_auth read_msg write
  init_no_auth = refl

  pub init_no_acceptable :
      handle_init (server_at state id verifier false (healthy ((1 ∷ 1 ∷ no_auth ∷ []) ∷ segs) out))
      ≡ (
        err no_acceptable_method,
        server_at state id verifier false
            (healthy ([] ∷ segs) (out ++ (1 ∷ no_acceptable_auth_method ∷ []) ∷ [])),
      )
  unfolding handle_init try_methods handle_auth read_msg write
  init_no_acceptable = refl

module _ (u : Uuid) (id old : List ℕ) (verifier : Option Verifier) (allows : Bool)
    (segs out : List (List ℕ)) (n : length id ≡ 16) where
  pub command_register :
      handle_command u (
        server_at processing old verifier allows
          (healthy ([] ∷ (1 ∷ cmd_register ∷ id) ∷ segs) out))
      ≡ (
        ok tt,
        server_at registered id verifier allows
            (healthy ([] ∷ segs) (out ++ (1 ∷ res_success ∷ []) ∷ [])),
      )
  unfolding handle_command handle_register read_msg write
  command_register = simp (read_uuid id segs out n, u.from_bytes_sixteen id n)

  pub command_bind :
      handle_command u
        (server_at processing old verifier allows (healthy ([] ∷ (1 ∷ cmd_bind ∷ id) ∷ segs) out))
      ≡ (
        ok tt,
        server_at bound id verifier allows
            (healthy ([] ∷ segs) (out ++ (1 ∷ res_success ∷ []) ∷ [])),
      )
  unfolding handle_command handle_bind read_msg write
  command_bind = simp (read_uuid id segs out n, u.from_bytes_sixteen id n)

nonzero : (n : ℕ) → (suc n == 0) ≡ false
nonzero n = ground arith

ruleset credential_reads = (nonzero, read_exact, read_rest, read_one)

module _ (state : State) (id : List ℕ) (verify : Verifier) (allows : Bool) (name_head pass_head : ℕ)
    (name_tail pass_tail : List ℕ) (segs out : List (List ℕ)) where
  abbrev name : List ℕ
  name = name_head ∷ name_tail

  abbrev password : List ℕ
  password = pass_head ∷ pass_tail

  -- The credentials arrive in one segment behind the version.
  pub init_user_pass :
      verify name password ≡ true
      → handle_init (
          server_at state id (some verify) allows (
            healthy
              ((1 ∷ 1 ∷ user_pass_auth ∷ [])
                ∷ (1 ∷ length name ∷ name ++ length password ∷ password)
                ∷ segs)
              out))
        ≡ (
          ok tt,
          server_at state id (some verify) allows (
              healthy
                ([] ∷ segs)
                ((out ++ (1 ∷ user_pass_auth ∷ []) ∷ []) ++ (1 ∷ res_success ∷ []) ∷ [])),
        )
  unfolding handle_init try_methods handle_auth read_msg write handle_user_pass_auth send_request
  init_user_pass e = simp (credential_reads, e)

  pub init_wrong_pass :
      verify name password ≡ false
      → handle_init (
          server_at state id (some verify) allows (
            healthy
              ((1 ∷ 1 ∷ user_pass_auth ∷ [])
                ∷ (1 ∷ length name ∷ name ++ length password ∷ password)
                ∷ segs)
              out))
        ≡ (
          err authentication_failed,
          server_at state id (some verify) allows (
              healthy
                ([] ∷ segs)
                ((out ++ (1 ∷ user_pass_auth ∷ []) ∷ []) ++ (1 ∷ res_failure ∷ []) ∷ [])),
        )
  unfolding handle_init try_methods handle_auth read_msg write handle_user_pass_auth send_request
  init_wrong_pass e = simp (credential_reads, e)
