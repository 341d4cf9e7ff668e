-- ===== src/Proto/Server/Authentication.antt =====
-- What authentication leaves alone.
use revdial.Common.{
  ℕ, if◌then◌else◌, Bool, true, false, List, [], ◌∷◌, ok, err, Result, Ends, and_then-Ends,
  Bool-cases, inl, inr, Option, none, some, ◌==◌, Ends-if,
}
use revdial.Proto.Failure.{
  Error, empty_username, empty_password, unsupported_auth_method, is_unsupported,
}
use revdial.Proto.Conn.{M, read, write, read_full, read_msg, send_request}
use revdial.Proto.Server.Types.{Server, Verifier, on_conn}
use revdial.Proto.Server.Init.{
  handle_user_pass_auth, handle_auth, try_methods, handle_init, after_method, read_nonempty, judge,
  first_byte, user_pass_if,
}
use revdial.Proto.Server.Frame.{Frame, Frame-trans, on_conn-Ends, on_conn_then}
use revdial.Proto.Static.{
  version_v1, no_auth, user_pass_auth, no_acceptable_auth_method, res_success, res_failure,
}

module _ (start : Server) where
  -- Whatever the outcome, only the connection has changed.
  abbrev Framed : {A : Type 0} → A → Server → Type 0
  Framed _ t = Frame start t

  judge-Ends : (b : Bool) (s : Server) → Frame start s → Ends Framed Framed (judge b s)
  judge-Ends true s f =
      on_conn-Ends (write (version_v1 ∷ res_success ∷ [])) (λ _ t g. Frame-trans f g)
        λ _ t g. Frame-trans f g
  judge-Ends false s f =
      on_conn_then (write (version_v1 ∷ res_failure ∷ [])) _ f λ _ t g. record { holds = g }

  read_nonempty-Ends :
      (n : ℕ) (e : Error) {s : Server}
      → Frame start s
      → Ends (λ _ t. Frame start t) Framed (read_nonempty n e s)
  read_nonempty-Ends n e {s} f = elim (Bool-cases (n == 0)) [
    | inl z ↦ rw z (record { holds = f })
    | inr z ↦ rw z (on_conn-Ends (read n) (λ _ t g. Frame-trans f g) λ _ t g. Frame-trans f g)
  ]

  handle_user_pass_auth-Ends :
      (verify : Verifier) (s : Server)
      → Frame start s
      → Ends Framed Framed (handle_user_pass_auth verify s)
  unfolding handle_user_pass_auth
  handle_user_pass_auth-Ends verify s f =
      on_conn_then (send_request (user_pass_auth ∷ [])) _ f λ user_len s₁ f₁.
        and_then-Ends (read_nonempty user_len empty_username s₁) (read_nonempty-Ends user_len _ f₁)
          λ name s₂ f₂. on_conn_then (read 1) _ f₂ λ pass_len s₃ f₃.
            and_then-Ends (read_nonempty (first_byte pass_len) empty_password s₃)
              (read_nonempty-Ends (first_byte pass_len) _ f₃)
              λ password s₄ f₄. judge-Ends (verify name password) s₄ f₄

  no_auth-Ends :
      (b : Bool) (s : Server)
      → Frame start s
      → Ends Framed Framed (
          if b
          then on_conn (write (version_v1 ∷ no_auth ∷ [])) s
          else (err unsupported_auth_method, s))
  no_auth-Ends true s f =
      on_conn-Ends (write (version_v1 ∷ no_auth ∷ [])) (λ _ t g. Frame-trans f g)
        λ _ t g. Frame-trans f g
  no_auth-Ends false s f = record { holds = f }

  user_pass_if-Ends :
      (o : Option Verifier) (s : Server) → Frame start s → Ends Framed Framed (user_pass_if o s)
  user_pass_if-Ends none s f = record { holds = f }
  user_pass_if-Ends (some verify) s f = handle_user_pass_auth-Ends verify s f

  handle_auth-Ends : (m : ℕ) (s : Server) → Frame start s → Ends Framed Framed (handle_auth m s)
  unfolding handle_auth
  handle_auth-Ends m s f = elim (Bool-cases (m == no_auth)) [
    | inl z ↦ rw z (no_auth-Ends _ s f)
    | inr z ↦ rw z (elim (Bool-cases (m == user_pass_auth)) [
      | inl y ↦ rw y (user_pass_if-Ends _ s f)
      | inr y ↦ rw y (record { holds = f })
    ])
  ]

  after_method-Ends :
      (r : Result Error (Unit {0}) × Server) (next : M Server (Unit {0}))
      → Ends Framed Framed r
      → ((t : Server) → Frame start t → Ends Framed Framed (next t))
      → Ends Framed Framed (after_method r next)
  after_method-Ends (ok u, s) next h k = h
  after_method-Ends (err e, s) next h k = Ends-if (is_unsupported e) (λ _. k s h.holds) λ _. h

  try_methods-Ends :
      (ms : List ℕ) (s : Server) → Frame start s → Ends Framed Framed (try_methods ms s)
  unfolding try_methods
  try_methods-Ends [] s f =
      on_conn_then (write (version_v1 ∷ no_acceptable_auth_method ∷ [])) _ f
        λ _ t g. record { holds = g }
  try_methods-Ends (m ∷ ms) s f =
      after_method-Ends (handle_auth m s) _ (handle_auth-Ends m s f) (try_methods-Ends ms)

  -- Authentication changes nothing but the connection.
  pub handle_init-Ends : (s : Server) → Frame start s → Ends Framed Framed (handle_init s)
  unfolding handle_init
  handle_init-Ends s f =
      on_conn_then read_msg _ f
        λ n s₁ f₁. on_conn_then (read_full n) _ f₁ λ ms s₂ f₂. try_methods-Ends ms s₂ f₂
