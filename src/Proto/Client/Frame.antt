-- ===== src/Proto/Client/Frame.antt =====
-- What the handshake of a client leaves alone: its state and its context.
use revdial.Common.{
  ℕ, ◌≡◌, refl, ◌∙◌, Bool, true, false, [], ◌∷◌, List, ok, err, Result, and_then, if◌then◌else◌,
  ◌==◌,
}
use revdial.Proto.Static.{
  no_auth, user_pass_auth, no_acceptable_auth_method, cmd_register, res_success, res_failure,
}
use revdial.Proto.Failure.{Error}
use revdial.Proto.Conn.{Conn, M, send_request}
use revdial.Proto.Client.Types.{Client, on_conn}
use revdial.Proto.Client.Session.{establish, handle_auth, handle_register, expect_mode, send_token}

pub record Frame (c t : Client) : Type 0 where
  pub same_state : t.state ≡ c.state
  pub same_ctx : t.ctx ≡ c.ctx

Frame-refl : (c : Client) → Frame c c
Frame-refl c = record { same_state = refl; same_ctx = refl }

Frame-then :
    {A B : Type 0} (c : Client) (r : Result Error A × Client) (f : A → M Client B)
    → Frame c r.1
    → ((a : A) (t : Client) → Frame t (f a t).1)
    → Frame c (and_then r f).1
Frame-then c (ok a, t) f h k =
    let next = k a t in
    record { same_state = next.same_state ∙ h.same_state; same_ctx = next.same_ctx ∙ h.same_ctx }
Frame-then c (err e, t) f h k = h

pub on_conn-Frame : {A : Type 0} (m : M Conn A) (c : Client) → Frame c (on_conn m c).1
on_conn-Frame m c = record { same_state = refl; same_ctx = refl }

either-Frame :
    (b : Bool) (c : Client) (m n : M Client (Unit {0}))
    → Frame c (m c).1
    → Frame c (n c).1
    → Frame c ((if b then m else n) c).1
either-Frame true c m n h k = h
either-Frame false c m n h k = k

handle_auth-Frame : (method : ℕ) (c : Client) → Frame c (handle_auth method c).1
unfolding handle_auth
handle_auth-Frame method c = either-Frame (method == no_auth) c _ _ (Frame-refl c) (
    either-Frame (method == user_pass_auth) c _ _
      (Frame-then c (expect_mode user_pass_auth c) _ (Frame-refl c) (λ _ t.
        Frame-then t (send_token t) _ (on_conn-Frame (send_request t.token) t)
          (λ resp v. either-Frame (resp == res_success) v _ _ (Frame-refl v) (Frame-refl v))))
      (either-Frame (method == no_acceptable_auth_method) c _ _ (Frame-refl c) (Frame-refl c)))

pub establish-Frame : (c : Client) → Frame c (establish c).1
unfolding establish
establish-Frame c =
    let asks = send_request (1 ∷ c.auth_mode ∷ []) in
    Frame-then c (on_conn asks c) handle_auth (on_conn-Frame asks c) handle_auth-Frame

pub handle_register-Frame : (id : List ℕ) (c : Client) → Frame c (handle_register id c).1
unfolding handle_register
handle_register-Frame id c =
    let asks = send_request (cmd_register ∷ id) in
    Frame-then c (on_conn asks c) _ (on_conn-Frame asks c) (λ resp t.
      either-Frame (resp == res_success) t _ _ (Frame-refl t)
        (either-Frame (resp == res_failure) t _ _ (Frame-refl t) (Frame-refl t)))
