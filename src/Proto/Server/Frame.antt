-- ===== src/Proto/Server/Frame.antt =====
-- What authentication and the reading of a command leave alone: all of the server but its
-- connection. The rules by which a postcondition of a server call is proved.
use revdial.Common.{◌≡◌, refl, ◌∙◌, Ends, Ends-all, and_then-Ends, and_then}
use revdial.Proto.Failure.{Error}
use revdial.Proto.Conn.{Conn, M}
use revdial.Proto.Server.Types.{Server, on_conn}

pub record Frame (s t : Server) : Type 0 where
  pub same_state : t.state ≡ s.state
  pub same_id : t.id ≡ s.id
  pub same_verifier : t.verifier ≡ s.verifier
  pub same_no_auth : t.allows_no_auth ≡ s.allows_no_auth

pub Frame-refl : (s : Server) → Frame s s
Frame-refl s = record {
  same_state = refl;
  same_id = refl;
  same_verifier = refl;
  same_no_auth = refl;
}

pub Frame-trans : {s t v : Server} → Frame s t → Frame t v → Frame s v
Frame-trans f g = record {
  same_state = g.same_state ∙ f.same_state;
  same_id = g.same_id ∙ f.same_id;
  same_verifier = g.same_verifier ∙ f.same_verifier;
  same_no_auth = g.same_no_auth ∙ f.same_no_auth;
}

-- A call on the connection may end in any way, and frames the server.
pub on_conn-Ends :
    {A : Type 0} {P : A → Server → Type 0} {Q : Error → Server → Type 0} (m : M Conn A) {s : Server}
    → ((a : A) (t : Server) → Frame s t → P a t)
    → ((e : Error) (t : Server) → Frame s t → Q e t)
    → Ends P Q (on_conn m s)
on_conn-Ends m {s} h k = Ends-all (on_conn m s) (λ a. h a _ frame) (λ e. k e _ frame)
  where
    frame : Frame s (on_conn m s).1
    frame = record { same_state = refl; same_id = refl; same_verifier = refl; same_no_auth = refl }

-- The same for a call that stands first in a sequence, which so far framed `start`.
module _ {start s : Server} {A B : Type 0} (m : M Conn A) {P : B → Server → Type 0} where
  pub on_conn_then :
      (f : A → M Server B)
      → Frame start s
      → ((a : A) (t : Server) → Frame start t → Ends P (λ _ t. Frame start t) (f a t))
      → Ends P (λ _ t. Frame start t) (and_then (on_conn m s) f)
  on_conn_then f framed next =
      and_then-Ends (on_conn m s) {f = f}
        (on_conn-Ends {P = λ _ t. Frame start t} m (λ _ t g. Frame-trans framed g)
          λ _ t g. Frame-trans framed g)
        next
