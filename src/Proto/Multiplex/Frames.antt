-- ===== src/Proto/Multiplex/Frames.antt =====
-- The calls after registration leave a server registered under its id.
use Prim.Native.String.{String}
use revdial.Common.{
  ℕ, ◌≡◌, refl, Bool, true, false, List, ◌∷◌, ◌++◌, length, Option, none, some, ok, err, Result,
  and_then, if◌then◌else◌, ◌==◌, ltb, Bool-cases, inl, inr, done, fail,
}
use revdial.Proto.Static.{cmd_connect, cmd_custom_event, res_success}
use revdial.Proto.Failure.{Error, connect_refused, event_refused, marshal_failed}
use revdial.Proto.Conn.{Conn, M, send_request}
use revdial.Proto.Uuid.{Uuid}
use revdial.Proto.Commands.{Json, new_custom_event_command, or_error, put_uint16}
use revdial.Proto.Server.Types.{Server, registered, on_conn, require}
use revdial.Proto.Server.Frame.{Frame, Frame-refl, Frame-trans}
use revdial.Proto.Server.Send as Send
use revdial.Proto.Multiplex.Yamux.{Yamux}
use revdial.Proto.Multiplex.ServerEnd.{
  ServerV2, on_base, accept_stream, stream_of, accept_from, send_connect_command,
  send_connect_command_v2, send_custom_event,
}

Frame-then :
    {A B : Type 0} (s : Server) (r : Result Error A × Server) (f : A → M Server B)
    → Frame s r.1
    → ((a : A) (t : Server) → Frame t (f a t).1)
    → Frame s (and_then r f).1
Frame-then s (ok a, t) f h k = Frame-trans h (k a t)
Frame-then s (err e, t) f h k = h

on_conn-Frame : {A : Type 0} (m : M Conn A) (s : Server) → Frame s (on_conn m s).1
on_conn-Frame m s = record {
  same_state = refl;
  same_id = refl;
  same_verifier = refl;
  same_no_auth = refl;
}

test-Frame :
    (b : Bool) (e f : Error) (s : Server)
    → Frame s (if◌then◌else◌ {A = M Server (Unit {0})} b done (fail e) s).1
test-Frame true e f s = Frame-refl s
test-Frame false e f s = Frame-refl s

-- What both calls end with.
request-Frame :
    (req : List ℕ) (refused : ℕ → Error) (s : Server)
    → Frame s (and_then (on_conn (send_request req) s) (λ resp. Send.expect_success resp refused)).1
request-Frame req refused s =
    Frame-then s (on_conn (send_request req) s) (λ resp. Send.expect_success resp refused)
      (on_conn-Frame (send_request req) s)
      (λ resp t. test-Frame (resp == res_success) (refused resp) (refused resp) t)

connect-Frame : (id : List ℕ) (s : Server) → Frame s (Send.send_connect_command id s).1
unfolding Send.send_connect_command
connect-Frame id s =
    Frame-then s (require registered s) _ (Frame-refl s)
      (λ _ t. request-Frame (cmd_connect ∷ id) connect_refused t)

module _ {V : Type 0} (json : Json V) where
  event-Frame :
      (name : String) (v : V) (s : Server) → Frame s (Send.send_custom_event json name v s).1
  unfolding Send.send_custom_event
  event-Frame name v s = Frame-then s (require registered s) _ (Frame-refl s) (λ _ t.
      Frame-then t (Send.lift (new_custom_event_command json name v) t) _ (Frame-refl t) (λ event t.
        Frame-then t (Send.lift (or_error (json.marshal_event event) marshal_failed) t) _
          (Frame-refl t)
          (λ text t. Frame-then t (Send.within_limit text t) _ (length-Frame text t) (λ _ t.
            request-Frame (cmd_custom_event ∷ put_uint16 (length text) ++ text) event_refused t))))
    where
      length-Frame : (text : List ℕ) (s : Server) → Frame s (Send.within_limit text s).1
      length-Frame text s = elim (Bool-cases (ltb Send.max_data_len (length text))) [
        | inl e ↦ rw e (Frame-refl s)
        | inr e ↦ rw e (Frame-refl s)
      ]

module _ {S : Type 0} where
  base-then :
      {A B : Type 0} (s : Server) (r : Result Error A × ServerV2 S) (f : A → M (ServerV2 S) B)
      → Frame s r.1.base
      → ((a : A) (t : ServerV2 S) → Frame t.base (f a t).1.base)
      → Frame s (and_then r f).1.base
  base-then s (ok a, t) f h k = Frame-trans h (k a t)
  base-then s (err e, t) f h k = h

  answer-Frame :
      (b : Bool) (e : Error) (s : ServerV2 S)
      → Frame s.base (if◌then◌else◌ {A = M (ServerV2 S) (Unit {0})} b done (fail e) s).1.base
  answer-Frame true e s = Frame-refl s.base
  answer-Frame false e s = Frame-refl s.base

  connect_v2-Frame :
      (id : List ℕ) (s : ServerV2 S) → Frame s.base (send_connect_command_v2 id s).1.base
  unfolding send_connect_command_v2
  connect_v2-Frame id s =
      base-then s.base (on_base (require registered) s) _ (Frame-refl s.base) (λ _ t.
        base-then t.base (on_base (on_conn (send_request (cmd_connect ∷ id))) t) _
          (on_conn-Frame (send_request (cmd_connect ∷ id)) t.base)
          (λ resp v. answer-Frame (resp == res_success) (connect_refused resp) v))

  either-Frame :
      (b : Bool) (s : ServerV2 S) (q r : Result Error (Unit {0}) × ServerV2 S)
      → Frame s.base q.1.base
      → Frame s.base r.1.base
      → Frame s.base (if b then q else r).1.base
  either-Frame true s q r h k = h
  either-Frame false s q r h k = k

  pub send_connect_command-Frame :
      (id : List ℕ) (s : ServerV2 S) → Frame s.base (send_connect_command id s).1.base
  unfolding send_connect_command
  send_connect_command-Frame id s =
      either-Frame s.is_v2 s (send_connect_command_v2 id s) _ (connect_v2-Frame id s)
        (connect-Frame id s.base)

  pub send_custom_event-Frame :
      {V : Type 0} (json : Json V) (name : String) (v : V) (s : ServerV2 S)
      → Frame s.base (send_custom_event json name v s).1.base
  unfolding send_custom_event
  send_custom_event-Frame json name v s = event-Frame json name v s.base

module _ {S R : Type 0} (u : Uuid) (y : Yamux S R) where
  pub accept_stream-base : (s : ServerV2 S) → (accept_stream u y s).1.base ≡ s.base
  unfolding accept_stream
  accept_stream-base s = from-base s.is_v2 s.session s
    where
      stream-base : (o : Option Conn × S) (s : ServerV2 S) → (stream_of u y o s).1.base ≡ s.base
      stream-base (none, session) s = refl
      stream-base (some stream, session) s = refl

      from-base :
          (b : Bool) (o : Option S) (s : ServerV2 S) → (accept_from u y b o s).1.base ≡ s.base
      from-base true (some session) s = stream-base (y.accept_stream session) s
      from-base true none s = refl
      from-base false o s = refl
