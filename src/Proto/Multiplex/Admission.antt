-- ===== src/Proto/Multiplex/Admission.antt =====
-- Nobody is registered without authentication, in version 2 either.
use revdial.Common.{
  ◌⊎◌, ℕ, ◌≡◌, refl, List, [], ◌∷◌, ok, err, Result, Option, none, some, Ends, Ends-map, and_then,
  Bool-cases, inl, inr, ◌==◌,
}
use revdial.Proto.Static.{version_v1, res_success, cmd_mux_init, cmd_mux_ready}
use revdial.Proto.Failure.{Error}
use revdial.Proto.Conn.{Conn, M, read, read_full, read_msg, write}
use revdial.Proto.Uuid.{Uuid}
use revdial.Proto.Server.Types.{Server, connected, processing, registered, on_conn}
use revdial.Proto.Server.Init.{handle_init}
use revdial.Proto.Server.Session.{parsed, close_on_error, dispatch_command}
use revdial.Proto.Server.Login.{Granted}
use revdial.Proto.Server.Outcomes.{IsProcessing, IsServing, begun-Granted, dispatch_command-Ends}
use revdial.Proto.Multiplex.Yamux.{Yamux}
use revdial.Proto.Multiplex.ServerEnd.{
  register_on_control, ServerV2, over, on_base, on_control, with_control, send_sizes, start_session,
  accept_control, expect_register, take_control, process_v2_after_auth, process_v1_command,
  process_command, read_or_close, process,
}
use revdial.Proto.Multiplex.Versions.{process_begun, lifted}

module _ {S : Type 0} where
  abbrev Serves : {A : Type 0} → A → ServerV2 S → Type 0
  Serves _ t = IsServing t.base

  abbrev Anything : Error → ServerV2 S → Type 0
  Anything e t = Unit {0}

  -- A call of which nothing needs to be known.
  any_then :
      {A B : Type 0} {P : B → ServerV2 S → Type 0} (r : Result Error A × ServerV2 S)
      {f : A → M (ServerV2 S) B}
      → ((a : A) (t : ServerV2 S) → Ends P Anything (f a t))
      → Ends P Anything (and_then r f)
  any_then (ok a, s) k = k a s
  any_then (err e, s) k = record { holds = tt }

  -- The answer on the control stream, and its taking over, leave the state.
  answer-Ends :
      (o : Option Conn) (bytes : List ℕ) (s : ServerV2 S)
      → s.base.state ≡ registered
      → Ends Serves Anything (and_then (with_control o (write bytes) s) (λ _. take_control))
  answer-Ends none bytes s h = record { holds = tt }
  answer-Ends (some stream) bytes s h = sent-Ends (write bytes stream)
    where
      sent-Ends :
          (r : Result Error (Unit {0}) × Conn)
          → Ends Serves Anything
              (and_then (r.0, record s { control = some r.1 }) (λ _. take_control))
      sent-Ends (ok a, conn) = record { holds = inl h }
      sent-Ends (err e, conn) = record { holds = tt }

  base-Ends :
      (r : Result Error (Unit {0}) × Server) (s : ServerV2 S)
      → Ends (λ _ t. IsServing t) (λ _ t. IsProcessing t) r
      → Ends Serves Anything (r.0, record s { base = r.1 })
  base-Ends (ok a, t) s h = record { holds = h.holds }
  base-Ends (err e, t) s h = record { holds = tt }

module _ {S R : Type 0} (u : Uuid) (y : Yamux S R) where
  process_v2-Ends : (s : ServerV2 S) → Ends Serves Anything (process_v2_after_auth u y s)
  unfolding process_v2_after_auth register_on_control
  process_v2-Ends s = any_then (on_base (on_conn (read_full 12)) s) λ wanted s₁.
      any_then (on_base (on_conn (write (version_v1 ∷ cmd_mux_ready ∷ []))) s₁) λ _ s₂.
        any_then (send_sizes s₂) λ _ s₃. any_then (start_session u y s₃) λ _ s₄.
          any_then (accept_control u y s₄) λ _ s₅. any_then (on_control read_msg s₅) λ msg s₆.
            any_then (expect_register msg s₆) λ _ s₇. any_then (on_control (read 16) s₇) λ buf s₈.
              any_then (on_base (parsed (u.from_bytes buf)) s₈) λ id s₉.
                answer-Ends s₉.control (version_v1 ∷ res_success ∷ [])
                  (record s₉ { base = record s₉.base { id = id; state = registered } }) refl

  process_v1-Ends :
      (msg : ℕ) (s : ServerV2 S)
      → IsProcessing s.base
      → Ends Serves Anything (on_base (process_v1_command u y msg) s)
  unfolding process_v1_command dispatch_command
  process_v1-Ends msg s h =
      base-Ends (dispatch_command u msg s.base) s (dispatch_command-Ends u msg s.base h)

  process_command-Ends :
      (msg : ℕ) (s : ServerV2 S)
      → IsProcessing s.base
      → Ends Serves Anything (process_command u y msg s)
  unfolding process_command
  process_command-Ends msg s h = elim (Bool-cases (msg == cmd_mux_init)) [
    | inl e ↦ rw e (process_v2-Ends s)
    | inr e ↦ rw e (process_v1-Ends msg s h)
  ]

  abbrev pub Admits : Server → Unit {0} → ServerV2 S → Type 0
  Admits s _ t = IsServing t.base × Granted s

  -- A failed call has let nobody in, or somebody who may.
  abbrev pub Closes : Server → Error → ServerV2 S → Type 0
  Closes s e t = IsProcessing t.base ⊎ Granted s

  Granted-then :
      (s : Server) (r : Result Error (Unit {0}) × ServerV2 S)
      → Granted s
      → Ends Serves Anything r
      → Ends (Admits s) (Closes s) r
  Granted-then s r g h = Ends-map r (λ _ t p. (p, g)) (λ _ t p. inr g) h

  command-Ends :
      (s : Server) (q : Result Error ℕ × Server)
      → IsProcessing q.1
      → Granted s
      → Ends (Admits s) (Closes s) (and_then (lifted (read_or_close u y q)) (process_command u y))
  command-Ends s (ok msg, t) h g =
      Granted-then s (process_command u y msg (over t)) g (process_command-Ends msg (over t) h)
  command-Ends s (err e, t) h g = record { holds = inr g }

  init-Ends :
      (s : Server) (r : Result Error (Unit {0}) × Server)
      → Ends (λ _ t. IsProcessing t × Granted s) (λ _ t. IsProcessing t) r
      → Ends (Admits s) (Closes s) (
          and_then (lifted (close_on_error r)) (λ _ t.
            and_then
              (on_base (λ s. read_or_close u y (on_conn read_msg s)) t)
              (process_command u y)))
  init-Ends s (ok a, t) h = command-Ends s (on_conn read_msg t) h.holds.0 h.holds.1
  init-Ends s (err e, t) h = record { holds = inl h.holds }

  -- On a new connection `Process` of version 2 that succeeds leaves the client registered or bound, and
  -- however it ends, it is in StateProcessing still, or the client offered no authentication to a
  -- server that asks for none, or sent a name and a password that the server's function accepts.
  pub process-Admits :
      (s : Server) → s.state ≡ connected → Ends (Admits s) (Closes s) (process u y (over s))
  process-Admits s h =
      rw (process_begun u y s h)
        (init-Ends s (handle_init (record s { state = processing })) (begun-Granted s))
