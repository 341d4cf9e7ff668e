-- ===== src/Proto/Server/Outcomes.antt =====
-- Every way in which `Process` can end.
use revdial.Common.{
  ℕ, ◌≡◌, ◌≢◌, refl, ◌∙◌, true, false, List, [], ◌∷◌, ok, err, Result, arith, Ends, and_then-Ends,
  and_then, Ends-map, Ends-both, Bool-cases, ◌⊎◌, inl, inr, Option, none, some, ◌==◌,
}
use revdial.Proto.Static.{version_v1, cmd_register, cmd_bind, res_success}
use revdial.Proto.Failure.{Error, unexpected_state}
use revdial.Proto.Conn.{Conn, M, read, write, close, read_msg}
use revdial.Proto.Uuid.{Uuid}
use revdial.Proto.Server.Types.{
  Server, State, connected, processing, registered, bound, on_conn, state_code, state_eq,
}
use revdial.Proto.Server.Init.{handle_init}
use revdial.Proto.Server.Session.{
  process, close_on_error, handle_command, handle_register, handle_bind, dispatch_command, parsed,
}
use revdial.Proto.Server.Frame.{Frame-refl, on_conn-Ends}
use revdial.Proto.Server.Login.{Granted}
use revdial.Proto.Server.Granting.{handle_init-Granted}
use revdial.Proto.Server.Authentication.{handle_init-Ends}

abbrev pub IsProcessing : Server → Type 0
IsProcessing t = t.state ≡ processing

-- A session has begun.
abbrev pub IsServing : Server → Type 0
IsServing t = (t.state ≡ registered) ⊎ (t.state ≡ bound)

module _ {A B : Type 0} (m : M Conn A) (s : Server) {P : B → Server → Type 0} where
  conn_step :
      (f : A → M Server B)
      → IsProcessing s
      → ((a : A) (t : Server) → IsProcessing t → Ends P (λ _ t. IsProcessing t) (f a t))
      → Ends P (λ _ t. IsProcessing t) (and_then (on_conn m s) f)
  conn_step f h next =
      and_then-Ends (on_conn m s) {f = f}
        (on_conn-Ends {P = λ _ t. IsProcessing t} m (λ _ t g. g.same_state ∙ h)
          λ _ t g. g.same_state ∙ h)
        next

pub close-closed : (c : Conn) → (close c).1.closed ≡ true
unfolding close
close-closed c = ground arith

-- An error that ends `Process` closes the connection.
close_on_error-Ends :
    {P : Unit {0} → Server → Type 0} (r : Result Error (Unit {0}) × Server)
    → Ends P (λ _ t. IsProcessing t) r
    → Ends P (λ _ t. IsProcessing t × (t.conn.closed ≡ true)) (close_on_error r)
close_on_error-Ends (ok a, s) h = record { holds = h.holds }
close_on_error-Ends (err e, s) h = record { holds = (h.holds, close-closed s.conn) }

-- Authentication at the start of `Process`.
pub begun-Granted :
    (s : Server)
    → Ends
        (λ _ t. IsProcessing t × Granted s)
        (λ _ t. IsProcessing t)
        (handle_init (record s { state = processing }))
begun-Granted s =
    let start : Server = record s { state = processing } in
    Ends-map (handle_init start) (λ _ t p. (p.0.same_state, given p.1)) (λ _ t p. p.0.same_state)
      (Ends-both _ (handle_init-Ends start start (Frame-refl start)) (handle_init-Granted start))
  where
    given : Granted (record s { state = processing }) → Granted s
    given g = record {
      methods = g.methods;
      after = g.after;
      greeting = g.greeting;
      method = g.method;
      offered = g.offered;
      accepted = g.accepted;
    }

state_eq-false : (a b : State) → a ≢ b → state_eq a b ≡ false
state_eq-false a b h = ground arith

module _ (u : Uuid) where
  parsed-Ends :
      (o : Option (List ℕ)) (s : Server)
      → IsProcessing s
      → Ends (λ _ t. IsProcessing t) (λ _ t. IsProcessing t) (parsed o s)
  parsed-Ends none s h = record { holds = h }
  parsed-Ends (some id) s h = record { holds = h }

  handle_register-Ends :
      (s : Server)
      → IsProcessing s
      → Ends (λ _ t. IsServing t) (λ _ t. IsProcessing t) (handle_register u s)
  unfolding handle_register
  handle_register-Ends s h = conn_step (read 16) s _ h λ buf s₁ h₁.
      and_then-Ends (parsed (u.from_bytes buf) s₁) (parsed-Ends _ s₁ h₁) λ id s₂ h₂.
        conn_step (write (version_v1 ∷ res_success ∷ [])) (record s₂ { id = id }) _ h₂
          λ _ s₃ h₃. simp h₃ (record { holds = inl refl })

  handle_bind-Ends :
      (s : Server)
      → IsProcessing s
      → Ends (λ _ t. IsServing t) (λ _ t. IsProcessing t) (handle_bind u s)
  unfolding handle_bind
  handle_bind-Ends s h = conn_step (read 16) s _ h λ buf s₁ h₁.
      and_then-Ends (parsed (u.from_bytes buf) s₁) (parsed-Ends _ s₁ h₁) λ id s₂ h₂.
        conn_step (write (version_v1 ∷ res_success ∷ [])) (record s₂ { id = id }) _ h₂
          λ _ s₃ h₃. simp h₃ (record { holds = inr refl })

  pub dispatch_command-Ends :
      (msg : ℕ) (s : Server)
      → IsProcessing s
      → Ends (λ _ t. IsServing t) (λ _ t. IsProcessing t) (dispatch_command u msg s)
  unfolding dispatch_command
  dispatch_command-Ends msg s h = elim (Bool-cases (msg == cmd_register)) [
    | inl z ↦ rw z (handle_register-Ends s h)
    | inr z ↦ rw z (elim (Bool-cases (msg == cmd_bind)) [
      | inl y ↦ rw y (handle_bind-Ends s h)
      | inr y ↦ rw y (record { holds = h })
    ])
  ]

  handle_command-Ends :
      (s : Server)
      → IsProcessing s
      → Ends (λ _ t. IsServing t) (λ _ t. IsProcessing t) (handle_command u s)
  unfolding handle_command
  handle_command-Ends s h = conn_step read_msg s _ h dispatch_command-Ends

  pub process_begun :
      (s : Server)
      → s.state ≡ connected
      → process u s
        ≡ and_then
            (close_on_error (handle_init (record s { state = processing })))
            (λ _ t. close_on_error (handle_command u t))
  unfolding process
  process_begun s h = simp h

  -- `Process` is refused, and changes nothing, in every state but the first.
  pub process_refused :
      (s : Server)
      → s.state ≢ connected
      → process u s ≡ (err (unexpected_state (state_code s.state)), s)
  unfolding process
  process_refused s h = simp (state_eq-false s.state connected h)

  -- In its first state `Process` either succeeds, and then the client is registered or bound, and
  -- it offered no authentication to a server that asks for none, or offered to log in and sent a name
  -- and a password that the server's function accepts; or it fails, and then the state is
  -- `processing` and the connection is closed.
  pub process-Ends :
      (s : Server)
      → s.state ≡ connected
      → Ends
          (λ _ t. IsServing t × Granted s)
          (λ _ t. IsProcessing t × (t.conn.closed ≡ true))
          (process u s)
  process-Ends s h = rw (process_begun s h) (
      and_then-Ends (close_on_error (handle_init (record s { state = processing })))
        (close_on_error-Ends {P = λ _ t. IsProcessing t × Granted s} _ (begun-Granted s))
        λ _ t p. close_on_error-Ends (handle_command u t) (
          Ends-map (handle_command u t) (λ _ v q. (q, p.1)) (λ _ v q. q)
            (handle_command-Ends t p.0)))
