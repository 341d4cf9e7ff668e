-- ===== src/Proto/Server/Openness.antt =====
-- A command closes no connection.
use revdial.Common.{
  ℕ, ◌≡◌, ◌∙◌, false, List, [], ◌∷◌, ok, err, Result, Ends, Ends-map, and_then, and_then-Ends,
  Bool-cases, inl, inr, Option, none, some, ◌==◌,
}
use revdial.Proto.Static.{version_v1, cmd_register, cmd_bind, res_success}
use revdial.Proto.Failure.{Error}
use revdial.Proto.Conn.{Conn, M, read, write}
use revdial.Proto.Conn.Effects.{read-OnlyReads, write-Writes}
use revdial.Proto.Uuid.{Uuid}
use revdial.Proto.Server.Types.{Server, processing, state_eq}
use revdial.Proto.Server.Session.{dispatch_command, handle_register, handle_bind, parsed}

abbrev pub StaysOpen : {A : Type 0} → A → Server → Type 0
StaysOpen a t = t.conn.closed ≡ false

abbrev Keeps : {A : Type 0} → Conn → A → Conn → Type 0
Keeps c a t = t.closed ≡ c.closed

module _ {A B : Type 0} where
  open_then :
      (r : Result Error A × Conn) (s : Server) (f : A → M Server B)
      → s.conn.closed ≡ false
      → Ends (Keeps s.conn) (Keeps s.conn) r
      → ((a : A) (t : Server) → t.conn.closed ≡ false → Ends StaysOpen StaysOpen (f a t))
      → Ends StaysOpen StaysOpen (and_then (r.0, record s { conn = r.1 }) f)
  open_then (ok a, conn) s f h k next = next a (record s { conn = conn }) (k.holds ∙ h)
  open_then (err e, conn) s f h k next = record { holds = k.holds ∙ h }

module _ (u : Uuid) where
  parsed-StaysOpen :
      (o : Option (List ℕ)) (s : Server)
      → s.conn.closed ≡ false
      → Ends StaysOpen StaysOpen (parsed o s)
  parsed-StaysOpen none s h = record { holds = h }
  parsed-StaysOpen (some id) s h = record { holds = h }

  read-Keeps : (n : ℕ) (c : Conn) → Ends (Keeps c) (Keeps c) (read n c)
  read-Keeps n c = Ends-map (read n c) (λ _ _ k. k.0) (λ _ _ k. k.0) (read-OnlyReads n c)

  write-Keeps : (bytes : List ℕ) (c : Conn) → Ends (Keeps c) (Keeps c) (write bytes c)
  write-Keeps bytes c =
      Ends-map (write bytes c) (λ _ _ k. k.0) (λ _ _ k. k.0) (write-Writes bytes c)

  abbrev success : List ℕ
  success = version_v1 ∷ res_success ∷ []

  handle_register-StaysOpen :
      (s : Server) → s.conn.closed ≡ false → Ends StaysOpen StaysOpen (handle_register u s)
  unfolding handle_register
  handle_register-StaysOpen s h =
      open_then (read 16 s.conn) s _ h (read-Keeps 16 s.conn) λ buf s₁ h₁.
        and_then-Ends (parsed (u.from_bytes buf) s₁) (parsed-StaysOpen _ s₁ h₁) λ id s₂ h₂.
          open_then (write success s₂.conn) (record s₂ { id = id }) _ h₂
            (write-Keeps success s₂.conn)
            λ _ s₃ h₃. elim (Bool-cases (state_eq s₃.state processing)) [
              | inl e ↦ simp e (record { holds = h₃ })
              | inr e ↦ simp e (record { holds = h₃ })
            ]

  handle_bind-StaysOpen :
      (s : Server) → s.conn.closed ≡ false → Ends StaysOpen StaysOpen (handle_bind u s)
  unfolding handle_bind
  handle_bind-StaysOpen s h = open_then (read 16 s.conn) s _ h (read-Keeps 16 s.conn) λ buf s₁ h₁.
      and_then-Ends (parsed (u.from_bytes buf) s₁) (parsed-StaysOpen _ s₁ h₁) λ id s₂ h₂.
        open_then (write success s₂.conn) (record s₂ { id = id }) _ h₂ (write-Keeps success s₂.conn)
          λ _ s₃ h₃. elim (Bool-cases (state_eq s₃.state processing)) [
            | inl e ↦ simp e (record { holds = h₃ })
            | inr e ↦ simp e (record { holds = h₃ })
          ]

  -- Whatever a client's command is and however it ends, an open connection stays open.
  pub dispatch_command-StaysOpen :
      (msg : ℕ) (s : Server)
      → s.conn.closed ≡ false
      → Ends StaysOpen StaysOpen (dispatch_command u msg s)
  unfolding dispatch_command
  dispatch_command-StaysOpen msg s h = elim (Bool-cases (msg == cmd_register)) [
    | inl z ↦ rw z (handle_register-StaysOpen s h)
    | inr z ↦ rw z (elim (Bool-cases (msg == cmd_bind)) [
      | inl y ↦ rw y (handle_bind-StaysOpen s h)
      | inr y ↦ rw y (record { holds = h })
    ])
  ]
