-- ===== src/Proto/Multiplex/Versions.antt =====
-- Where both ends of version 2 behave as those of version 1.
use revdial.Common.{
  ℕ, ◌≡◌, ◌≢◌, refl, ap, sym, ◌∙◌, true, List, ok, err, Result, and_then, ◌==◌, Bool-cases, inl,
  inr, arith, false, Ends, ==_iff,
}
use revdial.Proto.Static.{cmd_mux_init}
use revdial.Proto.Failure.{Error}
use revdial.Proto.Conn.{Conn, M, close, read_msg}
use revdial.Proto.Conn.Effects.{IsOpen, read_msg-IsOpen}
use revdial.Proto.Server.Openness.{StaysOpen, dispatch_command-StaysOpen}
use revdial.Proto.Uuid.{Uuid}
use revdial.Proto.Client.Types.{Client, connected, processing, live, registered}
use revdial.Proto.Client.Types as Dialling
use revdial.Proto.Client.Session.{establish, handle_register, cancel_on_error}
use revdial.Proto.Client.Session as Calls
use revdial.Proto.Server.Types.{Server, on_conn, state_eq}
use revdial.Proto.Server.Types as Serving
use revdial.Proto.Server.Init.{handle_init}
use revdial.Proto.Server.Session.{close_on_error, handle_command, dispatch_command}
use revdial.Proto.Server.Session as Session
use revdial.Proto.Multiplex.Yamux.{Yamux}
use revdial.Proto.Multiplex.ClientEnd.{ClientV2}
use revdial.Proto.Multiplex.ClientEnd as ClientEnd
use revdial.Proto.Multiplex.ServerEnd as ServerEnd
use revdial.Proto.Server.Outcomes as Outcomes
use revdial.Proto.Multiplex.ServerEnd.{
  ServerV2, over, process, process_command, process_v1_command, read_or_close,
}

-- A second close changes nothing.
close-close : (c : Conn) → (close (close c).1).1 ≡ (close c).1
unfolding close
close-close c = elim (Bool-cases c.closed) [ inl e ↦ simp e refl | inr e ↦ simp e refl ]

-- What stands in version 2 for a state of version 1.
module _ {S : Type 0} where
  abbrev pub lifted : {A : Type 0} → Result Error A × Server → Result Error A × ServerV2 S
  lifted w = (w.0, over w.1)

-- The command that follows authentication, and the server then.
unfoldable pub first_command : Server → Result Error ℕ × Server
first_command s = and_then (handle_init s) (λ _. on_conn read_msg)

module _ {S R : Type 0} (u : Uuid) (y : Yamux S R) where
  -- Where the command was read, its outcome leaves the connection open, and where it was not, the
  -- connection is closed.
  abbrev pub Leaves : Result Error ℕ × Server → Server → Type 0
  Leaves (ok msg, read) t = t.conn.closed ≡ false
  Leaves (err e, read) t = t.conn.closed ≡ true

  -- Both versions of a call, that read a command or failed to: the results are the same, and version
  -- 1 closes the connection on every error.
  abbrev pub Agrees :
      Result Error ℕ × Server
      → Result Error (Unit {0}) × ServerV2 S
      → Result Error (Unit {0}) × Server
      → Type 0
  Agrees read v2 v1 =
      (w : Result Error (Unit {0}) × Server) × (v2 ≡ lifted w)
      × (v1 ≡ close_on_error w)
      × Leaves read v2.1.base

  close_twice :
      (e : Error) (s t : Server)
      → Agrees (err e, t) (err e, over (on_conn close s).1) (err e, (on_conn close s).1)
  close_twice e s t = (
    (err e, (on_conn close s).1),
    refl,
    ap (λ c. (err e, record s { conn = c })) (sym (close-close s.conn)),
    Outcomes.close-closed s.conn,
  )

  StaysOpen-state :
      (r : Result Error (Unit {0}) × Server) → Ends StaysOpen StaysOpen r → r.1.conn.closed ≡ false
  StaysOpen-state (ok a, s) h = h.holds
  StaysOpen-state (err e, s) h = h.holds

  not_mux_init :
      (msg : ℕ)
      → ◌≢◌ {A = Result Error ℕ} (ok msg) (ok cmd_mux_init)
      → (msg == cmd_mux_init) ≡ false
  not_mux_init msg h = elim (Bool-cases (msg == cmd_mux_init)) [
    | inl e ↦ absurd (h (ap ok ((==_iff msg cmd_mux_init).0 e)))
    | inr e ↦ e
  ]

  agree_command :
      (q : Result Error ℕ × Server)
      → q.0 ≢ ok cmd_mux_init
      → Ends StaysOpen (λ _ _. Unit {0}) q
      → Agrees q
          (and_then (lifted (read_or_close u y q)) (process_command u y))
          (close_on_error (and_then q (dispatch_command u)))
  unfolding process_command process_v1_command dispatch_command
  agree_command (err e, s) h was = close_twice e s s
  agree_command (ok msg, s) h was =
      let n = not_mux_init msg h in
      (
        dispatch_command u msg s,
        simp n refl,
        refl,
        simp n (StaysOpen-state _ (dispatch_command-StaysOpen u msg s was.holds)),
      )

  read-StaysOpen : (s : Server) → Ends StaysOpen (λ _ _. Unit {0}) (on_conn read_msg s)
  read-StaysOpen s = lifted-Ends (read_msg s.conn) (read_msg-IsOpen s.conn)
    where
      lifted-Ends :
          (r : Result Error ℕ × Conn)
          → Ends IsOpen (λ _ _. Unit {0}) r
          → Ends StaysOpen (λ _ _. Unit {0}) (r.0, record s { conn = r.1 })
      lifted-Ends (ok a, conn) h = record { holds = h.holds }
      lifted-Ends (err e, conn) h = record { holds = tt }

  agree_init :
      (r : Result Error (Unit {0}) × Server)
      → (and_then r (λ _. on_conn read_msg)).0 ≢ ok cmd_mux_init
      → Agrees
          (and_then r (λ _. on_conn read_msg))
          (and_then (lifted (close_on_error r)) (λ _ t.
            and_then
              (ServerEnd.on_base (λ s. read_or_close u y (on_conn read_msg s)) t)
              (process_command u y)))
          (and_then (close_on_error r) (λ _ t. close_on_error (handle_command u t)))
  unfolding handle_command
  agree_init (err e, s) h = close_twice e s s
  agree_init (ok a, s) h = agree_command (on_conn read_msg s) h (read-StaysOpen s)

  pub process_begun :
      (s : Server)
      → s.state ≡ Serving.connected
      → process u y (over s)
        ≡ and_then
            (lifted (close_on_error (handle_init (record s { state = Serving.processing }))))
            (λ _ t.
              and_then
                (ServerEnd.on_base (λ s. read_or_close u y (on_conn read_msg s)) t)
                (process_command u y))
  unfolding process
  process_begun s h = simp h

  -- On a new connection, where the command after authentication is not `MuxInit`, both versions of
  -- `Process` have the same result, stay in version 1, and leave the same server, but that an error
  -- of the command, once read, leaves the connection open in version 2, where version 1 closes it.
  -- An error of the authentication or of reading the command closes it in both.
  pub process-Agrees :
      (s : Server)
      → s.state ≡ Serving.connected
      → (first_command (record s { state = Serving.processing })).0 ≢ ok cmd_mux_init
      → Agrees
          (first_command (record s { state = Serving.processing }))
          (process u y (over s))
          (Session.process u s)
  unfolding first_command
  process-Agrees s h n =
      rw (process_begun s h, Outcomes.process_begun u s h)
        (agree_init (handle_init (record s { state = Serving.processing })) n)

-- What stands in version 2 for a client of version 1.
module _ {S : Type 0} where
  abbrev pub lifted_client : {A : Type 0} → Result Error A × Client → Result Error A × ClientV2 S
  lifted_client w = (w.0, ClientEnd.over w.1)

  -- A call on the embedded client, after one.
  on_base_next :
      {A B : Type 0} (r : Result Error A × Client) (f : A → M Client B)
      → and_then (lifted_client {A = A} r) (λ a. ClientEnd.on_base (f a))
        ≡ lifted_client (and_then r f)
  on_base_next (ok a, c) f = refl
  on_base_next (err e, c) f = refl

module _ {S R : Type 0} (y : Yamux S R) (id : List ℕ) where
  abbrev finish : M (ClientV2 S) (Unit {0})
  finish = ClientEnd.on_base (Dialling.set_state registered)

  agree_register :
      (r : Result Error (Unit {0}) × Client)
      → and_then (lifted_client r) (λ _ c.
        and_then (ClientEnd.on_base (λ c. cancel_on_error (handle_register id c)) c) (λ _. finish))
        ≡ lifted_client (
            and_then r (λ _ c.
              and_then
                (cancel_on_error (handle_register id c))
                (λ _. Dialling.set_state registered)))
  agree_register (err e, c) = refl
  agree_register (ok a, c) =
      on_base_next (cancel_on_error (handle_register id c)) (λ _. Dialling.set_state registered)

  by_mode :
      (c : ClientV2 S)
      → c.base.disable_v2 ≡ true
      → ClientEnd.register_by_mode y id c ≡ ClientEnd.register_v1 id c
  by_mode c h = elim (Bool-cases c.base.disable_v2) [ inl e ↦ simp e refl | inr e ↦ ground arith ]

  -- A client of version 2 that is told to use version 1 only registers as a client of version 1, on
  -- every input and with every error.
  pub register-lifted :
      (c : Client)
      → c.disable_v2 ≡ true
      → ClientEnd.register y id (ClientEnd.over c) ≡ lifted_client (Calls.register id c)
  unfolding ClientEnd.register Calls.register ClientEnd.register_v1
  register-lifted c h = elim (Bool-cases (Dialling.client_state_eq c.state connected)) [
    | inl e ↦
        let begun : Client = record c { state = processing; ctx = live } in
        simp e
          (by_mode (ClientEnd.over begun) h ∙ agree_register (cancel_on_error (establish begun)))
    | inr e ↦ simp e refl
  ]
