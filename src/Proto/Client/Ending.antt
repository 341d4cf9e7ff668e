-- ===== src/Proto/Client/Ending.antt =====
-- The goroutine that reads commands does not go on for ever.
use revdial.Common.{
  ℕ, ◌+◌, ◌≤◌, ◌<◌, ◌≡◌, refl, Bool, true, false, not, ◌&&◌, ◌||◌, List, [], ◌∷◌, length, Option,
  none, some, ok, err, Result, arith, if◌then◌else◌, ◌==◌, Ends, Ends-map, Ends-if, and_then-Ends,
  and_then, ◌⊎◌, inl, inr,
}
use revdial.Proto.Static.{cmd_connect, cmd_ping, cmd_custom_event, version_v1, res_success}
use revdial.Proto.Failure.{Error, blocked, bad_uuid, unmarshal_failed}
use revdial.Proto.Conn.{Conn, M, read, read_full, read_msg, write}
use revdial.Proto.Conn.Consumption.{
  size, is_blocked, IsOfConn, Takes, read_full-Ends, read-Ends, write-Ends, read_msg-Ends,
}
use revdial.Proto.Uuid.{Uuid}
use revdial.Proto.Commands.{Json, Command, connect_command, custom_event, or_error, uint16}
use revdial.Proto.Client.Types.{Client, on_conn, is_cancelled, cancelled}
use revdial.Proto.Client.Session.{cancel}
use revdial.Proto.Client.Events.{
  lift, has_room, offer, reply_if, handle_ping, handle_connect, handle_custom_event, dispatch,
  handle_command, finish, after_command, command_rounds,
}

abbrev left : Client → ℕ
left c = size c.conn.inbound

abbrev Reads : {A : Type 0} → ℕ → Client → A → Client → Type 0
Reads n c a t = left t + n ≤ left c

-- A call that waits has found the channel full.
abbrev Waits : Error → Client → Type 0
Waits e t = is_blocked e ≡ true → has_room t ≡ false

module _ {A : Type 0} where
  on_conn-Ends :
      (n : ℕ) (r : Result Error A × Conn) (c : Client)
      → Ends (Takes n c.conn) IsOfConn r
      → Ends (Reads n c) Waits (r.0, record c { conn = r.1 })
  on_conn-Ends n (ok a, conn) c h = record { holds = h.holds }
  on_conn-Ends n (err e, conn) c h = record { holds = λ b. absurd cc }

  lift-Ends :
      (o : Option A) (e : Error) (c : Client)
      → is_blocked e ≡ false
      → Ends (Reads 0 c) Waits (lift (or_error o e) c)
  lift-Ends none e c h = record { holds = λ b. absurd cc }
  lift-Ends (some a) e c h = record { holds = omega arith }

  then-Ends :
      {B : Type 0} (n : ℕ) (c : Client) (r : Result Error A × Client) (f : A → M Client B)
      → Ends (Reads n c) Waits r
      → ((a : A) (t : Client) → Ends (Reads 0 t) Waits (f a t))
      → Ends (Reads n c) Waits (and_then r f)
  then-Ends n c r f h k =
      and_then-Ends r h
        (λ a t l. Ends-map (f a t) (λ b v m. omega (arith, l, m)) (λ e v m. m) (k a t))

offer-Ends : (pick : Bool) (cmd : Command) (c : Client) → Ends (Reads 0 c) Waits (offer pick cmd c)
unfolding offer
offer-Ends pick cmd c =
    Ends-if (is_cancelled c.ctx && (pick || not (has_room c))) (λ _. record { holds = omega arith })
      (λ _.
        Ends-if (has_room c) (λ _. record { holds = omega arith })
          (λ full. record { holds = λ _. full }))

reply_if-Ends : (sent : Bool) (c : Client) → Ends (Reads 0 c) Waits (reply_if sent c)
reply_if-Ends true c =
    on_conn-Ends 0 (write (version_v1 ∷ res_success ∷ []) c.conn) c (write-Ends _ c.conn)
reply_if-Ends false c = record { holds = omega arith }

offered-Ends :
    (pick : Bool) (cmd : Command) (c : Client)
    → Ends (Reads 0 c) Waits (and_then (offer pick cmd c) reply_if)
offered-Ends pick cmd c =
    then-Ends 0 c (offer pick cmd c) reply_if (offer-Ends pick cmd c) reply_if-Ends

module _ {V : Type 0} (u : Uuid) (json : Json V) where
  connect-Ends : (pick : Bool) (c : Client) → Ends (Reads 0 c) Waits (handle_connect u json pick c)
  unfolding handle_connect
  connect-Ends pick c =
      then-Ends 0 c (on_conn (read 16) c) _
        (on_conn-Ends 0 (read 16 c.conn) c (read-Ends 16 c.conn))
        (λ buf t.
          then-Ends 0 t (lift (or_error (u.from_bytes buf) bad_uuid) t) _
            (lift-Ends (u.from_bytes buf) bad_uuid t refl)
            (λ id. offered-Ends pick (connect_command id)))

  read_full_client : (n : ℕ) (c : Client) → Ends (Reads 0 c) Waits (on_conn (read_full n) c)
  read_full_client n c =
      Ends-map (on_conn (read_full n) c) (λ a t h. omega (arith, h)) (λ e t h. h)
        (on_conn-Ends n (read_full n c.conn) c (read_full-Ends n c.conn))

  event-Ends :
      (pick : Bool) (c : Client) → Ends (Reads 0 c) Waits (handle_custom_event u json pick c)
  unfolding handle_custom_event
  event-Ends pick c = then-Ends 0 c (on_conn (read_full 2) c) _ (read_full_client 2 c) (λ len_buf t.
      then-Ends 0 t (on_conn (read_full (uint16 len_buf)) t) _ (read_full_client (uint16 len_buf) t)
        (λ text v.
          then-Ends 0 v (lift (or_error (json.unmarshal_event text) unmarshal_failed) v) _
            (lift-Ends (json.unmarshal_event text) unmarshal_failed v refl)
            (λ event. offered-Ends pick (custom_event event))))

  if-Ends :
      (b : Bool) (c : Client) (m n : M Client (Unit {0}))
      → Ends (Reads 0 c) Waits (m c)
      → Ends (Reads 0 c) Waits (n c)
      → Ends (Reads 0 c) Waits ((if b then m else n) c)
  if-Ends true c m n h k = h
  if-Ends false c m n h k = k

  dispatch-Ends :
      (pick : Bool) (msg : ℕ) (c : Client) → Ends (Reads 0 c) Waits (dispatch u json pick msg c)
  unfolding dispatch handle_ping
  dispatch-Ends pick msg c = if-Ends (msg == cmd_connect) c _ _ (connect-Ends pick c) (
      if-Ends (msg == cmd_ping) c _ _ (reply_if-Ends true c) (
        if-Ends (msg == cmd_custom_event) c _ _ (event-Ends pick c)
          (record { holds = λ b. absurd cc })))

  command-Ends : (pick : Bool) (c : Client) → Ends (Reads 2 c) Waits (handle_command u json pick c)
  unfolding handle_command
  command-Ends pick c =
      then-Ends 2 c (on_conn read_msg c) (dispatch u json pick)
        (on_conn-Ends 2 (read_msg c.conn) c (read_msg-Ends c.conn)) (dispatch-Ends pick)

  -- The goroutine has ended, with the channel closed and the context cancelled, or it waits for room in
  -- a full channel.
  abbrev pub HasStopped : Client × Bool → Type 0
  HasStopped r =
      ((r.1 ≡ true) × (r.0.cmds_closed ≡ true) × (r.0.ctx ≡ cancelled))
      ⊎ ((r.1 ≡ false) × (has_room r.0 ≡ false))

  finish-HasStopped : (c : Client) → HasStopped (finish u json c, true)
  unfolding finish cancel
  finish-HasStopped c = inl (refl, refl, refl)

  after-HasStopped :
      (n : ℕ) (c : Client) (r : Result Error (Unit {0}) × Client) (next : Client → Client × Bool)
      → Ends (Reads 2 c) Waits r
      → left c < n + 1
      → ((t : Client) → left t < n → HasStopped (next t))
      → HasStopped (after_command u json r next)
  after-HasStopped n c (ok a, t) next h l k = k t (omega (arith, h.holds, l))
  after-HasStopped n c (err blocked, t) next h l k = inr (refl, h.holds refl)
  after-HasStopped n c (err _, t) next h l k = finish-HasStopped t

  either-HasStopped :
      (b : Bool) (q r : Client × Bool)
      → HasStopped q
      → HasStopped r
      → HasStopped (if b then q else r)
  either-HasStopped true q r h k = h
  either-HasStopped false q r h k = k

  -- Within one round more than there are bytes to come, the goroutine that reads commands has ended, with
  -- the channel closed and the context cancelled, or it waits for room in a full channel.
  pub command_rounds-HasStopped :
      (picks : List Bool) (c : Client)
      → size c.conn.inbound < length picks
      → HasStopped (command_rounds u json picks c)
  unfolding command_rounds
  command_rounds-HasStopped [] c h = absurd (omega arith)
  command_rounds-HasStopped (pick ∷ picks) c h =
      either-HasStopped (is_cancelled c.ctx) _ _ (finish-HasStopped c) (
        after-HasStopped (length picks) c (handle_command u json pick c)
          (command_rounds u json picks) (command-Ends pick c) (omega arith)
          (command_rounds-HasStopped picks))
