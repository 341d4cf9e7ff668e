-- ===== src/Proto/Delivery.antt =====
-- Commands over a registered connection: what the server sends reaches the client's channel, and the
-- client's answer the server.
use Prim.Native.String.{String}
use revdial.Common.{
  ℕ, ◌≡◌, ◌≤◌, ◌<◌, ◌+◌, ◌*◌, ◌/◌, ◌%◌, refl, ap, sym, subst, ◌∙◌, append-nil, and_then, done, fail,
  if◌then◌else◌, ◌==◌, List, [], ◌∷◌, ◌++◌, length, ok, some, Option, Bool, true, false, arith,
  lt→ltb, ltb,
}
use revdial.Proto.Static.{no_auth, cmd_connect, cmd_custom_event, res_success}
use revdial.Proto.Conn.{Conn, M, read_msg, write, send_request, read_full}
use revdial.Proto.Failure.{event_refused}
use revdial.Proto.Conn.Laws.{healthy, read_uuid, read_full_lem, read_msg_lem}
use revdial.Proto.Uuid.{Uuid}
use revdial.Proto.Commands.{
  Command, connect_command, custom_event, CustomEvent, Json, new_custom_event_command,
  new_command_type, put_uint16, uint16,
}
use revdial.Proto.Client.Types.{Client}
use revdial.Proto.Client.Types
use revdial.Proto.Client.Events.{
  handle_command, handle_connect, handle_ping, handle_custom_event, offer,
}
use revdial.Proto.Server.Types as Served
use revdial.Proto.Server.Types.{Server, Verifier}
use revdial.Proto.Server.Send.{send_connect_command, send_ping_command, send_custom_event}
use revdial.Proto.Handshake.Exchange.{Outcome, Settles, settle_one}

-- Both ends after a registration.
abbrev pub listening : List Command → Conn → Client
listening cmds conn = record {
  conn = conn;
  ctx = Types.live;
  cmds = cmds;
  cmds_closed = false;
  token = [];
  auth_mode = no_auth;
  state = Types.registered;
  disable_v2 = true;
}

abbrev pub serving : List ℕ → Option Verifier → Conn → Server
serving id verifier conn = record {
  conn = conn;
  verifier = verifier;
  state = Served.registered;
  id = id;
  allows_no_auth = true;
}

abbrev pub Received : List Command → Outcome Client → Type 0
Received cmds (r, c) = (r ≡ ok tt) × (c.cmds ≡ cmds) × (c.conn.closed ≡ false)

abbrev pub Answered : Outcome Server → Type 0
Answered (r, s) = (r ≡ ok tt) × (s.state ≡ Served.registered) × (s.conn.closed ≡ false)

abbrev yes_reply : List ℕ
yes_reply = 1 ∷ res_success ∷ []

module _ {V : Type 0} (u : Uuid) (json : Json V) (pick : Bool) (cmds : List Command) (own : List ℕ)
    (verifier : Option Verifier) where
  receive_nothing :
      (handle_command u json pick (listening cmds (healthy [] []))).1.conn.outbound ≡ []
  unfolding handle_command read_msg
  receive_nothing = refl

  receive_connect :
      (id : List ℕ)
      → length id ≡ 16
      → length cmds < 10
      → handle_command u json pick (listening cmds (healthy ((1 ∷ cmd_connect ∷ id) ∷ []) [])) ≡ (
        ok tt,
        listening
            (cmds ++ connect_command id ∷ [])
            (healthy ([] ∷ []) ((1 ∷ res_success ∷ []) ∷ [])),
      )
  unfolding handle_command handle_connect offer read_msg write
  receive_connect id n room =
      simp (read_uuid id [] [] n, u.from_bytes_sixteen id n, lt→ltb _ _ room)

  -- One request and its answer make one round trip.
  one_answer :
      (serve : M Server (Unit {0})) (request : List ℕ) (cmds' : List Command)
      → handle_command u json pick (listening cmds (healthy (request ∷ []) []))
        ≡ (ok tt, listening cmds' (healthy ([] ∷ []) (yes_reply ∷ [])))
      → (serve (serving own verifier (healthy [] []))).1.conn.outbound ≡ request ∷ []
      → serve (serving own verifier (healthy (yes_reply ∷ []) []))
        ≡ (ok tt, serving own verifier (healthy ([] ∷ []) (request ∷ [])))
      → Settles
          (handle_command u json pick)
          (listening cmds)
          serve
          (serving own verifier)
          1
          (Received cmds')
          Answered
  one_answer serve request cmds' received asks answer =
      let server : List (List ℕ) → Outcome Server =
        λ q. serve (serving own verifier (healthy q [])) in
      settle_one (handle_command u json pick) (listening cmds) serve (serving own verifier)
        (request ∷ []) (ap (λ q. (server q).1.conn.outbound) receive_nothing ∙ asks)
        (ap (λ r. (server r.1.conn.outbound).1.conn.outbound) received
          ∙ ap (λ r. r.1.conn.outbound) answer)
        (subst (Received cmds') (sym received) (refl, refl, refl))
        (subst Answered (sym (ap (λ r. server r.1.conn.outbound) received ∙ answer))
          (refl, refl, refl))

  -- Where the client's channel has room, a connect command of a 16-byte id settles after one round
  -- trip: the id is appended to the channel, the server gets success, and both connections stay open.
  pub connect_delivered :
      (id : List ℕ)
      → length id ≡ 16
      → length cmds < 10
      → Settles
          (handle_command u json pick)
          (listening cmds)
          (send_connect_command id)
          (serving own verifier)
          1
          (Received (cmds ++ connect_command id ∷ []))
          Answered
  unfolding send_connect_command send_request read_msg write
  connect_delivered id n room =
      one_answer (send_connect_command id) (1 ∷ cmd_connect ∷ id) _ (receive_connect id n room) refl
        refl

  -- A ping settles after one round trip with success and leaves the channel as it was.
  pub ping_lem :
      Settles
        (handle_command u json pick)
        (listening cmds)
        send_ping_command
        (serving own verifier)
        1
        (Received cmds)
        Answered
  unfolding handle_command handle_ping send_ping_command send_request read_msg write
  ping_lem = record {
    settled = refl;
    client_ends = (refl, refl, refl);
    server_ends = (refl, refl, refl);
  }

  module _ (name : String) (v : V) (payload text : List ℕ) (l : length text ≤ 65535) where
    abbrev event : CustomEvent
    event = record { name = name; payload = payload }

    abbrev request : List ℕ
    request = 1 ∷ cmd_custom_event ∷ put_uint16 (length text) ++ text

    read_two :
        (a b : ℕ) (ys : List ℕ) (segs out : List (List ℕ))
        → read_full 2 (healthy ((a ∷ b ∷ ys) ∷ segs) out)
          ≡ (ok (a ∷ b ∷ []), healthy (ys ∷ segs) out)
    unfolding read_full
    read_two a b ys segs out = refl

    read_event :
        read_full (uint16 (length text / 256 ∷ length text % 256 ∷ [])) (healthy (text ∷ []) [])
        ≡ (ok text, healthy ([] ∷ []) [])
    unfolding uint16
    read_event =
        let e : length text / 256 * 256 + length text % 256 ≡ length text = omega arith in
        rw e (
          subst
            (λ t. read_full (length text) (healthy (t ∷ []) []) ≡ (ok text, healthy ([] ∷ []) []))
            (append-nil text) (read_full_lem text [] [] []))

    receive_event :
        json.unmarshal_event text ≡ some event
        → length cmds < 10
        → handle_command u json pick (listening cmds (healthy (request ∷ []) [])) ≡ (
          ok tt,
          listening (cmds ++ custom_event event ∷ []) (healthy ([] ∷ []) (yes_reply ∷ [])),
        )
    unfolding handle_command handle_custom_event offer write put_uint16
    receive_event e room = simp (read_msg_lem, read_two, read_event, e, lt→ltb _ _ room)

    -- What `SendCustomEvent` does once the event is made.
    send_event :
        new_command_type name ≡ ok name
        → json.marshal v ≡ some payload
        → json.marshal_event event ≡ some text
        → (segs : List (List ℕ))
        → send_custom_event json name v (serving own verifier (healthy segs []))
          ≡ and_then
              (Served.on_conn
                (send_request (cmd_custom_event ∷ put_uint16 (length text) ++ text))
                (serving own verifier (healthy segs [])))
              (λ resp. if resp == res_success then done else fail (event_refused resp))
    unfolding send_custom_event new_custom_event_command
    send_event t m me segs =
        let fits : ltb 65535 (length text) ≡ false = ground arith in simp (t, m, me, fits)

    -- A custom event whose name `NewCommandType` takes and whose JSON has at most 65535 bytes is
    -- appended to the client's channel with its name and payload, where there is room, and the
    -- server gets success, in one round trip, if the JSON library reads back what it wrote.
    pub event_delivered :
        new_command_type name ≡ ok name
        → json.is_utf8 name ≡ true
        → json.marshal v ≡ some payload
        → json.marshal_event event ≡ some text
        → length cmds < 10
        → Settles
            (handle_command u json pick)
            (listening cmds)
            (send_custom_event json name v)
            (serving own verifier)
            1
            (Received (cmds ++ custom_event event ∷ []))
            Answered
    unfolding send_request read_msg write put_uint16
    event_delivered t utf m me room =
        one_answer (send_custom_event json name v) request _
          (receive_event (json.unmarshal_event-marshal_event v event text utf m me) room)
          (ap (λ r. r.1.conn.outbound) (send_event t m me [])) (send_event t m me (yes_reply ∷ []))
