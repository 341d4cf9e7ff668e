-- ===== src/Tunnel/Asking.antt =====
-- A call of `DialContext` that tells a listener.
use revdial.Common.{
  ℕ, ◌<◌, ◌≡◌, refl, ap, sym, ◌∙◌, List, [], ◌∷◌, ◌++◌, length, ok, err, Bool, arith, ◌==◌, lt→ltb,
  ==_refl, ==_iff, Bool-cases, inl, inr,
}
use revdial.Connmng.Manager.{
  ServerConn, ConnManager, Got, got, nothing, out_of_range, get_conn, remove_connection,
}
use revdial.Proto.Static.{cmd_connect, res_success}
use revdial.Proto.Failure.{eof}
use revdial.Proto.Conn.{Conn, read_msg, write, close, send_request}
use revdial.Proto.Conn.Laws.{healthy, read_uuid}
use revdial.Proto.Uuid.{Uuid}
use revdial.Proto.Commands.{Json, connect_command}
use revdial.Proto.Client.Types.{live}
use revdial.Proto.Client.Events.{handle_command, handle_connect, offer, command_rounds}
use revdial.Proto.Server.Types.{registered}
use revdial.Proto.Server.Send as Send
use revdial.Proto.Server.Session.{close_server}
use revdial.Proto.Multiplex.Yamux.{Yamux}
use revdial.Proto.Multiplex.ClientEnd.{receive, v1_command_rounds, v2_command_rounds}
use revdial.Proto.Multiplex.ServerEnd.{
  ServerV2, send_connect_command, send_connect_command_v2, close_v2,
}
use revdial.Proto.Multiplex.Wires.{Wires, silence, Settles, round, settles}
use revdial.Dialer.Requests.{at, add_request}
use revdial.Dialer.State.{
  Dialer, Asked, requested, with_manager, with_server, request_connection, ask_got, asked_by,
  remove_server, close_all,
}
use revdial.Listener.State.{Listener}

abbrev asking : List ℕ → List (List ℕ)
asking id = (1 ∷ cmd_connect ∷ id) ∷ []

abbrev answer : List (List ℕ)
answer = (1 ∷ res_success ∷ []) ∷ []

module _ {S : Type 0} where
  abbrev pub server_on : Conn → ServerV2 S → ServerV2 S
  server_on conn s = record s { base = record s.base { conn = conn } }

  -- Both versions of the command do the same on what the server's connection is.
  sends_silent :
      (id : List ℕ) (s : ServerV2 S)
      → s.base.state ≡ registered
      → send_connect_command id (server_on (healthy [] []) s)
        ≡ (err eof, server_on (healthy [] (asking id)) s)
  unfolding send_connect_command send_connect_command_v2 Send.send_connect_command send_request
      read_msg write
  sends_silent id s e = elim (Bool-cases s.is_v2) [
    | inl b ↦ simp (b, e) refl
    | inr b ↦ simp (b, e) refl
  ]

  sends_answered :
      (id : List ℕ) (s : ServerV2 S)
      → s.base.state ≡ registered
      → send_connect_command id (server_on (healthy answer []) s)
        ≡ (ok tt, server_on (healthy ([] ∷ []) (asking id)) s)
  unfolding send_connect_command send_connect_command_v2 Send.send_connect_command send_request
      read_msg write
  sends_answered id s e = elim (Bool-cases s.is_v2) [
    | inl b ↦ simp (b, e) refl
    | inr b ↦ simp (b, e) refl
  ]

module _ {S R : Type 0} (u : Uuid) (y : Yamux S R) where
  close-outbound : (s : ServerV2 S) → (close_v2 u y s).1.base.conn.outbound ≡ s.base.conn.outbound
  unfolding close_v2 close_server close
  close-outbound s = ground arith

  at-outbound :
      (h k : ℕ) (f : ℕ → ServerV2 S)
      → (at h (close_v2 u y (f h)).1 f k).base.conn.outbound ≡ (f k).base.conn.outbound
  at-outbound h k f = elim (Bool-cases (k == h)) [
    | inl e ↦
        rw e (close-outbound (f h) ∙ ap (λ n. (f n).base.conn.outbound) (sym ((==_iff k h).0 e)))
    | inr e ↦ rw e refl
  ]

  close_all-outbound :
      (hs : List ℕ) (k : ℕ) (f : ℕ → ServerV2 S)
      → (close_all u y hs f k).base.conn.outbound ≡ (f k).base.conn.outbound
  close_all-outbound [] k f = refl
  close_all-outbound (h ∷ hs) k f =
      close_all-outbound hs k (at h (close_v2 u y (f h)).1 f) ∙ at-outbound h k f

  module _ (id : List ℕ) (conn : ServerConn) (d : Dialer S) where
    -- The control connection of the server that is asked gives it what the listener's end has sent.
    abbrev pub asked_on : Wires → Dialer S
    asked_on w = with_server conn.handle (server_on (healthy w.plain []) (d.servers conn.handle)) d

    abbrev pub dialer_run : Wires → Asked × Dialer S
    dialer_run w = request_connection u y id (asked_on w)

    abbrev pub requests_of : Asked × Dialer S → Wires
    requests_of r = record { plain = (r.1.servers conn.handle).base.conn.outbound; control = [] }

    -- The dialer once it was answered.
    abbrev pub having_asked : Dialer S
    having_asked = record d {
      manager = (get_conn d.manager).1;
      servers =
          at conn.handle (server_on (healthy ([] ∷ []) (asking id)) (d.servers conn.handle))
            (at conn.handle (server_on (healthy answer []) (d.servers conn.handle)) d.servers);
      requests = (add_request id d.requests).1;
    }

    -- What the send of the command gives, on the server that GetConn gave.
    got_asks :
        (w : Wires) (g : Got × ConnManager)
        → g.0 ≡ got conn
        → (d.servers conn.handle).base.state ≡ registered
        → ask_got u y id g (asked_on w)
          ≡ asked_by u y conn.handle id
              (add_request id d.requests).0
              (send_connect_command id (server_on (healthy w.plain []) (d.servers conn.handle)))
              (record (with_manager g.1 (asked_on w)) { requests = (add_request id d.requests).1 })
    got_asks w (nothing, m) e s = absurd cc
    got_asks w (out_of_range, m) e s = absurd cc
    got_asks w (got found, m) e s =
        let same : found ≡ conn = cc in rw (same, ==_refl conn.handle, s) refl

    dialer_asks :
        (get_conn d.manager).0 ≡ got conn
        → (d.servers conn.handle).base.state ≡ registered
        → requests_of (dialer_run silence) ≡ record { plain = asking id; control = [] }
    unfolding request_connection remove_server
    dialer_asks g s =
        let server = d.servers conn.handle in
        let sent =
          at conn.handle (server_on (healthy [] (asking id)) server) (asked_on silence).servers in
        let gone = (sent conn.handle).base.id in
        rw (got_asks silence (get_conn d.manager) g s, sends_silent id server s)
          (ap (λ q. record { plain = q; control = [] })
            (close_all-outbound (remove_connection gone (get_conn d.manager).1).closed conn.handle
                sent
              ∙ rw (==_refl conn.handle) refl))

    dialer_answered :
        (get_conn d.manager).0 ≡ got conn
        → (d.servers conn.handle).base.state ≡ registered
        → dialer_run (record { plain = answer; control = [] })
          ≡ (requested (add_request id d.requests).0, having_asked)
    unfolding request_connection
    dialer_answered g s =
        got_asks (record { plain = answer; control = [] }) (get_conn d.manager) g s
        ∙ rw (sends_answered id (d.servers conn.handle) s) refl

    asked_requests :
        requests_of (requested (add_request id d.requests).0, having_asked)
        ≡ record { plain = asking id; control = [] }
    asked_requests = rw (==_refl conn.handle) refl

  -- The listener's end: a round of the client's goroutine.
  module _ {V : Type 0} (json : Json V) (pick : Bool) (id : List ℕ) (l : Listener S) where
    abbrev pub listener_run : Wires → Listener S
    listener_run w = record l {
      client =
          (receive u json (pick ∷ [])
            (record l.client { base = record l.client.base { conn = healthy w.plain [] } })).0;
    }

    abbrev pub replies_of : Listener S → Wires
    replies_of after = record { plain = after.client.base.conn.outbound; control = [] }

    abbrev pub having_heard : Listener S
    having_heard = record l {
      client = record l.client {
        base = record l.client.base {
          conn = healthy ([] ∷ []) answer;
          cmds = l.client.base.cmds ++ connect_command id ∷ [];
        };
      };
    }

    listener_hears :
        length id ≡ 16
        → l.client.base.ctx ≡ live
        → length l.client.base.cmds < 10
        → listener_run (record { plain = asking id; control = [] }) ≡ having_heard
    unfolding receive v1_command_rounds v2_command_rounds command_rounds handle_command
        handle_connect offer read_msg write
    listener_hears e c room = elim (Bool-cases l.client.is_v2) [
      | inl b ↦ simp (b, c, read_uuid id [] [] e, u.from_bytes_sixteen id e, lt→ltb _ _ room) refl
      | inr b ↦ simp (b, c, read_uuid id [] [] e, u.from_bytes_sixteen id e, lt→ltb _ _ room) refl
    ]

  -- Where GetConn gives a registered server, and the listener at its other end is live and has room in
  -- its channel, the command of a call of DialContext settles after one round trip: the call has made
  -- its request, and the listener has the command.
  pub request_connection-listener :
      {V : Type 0} (json : Json V) (pick : Bool) (id : List ℕ) (conn : ServerConn) (d : Dialer S)
      (l : Listener S)
      → length id ≡ 16
      → (get_conn d.manager).0 ≡ got conn
      → (d.servers conn.handle).base.state ≡ registered
      → l.client.base.ctx ≡ live
      → length l.client.base.cmds < 10
      → Settles
          (dialer_run id conn d)
          (requests_of id conn d)
          (listener_run json pick id l)
          (replies_of json pick id l)
          1
          (λ r. r ≡ (requested (add_request id d.requests).0, having_asked id conn d))
          (λ after. after ≡ having_heard json pick id l)
  request_connection-listener json pick id conn d l e g s c room =
      let hears = listener_hears json pick id l e c room in
      let answered = dialer_answered id conn d g s in
      let replies = ap (replies_of json pick id l) hears in
      let dialer = dialer_run id conn d in
      let listener = listener_run json pick id l in
      let one =
        round dialer (requests_of id conn d) listener (replies_of json pick id l) 0 refl
          (dialer_asks id conn d g s) replies in
      settles dialer (requests_of id conn d) listener (replies_of json pick id l) 1 one
        (ap (requests_of id conn d) answered ∙ asked_requests id conn d) replies answered hears
