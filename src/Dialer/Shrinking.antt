-- ===== src/Dialer/Shrinking.antt =====
-- Which calls of a dialer put a connection under its manager.
use revdial.Common.{
  ℕ, ◌≡◌, refl, ap, sym, ◌∙◌, Bool, true, false, List, [], some, Result, ok, err, if◌then◌else◌,
}
use Prim.Native.String.{String}
use revdial.Connmng.Manager.{ConnManager, ServerConn, Got, nothing, out_of_range, got, get_conn}
use revdial.Connmng.Lookup.{find, Distinct}
use revdial.Connmng.Getting.{get_conn-keeps}
use revdial.Proto.Failure.{Error}
use revdial.Proto.Uuid.{Uuid}
use revdial.Proto.Commands.{Json}
use revdial.Proto.Server.Types.{registered, state_eq}
use revdial.Proto.Multiplex.Yamux.{Yamux}
use revdial.Proto.Multiplex.ServerEnd.{ServerV2, send_connect_command, send_custom_event}
use revdial.Dialer.Requests.{add_request}
use revdial.Dialer.State.{
  Dialer, with_manager, with_server, remove_server, asked_by, ask_got, request_connection, sent_by,
  send_got, send_event,
}
use revdial.Dialer.Ending.{remove_server-Removes, found_left}

module _ {S : Type 0} where
  -- Nothing is held that was not held before.
  pub record Shrinks (d after : Dialer S) : Type 0 where
    pub before :
        (id : List ℕ) (conn : ServerConn)
        → find id after.manager.connections ≡ some conn
        → find id d.manager.connections ≡ some conn

  same-Shrinks :
      (d after : Dialer S) → after.manager.connections ≡ d.manager.connections → Shrinks d after
  same-Shrinks d after e = record { before = λ id conn f. ap (find id) (sym e) ∙ f }

  -- The manager's connections are apart, and it has closed none.
  pub record IsSettled (d : Dialer S) : Type 0 where
    pub distinct : Distinct d.manager.connections
    pub closes_none : d.manager.closed ≡ []

module _ {S R : Type 0} (u : Uuid) (y : Yamux S R) where
  pub remove_server-Shrinks :
      (h : ℕ) (s : ServerV2 S) (d : Dialer S)
      → IsSettled d
      → Shrinks d (remove_server u y h (with_server h s d))
  remove_server-Shrinks h s d n =
      let r = remove_server-Removes u y h (with_server h s d) n.distinct n.closes_none in
      record { before = λ id conn e. (found_left u y _ _ conn (sym (r.left id) ∙ e)).1 }

  asked-Shrinks :
      (h : ℕ) (id : List ℕ) (n : ℕ) (r : Result Error (Unit {0}) × ServerV2 S) (d : Dialer S)
      → IsSettled d
      → Shrinks d (asked_by u y h id n r d).1
  asked-Shrinks h id n (ok a, s) d k = same-Shrinks d _ refl
  asked-Shrinks h id n (err e, s) d k = record { before = (remove_server-Shrinks h s d k).before }

  sent-Shrinks :
      (h : ℕ) (r : Result Error (Unit {0}) × ServerV2 S) (d : Dialer S)
      → IsSettled d
      → Shrinks d (sent_by u y h r d).1
  sent-Shrinks h (ok a, s) d k = same-Shrinks d _ refl
  sent-Shrinks h (err e, s) d k = remove_server-Shrinks h s d k

  either-Shrinks :
      {A : Type 0} (b : Bool) (d : Dialer S) (q r : A × Dialer S)
      → Shrinks d q.1
      → Shrinks d r.1
      → Shrinks d (if b then q else r).1
  either-Shrinks true d q r h k = h
  either-Shrinks false d q r h k = k

  since-Shrinks :
      (m : ConnManager) (d after : Dialer S)
      → m.connections ≡ d.manager.connections
      → Shrinks (with_manager m d) after
      → Shrinks d after
  since-Shrinks m d after e s = record {
    before = λ id conn f. ap (find id) (sym e) ∙ s.before id conn f;
  }

  got-IsSettled :
      (m : ConnManager) (d : Dialer S)
      → m.connections ≡ d.manager.connections
      → m.closed ≡ d.manager.closed
      → IsSettled d
      → IsSettled (with_manager m d)
  got-IsSettled m d e f n = record { distinct = rw e n.distinct; closes_none = f ∙ n.closes_none }

  ask_got-Shrinks :
      (id : List ℕ) (g : Got × ConnManager) (d : Dialer S)
      → IsSettled (with_manager g.1 d)
      → Shrinks (with_manager g.1 d) (ask_got u y id g d).1
  ask_got-Shrinks id (nothing, m) d n = same-Shrinks _ _ refl
  ask_got-Shrinks id (out_of_range, m) d n = same-Shrinks _ _ refl
  ask_got-Shrinks id (got conn, m) d n =
      either-Shrinks (state_eq (d.servers conn.handle).base.state registered) _ _ _
        (record {
          before =
              (asked-Shrinks conn.handle id (add_request id d.requests).0
                (send_connect_command id (d.servers conn.handle))
                (record (with_manager m d) { requests = (add_request id d.requests).1 })
                (record { distinct = n.distinct; closes_none = n.closes_none })).before;
        })
        (same-Shrinks _ _ refl)

  pub request_connection-Shrinks :
      (id : List ℕ) (d : Dialer S) → IsSettled d → Shrinks d (request_connection u y id d).1
  unfolding request_connection
  request_connection-Shrinks id d n =
      let k = get_conn-keeps d.manager in
      since-Shrinks (get_conn d.manager).1 d _ k.0
        (ask_got-Shrinks id (get_conn d.manager) d (got-IsSettled _ d k.0 k.1 n))

  module _ {V : Type 0} (json : Json V) where
    send_got-Shrinks :
        (name : String) (v : V) (g : Got × ConnManager) (d : Dialer S)
        → IsSettled (with_manager g.1 d)
        → Shrinks (with_manager g.1 d) (send_got u y json name v g d).1
    send_got-Shrinks name v (nothing, m) d n = same-Shrinks _ _ refl
    send_got-Shrinks name v (out_of_range, m) d n = same-Shrinks _ _ refl
    send_got-Shrinks name v (got conn, m) d n =
        either-Shrinks (state_eq (d.servers conn.handle).base.state registered) _ _ _
          (sent-Shrinks conn.handle (send_custom_event json name v (d.servers conn.handle))
            (with_manager m d) n)
          (same-Shrinks _ _ refl)

    pub send_event-Shrinks :
        (name : String) (v : V) (d : Dialer S)
        → IsSettled d
        → Shrinks d (send_event u y json name v d).1
    unfolding send_event
    send_event-Shrinks name v d n =
        let k = get_conn-keeps d.manager in
        since-Shrinks (get_conn d.manager).1 d _ k.0
          (send_got-Shrinks name v (get_conn d.manager) d (got-IsSettled _ d k.0 k.1 n))
