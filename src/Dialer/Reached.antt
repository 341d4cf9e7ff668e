-- ===== src/Dialer/Reached.antt =====
-- All that happens to a dialer, in any order.
use Prim.Native.String.{String}
use revdial.Common.{
  ℕ, ◌≡◌, refl, subst, inl, inr, Bool-cases, ◌==◌, ==_iff, Bool, true, false, List, [],
  if◌then◌else◌,
}
use revdial.Connmng.Manager.{ConnManager, ServerConn, Got, nothing, out_of_range, got, get_conn}
use revdial.Connmng.Lookup.{Distinct}
use revdial.Connmng.Getting.{got-find, get_conn-keeps}
use revdial.Proto.Conn.{Conn}
use revdial.Proto.Server.Session.{close_server}
use revdial.Proto.Multiplex.ServerEnd.{close_v2}
use revdial.Dialer.Requests.{at}
use revdial.Dialer.Lifecycle.{closing}
use revdial.Proto.Uuid.{Uuid}
use revdial.Proto.Commands.{Json}
use revdial.Proto.Server.Types.{registered, state_eq}
use revdial.Proto.Multiplex.Yamux.{Yamux}
use revdial.Proto.Multiplex.ServerEnd.{
  ServerV2, new_server_v2, process, accept_stream, send_connect_command, send_custom_event,
}
use revdial.Proto.Multiplex.Frames.{
  send_connect_command-Frame, send_custom_event-Frame, accept_stream-base,
}
use revdial.Proto.Server.Frame.{Frame-refl}
use revdial.Dialer.Requests.{Requests, add_request}
use revdial.Dialer.State.{
  Dialer, DialerOption, new_dialer, with_manager, remove_server, request_connection, ask_got,
  send_event, send_got, handle_connection, handle_session,
}
use revdial.Dialer.Managed.{IsFor, Usable-ended, IsManaged, IsNew, remove_server-IsManaged}
use revdial.Dialer.Life.{
  new_dialer-IsManaged, with_requests-IsManaged, with_manager-IsManaged, processed-IsManaged,
  streaming-IsManaged, asked-IsManaged, sent-IsManaged,
}

module _ {S R V : Type 0} (u : Uuid) (y : Yamux S R) (json : Json V) where
  -- What a dialer goes through; the index says whether its context is live. A new connection has a
  -- number that no held connection has. `leaves` is the end of a connection's goroutine, `ends` that of
  -- the context, after which the goroutine beside a session of version 2 closes its server, and
  -- `requests` any change of the requests only.
  pub data Reached : Bool → Dialer S → Type 0 where
    begins :
        (servers : ℕ → ServerV2 S) (opts : List DialerOption)
        → Reached true (new_dialer servers opts)
    connects :
        {live : Bool} {d : Dialer S} (h : ℕ) (conn : Conn)
        → IsNew h d
        → Reached live d
        → Reached live (handle_connection u y h conn d)
    streams :
        {live : Bool} {d : Dialer S} (h n : ℕ)
        → Reached live d
        → Reached live (handle_session u y h n d)
    leaves :
        {live : Bool} {d : Dialer S} (h : ℕ) → Reached live d → Reached live (remove_server u y h d)
    dials :
        {live : Bool} {d : Dialer S} (id : List ℕ)
        → Reached live d
        → Reached live (request_connection u y id d).1
    sends :
        {live : Bool} {d : Dialer S} (name : String) (v : V)
        → Reached live d
        → Reached live (send_event u y json name v d).1
    requests :
        {live : Bool} {d : Dialer S} (r : Requests)
        → Reached live d
        → Reached live (record d { requests = r })
    ends : {live : Bool} {d : Dialer S} → Reached live d → Reached false d
    closes :
        {d : Dialer S} (h : ℕ)
        → Reached false d
        → Reached false (closing u y (d.servers h).is_v2 h d)

  pub connects-IsManaged :
      {live : Bool}
      → (h : ℕ) (conn : Conn) (d : Dialer S) → IsNew h d
      → IsManaged live d
      → IsManaged live (handle_connection u y h conn d)
  unfolding handle_connection
  connects-IsManaged h conn d n m =
      processed-IsManaged u y h (process u y (new_server_v2 conn d.server_opts [])) d n m

  pub streams-IsManaged :
      {live : Bool}
      → (h n : ℕ) (d : Dialer S) → IsManaged live d
      → IsManaged live (handle_session u y h n d)
  unfolding handle_session
  streams-IsManaged h n d m =
      streaming-IsManaged u y h n (accept_stream u y (d.servers h)) d
        (rw (accept_stream-base u y (d.servers h)) (Frame-refl (d.servers h).base)) m

  either-IsManaged :
      {live : Bool}
      → {A : Type 0} (b : Bool) (q r : A × Dialer S) → IsManaged live q.1
      → IsManaged live r.1
      → IsManaged live (if b then q else r).1
  either-IsManaged true q r h k = h
  either-IsManaged false q r h k = k

  ask_got-IsManaged :
      {live : Bool}
      → (id : List ℕ) (g : Got × ConnManager) (d : Dialer S) → IsManaged live (with_manager g.1 d)
      → IsManaged live (ask_got u y id g d).1
  ask_got-IsManaged id (nothing, m) d h = h
  ask_got-IsManaged id (out_of_range, m) d h = h
  ask_got-IsManaged id (got conn, m) d h =
      either-IsManaged (state_eq (d.servers conn.handle).base.state registered) _ _
        (asked-IsManaged u y conn.handle id (add_request id d.requests).0
          (send_connect_command id (d.servers conn.handle)) _
          (send_connect_command-Frame id (d.servers conn.handle)) (with_requests-IsManaged _ _ h))
        h

  send_got-IsManaged :
      {live : Bool}
      → (name : String) (v : V) (g : Got × ConnManager) (d : Dialer S)
      → IsManaged live (with_manager g.1 d)
      → IsManaged live (send_got u y json name v g d).1
  send_got-IsManaged name v (nothing, m) d h = h
  send_got-IsManaged name v (out_of_range, m) d h = h
  send_got-IsManaged name v (got conn, m) d h =
      either-IsManaged (state_eq (d.servers conn.handle).base.state registered) _ _
        (sent-IsManaged u y conn.handle (send_custom_event json name v (d.servers conn.handle)) _
          (send_custom_event-Frame json name v (d.servers conn.handle)) h)
        h

  got-IsManaged :
      {live : Bool}
      → (d : Dialer S) → IsManaged live d
      → IsManaged live (with_manager (get_conn d.manager).1 d)
  got-IsManaged d m = let k = get_conn-keeps d.manager in with_manager-IsManaged _ d k.0 k.1 m

  pub dials-IsManaged :
      {live : Bool}
      → (id : List ℕ) (d : Dialer S) → IsManaged live d
      → IsManaged live (request_connection u y id d).1
  unfolding request_connection
  dials-IsManaged id d m = ask_got-IsManaged id (get_conn d.manager) d (got-IsManaged d m)

  pub sends-IsManaged :
      {live : Bool}
      → (name : String) (v : V) (d : Dialer S) → IsManaged live d
      → IsManaged live (send_event u y json name v d).1
  unfolding send_event
  sends-IsManaged name v d m = send_got-IsManaged name v (get_conn d.manager) d (got-IsManaged d m)

  closed-IsFor :
      (h : ℕ) (f : ℕ → ServerV2 S) (id : List ℕ) (serv : ServerConn)
      → IsFor false f id serv
      → IsFor false (at h (close_v2 u y (f h)).1 f) id serv
  unfolding close_v2 close_server
  closed-IsFor h f id serv i = elim (Bool-cases (serv.handle == h)) [
    | inl e ↦ rw e (inr refl, subst (λ n. (f n).base.id ≡ id) ((==_iff serv.handle h).0 e) i.1)
    | inr e ↦ rw e i
  ]

  pub ended-IsManaged : (live : Bool) (d : Dialer S) → IsManaged live d → IsManaged false d
  ended-IsManaged live d m = record {
    distinct = m.distinct;
    closes_none = m.closes_none;
    holds = λ id serv e. let i = m.holds id serv e in (Usable-ended live _ i.0, i.1);
  }

  pub closing-IsManaged :
      (b : Bool) (h : ℕ) (d : Dialer S) → IsManaged false d → IsManaged false (closing u y b h d)
  closing-IsManaged false h d m = m
  closing-IsManaged true h d m = record {
    distinct = m.distinct;
    closes_none = m.closes_none;
    holds = λ id serv e. closed-IsFor h d.servers id serv (m.holds id serv e);
  }

  pub Reached-IsManaged : {live : Bool} {d : Dialer S} → Reached live d → IsManaged live d
  Reached-IsManaged (begins servers opts) = new_dialer-IsManaged servers opts
  Reached-IsManaged (connects h conn n r) = connects-IsManaged h conn _ n (Reached-IsManaged r)
  Reached-IsManaged (streams h n r) = streams-IsManaged h n _ (Reached-IsManaged r)
  Reached-IsManaged (leaves h r) = remove_server-IsManaged u y h _ (Reached-IsManaged r)
  Reached-IsManaged (dials id r) = dials-IsManaged id _ (Reached-IsManaged r)
  Reached-IsManaged (sends name v r) = sends-IsManaged name v _ (Reached-IsManaged r)
  Reached-IsManaged (requests q r) = with_requests-IsManaged q _ (Reached-IsManaged r)
  Reached-IsManaged (ends r) = ended-IsManaged _ _ (Reached-IsManaged r)
  Reached-IsManaged (closes h r) = closing-IsManaged _ h _ (Reached-IsManaged r)

  -- Whatever a dialer goes through, its manager holds no two connections of one id, and what GetConn gives
  -- is a server under the id that the manager has for it, in the registered state as long as the dialer's
  -- context is live, and registered or closed after that.
  pub Reached-registered :
      (live : Bool) (d : Dialer S) (conn : ServerConn)
      → Reached live d
      → (get_conn d.manager).0 ≡ got conn
      → Distinct d.manager.connections × IsFor live d.servers conn.id conn
  Reached-registered live d conn r e =
      let m = Reached-IsManaged r in
      (m.distinct, m.holds conn.id conn (got-find d.manager conn m.distinct e))
