-- ===== src/Dialer/Stale.antt =====
-- A connection over which the dialer cannot ask for another.
use revdial.Common.{
  Bool, Bool-cases, inl, inr, ℕ, ◌≡◌, refl, ap, sym, subst, ◌∙◌, List, [], ◌∷◌, none, some, ok, err,
  Result, bytes_eq_refl, arith, ==_refl,
}
use revdial.Connmng.Manager.{ConnManager, ServerConn, Got, got, get_conn, nothing, out_of_range}
use revdial.Connmng.Lookup.{find, Distinct, remove_connection_lem}
use revdial.Proto.Failure.{Error}
use revdial.Proto.Uuid.{Uuid}
use revdial.Proto.Commands.{Json}
use revdial.Proto.Server.Types.{registered, state_eq}
use revdial.Proto.Multiplex.Yamux.{Yamux}
use revdial.Proto.Multiplex.ServerEnd.{ServerV2, send_connect_command, close_v2}
use revdial.Proto.Multiplex.Frames.{send_connect_command-Frame}
use revdial.Dialer.Requests.{assign, take_out, add_request, remove_request}
use revdial.Dialer.State.{
  Dialer, no_connection, send_failed, remove_server, request_connection, ask_got, ask, asked_by,
  with_manager,
}
use revdial.Dialer.Managed.{IsManaged}
use revdial.Connmng.Getting.{get_conn-keeps}
use revdial.Dialer.Reached.{Reached, Reached-registered}

-- A new id goes into the map and out again.
take_out-assign :
    (id : List ℕ) (n : ℕ) (t : List (List ℕ × ℕ))
    → (take_out id t).0 ≡ none
    → (take_out id (assign id n t)).1 ≡ t
unfolding take_out assign
take_out-assign id n [] e = rw (bytes_eq_refl id)
take_out-assign id n ((i, m) ∷ t) e = ground (arith, take_out-assign id n t)

module _ {S R : Type 0} (u : Uuid) (y : Yamux S R) where
  -- The connection has been taken out of the manager, and the request out of the table.
  abbrev pub Forgets : ServerConn → Dialer S → Dialer S → Type 0
  Forgets conn d after =
      (find conn.id after.manager.connections ≡ none) × (after.requests.table ≡ d.requests.table)

  asked-Forgets :
      (id : List ℕ) (conn : ServerConn) (r : Result Error (Unit {0}) × ServerV2 S) (d : Dialer S)
      (e : Error)
      → Distinct d.manager.connections
      → (take_out id d.requests.table).0 ≡ none
      → r.1.base.id ≡ conn.id
      → (let a = add_request id d.requests in
          (asked_by u y conn.handle id a.0 r (record d { requests = a.1 })).0 ≡ send_failed e)
      → (let a = add_request id d.requests in
          Forgets conn d (asked_by u y conn.handle id a.0 r (record d { requests = a.1 })).1)
  unfolding add_request remove_request remove_server
  asked-Forgets id conn (ok a, s) d e distinct new same f = absurd cc
  asked-Forgets id conn (err e', s) d e distinct new same f = (
    rw (==_refl conn.handle, same)
        ((remove_connection_lem conn.id d.manager conn.id distinct).1 ∙ rw (bytes_eq_refl conn.id)),
    take_out-assign id d.requests.made d.requests.table new,
  )

  asks-Forgets :
      (id : List ℕ) (conn : ServerConn) (m : ConnManager) (d : Dialer S) (e : Error)
      → m.connections ≡ d.manager.connections
      → Distinct d.manager.connections
      → (d.servers conn.handle).base.id ≡ conn.id
      → (take_out id d.requests.table).0 ≡ none
      → (ask u y conn.handle id (with_manager m d)).0 ≡ send_failed e
      → Forgets conn d (ask u y conn.handle id (with_manager m d)).1
  asks-Forgets id conn m d e k distinct i new f =
      asked-Forgets id conn (send_connect_command id (d.servers conn.handle)) (with_manager m d) e
        (rw k distinct) new ((send_connect_command-Frame id (d.servers conn.handle)).same_id ∙ i) f

  ask-Forgets :
      (id : List ℕ) (conn : ServerConn) (m : ConnManager) (d : Dialer S) (e : Error)
      → m.connections ≡ d.manager.connections
      → Distinct d.manager.connections
      → (d.servers conn.handle).base.id ≡ conn.id
      → (take_out id d.requests.table).0 ≡ none
      → (ask_got u y id (got conn, m) d).0 ≡ send_failed e
      → Forgets conn d (ask_got u y id (got conn, m) d).1
  ask-Forgets id conn m d e k distinct i new f =
      elim (Bool-cases (state_eq (d.servers conn.handle).base.state registered)) [
        | inl ready ↦
            let asks : ask_got u y id (got conn, m) d ≡ ask u y conn.handle id (with_manager m d) =
              rw ready refl in
            rw asks (asks-Forgets id conn m d e k distinct i new (sym (ap (λ r. r.0) asks) ∙ f))
        | inr busy ↦
            let gives_none : (ask_got u y id (got conn, m) d).0 ≡ no_connection = rw busy refl in
            absurd cc
      ]

  got-Forgets :
      (id : List ℕ) (g : Got × ConnManager) (conn : ServerConn) (d : Dialer S) (e : Error)
      → g.0 ≡ got conn
      → g.1.connections ≡ d.manager.connections
      → Distinct d.manager.connections
      → (d.servers conn.handle).base.id ≡ conn.id
      → (take_out id d.requests.table).0 ≡ none
      → (ask_got u y id g d).0 ≡ send_failed e
      → Forgets conn d (ask_got u y id g d).1
  got-Forgets id (nothing, m) conn d e h k distinct i new f = absurd cc
  got-Forgets id (out_of_range, m) conn d e h k distinct i new f = absurd cc
  got-Forgets id (got found, m) conn d e h k distinct i new f =
      let same : found ≡ conn = cc in
      subst (λ c. Forgets c d (ask_got u y id (got found, m) d).1) same
        (ask-Forgets id found m d e k distinct
          (subst (λ c. (d.servers c.handle).base.id ≡ c.id) (sym same) i) new f)

  -- Where a dialer's command to ask for a connection under a new id fails, the connection that GetConn
  -- gave for it is no longer in the manager, and the table of requests is as it was.
  pub request_connection-Forgets :
      {V : Type 0} (json : Json V) (live : Bool) (id : List ℕ) (conn : ServerConn) (d : Dialer S)
      (e : Error)
      → Reached u y json live d
      → (remove_request id d.requests).0 ≡ none
      → (get_conn d.manager).0 ≡ got conn
      → (request_connection u y id d).0 ≡ send_failed e
      → Forgets conn d (request_connection u y id d).1
  unfolding request_connection remove_request
  request_connection-Forgets json live id conn d e r new g f =
      let known = Reached-registered u y json live d conn r g in
      got-Forgets id (get_conn d.manager) conn d e g (get_conn-keeps d.manager).0 known.0 known.1.1
        new f

  -- When the goroutine of one connection ends, it takes whatever the manager holds under that
  -- connection's id: a later connection of the same id, though it serves, is removed and closed.
  pub remove_server-successor :
      (live : Bool) (old : ℕ) (conn : ServerConn) (d : Dialer S)
      → IsManaged live d
      → find (d.servers old).base.id d.manager.connections ≡ some conn
      → (find (d.servers old).base.id (remove_server u y old d).manager.connections ≡ none)
        × ((remove_server u y old d).servers conn.handle ≡ (close_v2 u y (d.servers conn.handle)).1)
  unfolding remove_server
  remove_server-successor live old conn d m e =
      let gone = (d.servers old).base.id in
      let l = remove_connection_lem gone d.manager gone m.distinct in
      (l.1 ∙ rw (bytes_eq_refl gone), rw (l.2, m.closes_none, e, ==_refl conn.handle) refl)
