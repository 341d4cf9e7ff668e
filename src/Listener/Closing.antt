-- ===== src/Listener/Closing.antt =====
-- A listener whose context has ended.
use revdial.Common.{ℕ, ◌≡◌, refl, Bool, true, false, List, [], ◌∷◌, Option, none, map, All}
use revdial.Proto.Conn.{Conn, close}
use revdial.Proto.Server.Outcomes.{close-closed}
use revdial.Proto.Commands.{Command, connect_command, command_type}
use revdial.Proto.Client.Session.{cancel}
use revdial.Listener.State.{World, Listener, context_ends}
use revdial.Listener.Accept.{
  listener_closed, dial_failed, accept, accept_loop, accept_connection, accept_v1_connection,
}

-- A live listener whose next command asks for a connection under the id.
pub record IsCalled {S : Type 0} (id : List ℕ) (rest : List Command) (l : Listener S) : Type 0 where
  pub live : l.cancelled ≡ false
  pub next_command : l.client.base.cmds ≡ connect_command id ∷ rest

abbrev pub IsClosed : Conn → Type 0
IsClosed conn = conn.closed ≡ true

All-IsClosed : (conns : List Conn) → All IsClosed (map (λ conn. (close conn).1) conns)
All-IsClosed [] = tt
All-IsClosed (conn ∷ conns) = (close-closed conn, All-IsClosed conns)

module _ {S R : Type 0} (w : World S R) (parse_id : List ℕ → Option (List ℕ))
    (dialled : Option Conn) where
  cancelled_listener :
      (cmds : List Command) (l : Listener S)
      → l.cancelled ≡ true
      → (accept_loop w parse_id dialled (λ n. true) cmds l).0 ≡ listener_closed
  unfolding accept_loop
  cancelled_listener [] l e = simp e refl
  cancelled_listener (cmd ∷ cmds) l e = simp e refl

module _ {S R : Type 0} (w : World S R) (parse_id : List ℕ → Option (List ℕ)) (pick : ℕ → Bool)
    (id : List ℕ) (rest : List Command) (l : Listener S) (c : IsCalled id rest l)
    (version : l.client.is_v2 ≡ false) where
  abbrev afterwards : Listener S
  afterwards = record l {
    client = record l.client { base = record l.client.base { cmds = rest } };
    cancelled = true;
  }

  undialled : accept w parse_id none pick l ≡ (dial_failed, afterwards)
  unfolding accept accept_loop accept_connection accept_v1_connection command_type
  undialled = simp (c.live, c.next_command, version) refl

  -- Where a listener in version 1 is asked for a connection and cannot dial, Accept fails and ends the
  -- listener's context: every connection that it returned before is closed, and its control connection,
  -- and the next Accept may find the listener closed.
  pub accept-undialled :
      let r = accept w parse_id none pick l in
      let after = context_ends w r.1 in
      (r.0 ≡ dial_failed)
      × (r.1.left ≡ l.left)
      × All IsClosed after.left
      × IsClosed after.client.base.conn
      × ((accept w parse_id none (λ n. true) after).0 ≡ listener_closed)
  unfolding context_ends cancel accept
  accept-undialled = rw undialled (
    refl,
    refl,
    rw version (All-IsClosed l.left),
    close-closed l.client.base.conn,
    cancelled_listener w parse_id none rest _ refl,
  )
