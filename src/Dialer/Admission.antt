-- ===== src/Dialer/Admission.antt =====
-- What a new connection can do to a dialer.
use revdial.Common.{
  ℕ, ◌≡◌, refl, true, Option, none, some, ok, err, Result, Ends, ◌⊎◌, inl, inr, ==_refl,
}
use revdial.Proto.Failure.{Error}
use revdial.Proto.Conn.{Conn}
use revdial.Proto.Uuid.{Uuid}
use revdial.Proto.Server.Types.{Server, new_server, new_server-state}
use revdial.Proto.Server.Login.{Granted}
use revdial.Proto.Server.Outcomes.{close-closed}
use revdial.Proto.Multiplex.Yamux.{Yamux}
use revdial.Proto.Multiplex.ServerEnd.{ServerV2, over, new_server_v2, process}
use revdial.Proto.Multiplex.Admission.{Admits, Closes, process-Admits}
use revdial.Dialer.Requests.{at}
use revdial.Dialer.State.{Dialer, handle_connection, processed, close_below}

-- The connection that the handler was given, under the session where there is one.
abbrev pub connection_under : Option Conn → Conn → Conn
connection_under none conn = conn
connection_under (some below) conn = below

module _ {S : Type 0} where
  -- The manager and the requests are as they were, and the connection is closed.
  abbrev pub TurnedAway : ℕ → Dialer S → Dialer S → Type 0
  TurnedAway h d after =
      (after.manager ≡ d.manager)
      × (after.requests ≡ d.requests)
      × ((connection_under (after.servers h).below (after.servers h).base.conn).closed ≡ true)

  closed_below :
      (o : Option Conn) (s : ServerV2 S)
      → s.below ≡ o
      → let shut = close_below o s in (connection_under shut.below shut.base.conn).closed ≡ true
  closed_below none s e = rw e (close-closed s.base.conn)
  closed_below (some below) s e = close-closed below

  at_same : (h : ℕ) (s : ServerV2 S) (f : ℕ → ServerV2 S) → at h s f h ≡ s
  at_same h s f = rw (==_refl h) refl

module _ {S R : Type 0} (u : Uuid) (y : Yamux S R) where
  turned_away :
      (h : ℕ) (s : ServerV2 S) (d : Dialer S)
      → TurnedAway h d (record d { servers = at h (close_below s.below s) d.servers })
  turned_away h s d =
      (refl, refl, rw (at_same h (close_below s.below s) d.servers) (closed_below s.below s refl))

  processed-Admits :
      (h : ℕ) (start : Server) (r : Result Error (Unit {0}) × ServerV2 S) (d : Dialer S)
      → Ends (Admits u y start) (Closes u y start) r
      → TurnedAway h d (processed u y h r d) ⊎ Granted start
  processed-Admits h start (ok a, s) d e = inr e.holds.1
  processed-Admits h start (err e, s) d k = inl (turned_away h s d)

  -- A new connection either is closed and leaves the manager and the requests of the dialer as they
  -- were, or its client offered no authentication to a dialer whose options ask for none, or offered to
  -- log in and sent a name and a password over it that the dialer's function accepts.
  pub handle_connection-Admits :
      (h : ℕ) (conn : Conn) (d : Dialer S)
      → TurnedAway h d (handle_connection u y h conn d) ⊎ Granted (new_server conn d.server_opts)
  unfolding handle_connection new_server_v2
  handle_connection-Admits h conn d =
      let start = new_server conn d.server_opts in
      processed-Admits h start (process u y (over start)) d
        (process-Admits u y start (new_server-state conn d.server_opts))
