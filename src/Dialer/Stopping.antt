-- ===== src/Dialer/Stopping.antt =====
-- What `Stop` leaves: it takes the goroutines of all connections down.
use revdial.Common.{ℕ, ◌≡◌, Bool, true, false, List, [], All}
use revdial.Proto.Uuid.{Uuid}
use revdial.Proto.Commands.{Json}
use revdial.Proto.Client.Types.{Ctx, unset}
use revdial.Proto.Multiplex.Yamux.{Yamux}
use revdial.Dialer.State.{Dialer, no_connection, request_connection}
use revdial.Dialer.Lifecycle.{Service, is_open}
use revdial.Dialer.Ending.{IsShut}
use revdial.Dialer.Served.{Served}

module _ {S R V : Type 0} (u : Uuid) (y : Yamux S R) (json : Json V) where
  -- A live network listener, or one that `Stop` closed before.
  abbrev pub has_started : Ctx → Bool
  has_started unset = false
  has_started _ = true

  abbrev pub HasStopped : List ℕ → Service S → Service S → Type 0
  HasStopped id s after =
      (after.running ≡ [])
      × (after.dialer.manager.connections ≡ [])
      × (is_open after.listener ≡ false)
      × All (λ conn. IsShut (after.dialer.servers conn.handle)) s.dialer.manager.connections
      × ((request_connection u y id after.dialer).0 ≡ no_connection)
