-- ===== src/Tunnel/Accepting.antt =====
-- What an `Accept` shows of the one connection that it opens.
use revdial.Common.{ℕ, ◌≡◌, refl, ap, ◌∙◌, List, [], ◌∷◌, ◌++◌, ok, err, false, Result, arith}
use revdial.Proto.Failure.{Error}
use revdial.Proto.Conn.{Conn, close}
use revdial.Proto.Multiplex.Wires.{Wires}
use revdial.Dialer.Bound.{IsBound}
use revdial.Dialer.Bound as Bound
use revdial.Listener.State.{Listener}
use revdial.Listener.Accept.{Accepted, accepted, settled}

-- What the connections that a listener opened have sent, of the last one.
abbrev pub last_outbound : List Conn → List (List ℕ)
last_outbound [] = []
last_outbound (conn ∷ []) = conn.outbound
last_outbound (conn ∷ next ∷ conns) = last_outbound (next ∷ conns)

last_outbound-append :
    (conns : List Conn) (conn : Conn) → last_outbound (conns ++ conn ∷ []) ≡ conn.outbound
last_outbound-append [] conn = refl
last_outbound-append (c ∷ []) conn = refl
last_outbound-append (c ∷ d ∷ conns) conn = last_outbound-append (d ∷ conns) conn

close-outbound : (conn : Conn) → (close conn).1.outbound ≡ conn.outbound
unfolding close
close-outbound conn = ground arith

module _ {S : Type 0} where
  abbrev pub requests_of : Accepted × Listener S → Wires
  requests_of r = record { plain = last_outbound r.1.left; control = [] }

  -- `Accept` has returned an open connection, the only one that it opened.
  abbrev pub Accepts : List Conn → Accepted × Listener S → Type 0
  Accepts before r =
      (conn : Conn) × (r.0 ≡ accepted conn)
      × (conn.closed ≡ false)
      × (r.1.left ≡ before ++ conn ∷ [])

module _ {S : Type 0} (id : List ℕ) where
  pub settled-requests :
      (r : Result Error (Unit {0}) × Conn) (l : Listener S)
      → requests_of (settled r l) ≡ Bound.requests_of r
  settled-requests (ok a, conn) l =
      ap (λ q. record { plain = q; control = [] }) (last_outbound-append l.left conn)
  settled-requests (err e, conn) l =
      ap (λ q. record { plain = q; control = [] })
        (last_outbound-append l.left (close conn).1 ∙ close-outbound conn)

  pub settled-Accepts :
      (r : Result Error (Unit {0}) × Conn) (l : Listener S)
      → IsBound r
      → Accepts l.left (settled r l)
  settled-Accepts (ok a, conn) l h = (conn, refl, h.1, refl)
  settled-Accepts (err e, conn) l h = absurd cc
