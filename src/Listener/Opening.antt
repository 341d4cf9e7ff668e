-- ===== src/Listener/Opening.antt =====
-- What `Listen` and the pool's factory leave behind.
use revdial.Common.{◌≡◌, Bool, true, false, Option, none, some, Result, ok, err, ◌⊎◌}
use revdial.Pool.MuxConn.{MuxConn}
use revdial.Pool.State.{Pool}
use revdial.Proto.Conn.{Conn}
use revdial.Proto.Multiplex.ClientEnd as ClientEnd
use revdial.Proto.Multiplex.ClientEnd.{ClientV2}
use revdial.Proto.Multiplex.Outcomes.{IsRegistered}
use revdial.Listener.State.{Listener, ListenError, dial_failed, option_panicked}

module _ {S : Type 0} where
  -- The connection under a session of version 2 is closed.
  abbrev pub UnderIsClosed : Bool → Option S → Option Conn → Type 0
  UnderIsClosed true (some session) (some below) = below.closed ≡ true
  UnderIsClosed _ _ _ = Unit {0}

  -- The client's connection is closed, the one under its session included.
  abbrev pub IsGone : ClientV2 S → Type 0
  IsGone c = (c.base.conn.closed ≡ true) × UnderIsClosed c.is_v2 c.session c.below

  -- Either there was no connection, or the client's connection is closed.
  abbrev Released : ListenError → Option (ClientV2 S) → Type 0
  Released e none = (e ≡ dial_failed) ⊎ (e ≡ option_panicked)
  Released e (some c) = IsGone c

  abbrev Opens :
      {A : Type 0} → (A → ClientV2 S → Type 0) → Result ListenError A × Option (ClientV2 S) → Type 0
  Opens P (ok a, o) = (c : ClientV2 S) × (o ≡ some c) × IsRegistered c.base × P a c
  Opens P (err e, o) = Released e o

  -- The call succeeds with a registered client, of which the result is, or it fails and leaves no
  -- connection open.
  pub record OpensOrCloses {A : Type 0} (P : A → ClientV2 S → Type 0)
      (r : Result ListenError A × Option (ClientV2 S)) : Type 0 where
    pub outcome : Opens P r

  -- A listener over the client.
  abbrev pub IsListening : Listener S → ClientV2 S → Type 0
  IsListening l c = (l.client ≡ c) × (l.cancelled ≡ false)

  -- A connection of the pool over the client's session.
  abbrev pub IsPooled : MuxConn S → ClientV2 S → Type 0
  IsPooled conn c = (c.is_v2 ≡ true) × (c.session ≡ some conn.session)
