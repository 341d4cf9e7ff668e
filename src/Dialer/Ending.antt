-- ===== src/Dialer/Ending.antt =====
-- The ends of the goroutines of registered connections take every connection out of the manager.
use revdial.Common.{
  ℕ, ◌≡◌, refl, ap, sym, ◌∙◌, Bool, true, false, List, [], ◌∷◌, Option, none, some, ◌==◌, ◌||◌,
  bytes_eq, bytes_eq_refl, Bool-cases, inl, inr, if◌then◌else◌, ==_refl, ==_iff,
}
use revdial.Connmng.Manager.{ServerConn, remove_connection}
use revdial.Connmng.Lookup.{find, Distinct, remove_connection_lem}
use revdial.Proto.Conn.{Conn}
use revdial.Proto.Multiplex.ServerEnd as ServerEnd
use revdial.Proto.Uuid.{Uuid}
use revdial.Proto.Server.Types.{disconnected}
use revdial.Proto.Server.Session.{close_server}
use revdial.Proto.Server.Outcomes.{close-closed}
use revdial.Proto.Multiplex.Yamux.{Yamux}
use revdial.Proto.Multiplex.ServerEnd.{ServerV2, close_v2, accept_stream}
use revdial.Dialer.Requests.{at}
use revdial.Dialer.State.{Dialer, close_all, remove_server}
use revdial.Dialer.Managed.{IsManaged}

abbrev pub has : ℕ → List ℕ → Bool
has k [] = false
has k (h ∷ hs) = (h == k) || has k hs

-- The connection under a session is closed.
abbrev pub UnderIsClosed : {S : Type 0} → Option S → Option Conn → Type 0
UnderIsClosed (some session) (some below) = below.closed ≡ true
UnderIsClosed _ _ = Unit {0}

-- A server that was closed, and the connection under its session with it.
abbrev pub IsShut : {S : Type 0} → ServerV2 S → Type 0
IsShut s =
    (s.base.state ≡ disconnected) × (s.base.conn.closed ≡ true) × UnderIsClosed s.session s.below

-- What is left of `IsManaged` while servers are closed.
pub record IsNamed {S : Type 0} (d : Dialer S) : Type 0 where
  pub distinct : Distinct d.manager.connections
  pub closes_none : d.manager.closed ≡ []
  pub named :
      (id : List ℕ) (conn : ServerConn)
      → find id d.manager.connections ≡ some conn
      → (d.servers conn.handle).base.id ≡ id

pub IsManaged-IsNamed : {S : Type 0} {live : Bool} (d : Dialer S) → IsManaged live d → IsNamed d
IsManaged-IsNamed d m = record {
  distinct = m.distinct;
  closes_none = m.closes_none;
  named = λ id conn e. (m.holds id conn e).1;
}

module _ {S R : Type 0} (u : Uuid) (y : Yamux S R) where
  pub close_v2-IsShut : (s : ServerV2 S) → IsShut (close_v2 u y s).1
  unfolding close_v2 close_server
  close_v2-IsShut s = (refl, close-closed s.base.conn, ended s.session s.below)
    where
      ended :
          (o : Option S) (below : Option Conn)
          → UnderIsClosed (ServerEnd.closed_session u y o) (ServerEnd.closed_under u y o below)
      ended (some session) (some below) = y.close_under-closed session below
      ended (some session) none = tt
      ended none below = tt

  close_v2-id : (s : ServerV2 S) → (close_v2 u y s).1.base.id ≡ s.base.id
  unfolding close_v2 close_server
  close_v2-id s = refl

  -- Closing one server, for every server.
  at-id : (h k : ℕ) (f : ℕ → ServerV2 S) → (at h (close_v2 u y (f h)).1 f k).base.id ≡ (f k).base.id
  at-id h k f = elim (Bool-cases (k == h)) [
    | inl e ↦ rw e (close_v2-id (f h) ∙ ap (λ n. (f n).base.id) (sym ((==_iff k h).0 e)))
    | inr e ↦ rw e refl
  ]

  at-IsShut :
      (h k : ℕ) (f : ℕ → ServerV2 S) → IsShut (f k) → IsShut (at h (close_v2 u y (f h)).1 f k)
  at-IsShut h k f s = elim (Bool-cases (k == h)) [
    | inl e ↦ rw e (close_v2-IsShut (f h))
    | inr e ↦ rw e s
  ]

  close_all-id :
      (hs : List ℕ) (k : ℕ) (f : ℕ → ServerV2 S) → (close_all u y hs f k).base.id ≡ (f k).base.id
  close_all-id [] k f = refl
  close_all-id (h ∷ hs) k f = close_all-id hs k (at h (close_v2 u y (f h)).1 f) ∙ at-id h k f

  close_all-IsShut :
      (hs : List ℕ) (k : ℕ) (f : ℕ → ServerV2 S) → IsShut (f k) → IsShut (close_all u y hs f k)
  close_all-IsShut [] k f s = s
  close_all-IsShut (h ∷ hs) k f s =
      close_all-IsShut hs k (at h (close_v2 u y (f h)).1 f) (at-IsShut h k f s)

  -- The end of one goroutine: what it does to the manager and to the servers.
  pub record Removes (gone : List ℕ) (d after : Dialer S) : Type 0 where
    pub left :
        (id : List ℕ)
        → find id after.manager.connections
          ≡ (if bytes_eq gone id then none else find id d.manager.connections)
    pub same_id : (k : ℕ) → (after.servers k).base.id ≡ (d.servers k).base.id
    pub stays_shut : (k : ℕ) → IsShut (d.servers k) → IsShut (after.servers k)
    pub shuts :
        (conn : ServerConn)
        → find gone d.manager.connections ≡ some conn
        → IsShut (after.servers conn.handle)
    pub distinct : Distinct after.manager.connections
    pub closes_none : after.manager.closed ≡ []

  pub remove_server-Removes :
      (h : ℕ) (d : Dialer S)
      → Distinct d.manager.connections
      → d.manager.closed ≡ []
      → Removes (d.servers h).base.id d (remove_server u y h d)
  unfolding remove_server
  remove_server-Removes h d distinct none_closed =
      let gone = (d.servers h).base.id in
      let l = λ (id : List ℕ). remove_connection_lem gone d.manager id distinct in
      record {
        left = λ id. (l id).1;
        same_id = λ k. close_all-id (remove_connection gone d.manager).closed k d.servers;
        stays_shut =
            λ k s. close_all-IsShut (remove_connection gone d.manager).closed k d.servers s;
        shuts = λ conn e.
            rw ((l gone).2, none_closed, e, ==_refl conn.handle)
              (close_v2-IsShut (d.servers conn.handle));
        distinct = (l gone).0;
        closes_none = refl;
      }

  -- The same where the dialer has changed in between, but not its manager.
  pub removed-Removes :
      (h : ℕ) (d now : Dialer S)
      → now.manager ≡ d.manager
      → ((k : ℕ) → (now.servers k).base.id ≡ (d.servers k).base.id)
      → ((k : ℕ) → IsShut (d.servers k) → IsShut (now.servers k))
      → IsNamed d
      → Removes (d.servers h).base.id d (remove_server u y h now)
  removed-Removes h d now manager same shut n =
      let own = (d.servers h).base.id in
      let r =
        remove_server-Removes h now (rw manager n.distinct)
          (ap (λ m. m.closed) manager ∙ n.closes_none) in
      record {
        left = λ id.
            r.left id
            ∙ ap (λ g. if bytes_eq g id then none else find id now.manager.connections) (same h)
            ∙ ap (λ m. if bytes_eq own id then none else find id m.connections) manager;
        same_id = λ k. r.same_id k ∙ same k;
        stays_shut = λ k s. r.stays_shut k (shut k s);
        shuts = λ conn e. r.shuts conn (
            ap (λ g. find g now.manager.connections) (same h)
            ∙ ap (λ m. find own m.connections) manager
            ∙ e);
        distinct = r.distinct;
        closes_none = r.closes_none;
      }

  -- What is held after an end was held before, under another id.
  pub found_left :
      (b : Bool) (o : Option ServerConn) (conn : ServerConn)
      → (if b then none else o) ≡ some conn
      → (b ≡ false) × (o ≡ some conn)
  found_left true o conn e = absurd cc
  found_left false o conn e = (refl, e)

  pub Removes-IsNamed :
      (gone : List ℕ) (d after : Dialer S) → IsNamed d → Removes gone d after → IsNamed after
  Removes-IsNamed gone d after n r = record {
    distinct = r.distinct;
    closes_none = r.closes_none;
    named = λ id conn e.
        let f =
          found_left (bytes_eq gone id) (find id d.manager.connections) conn
            (sym (r.left id) ∙ e) in
        r.same_id conn.handle ∙ n.named id conn f.1;
  }

  -- A connection under another id has another server.
  pub other_handle :
      (h : ℕ) (id : List ℕ) (conn : ServerConn) (d : Dialer S)
      → IsNamed d
      → find id d.manager.connections ≡ some conn
      → bytes_eq (d.servers h).base.id id ≡ false
      → (h == conn.handle) ≡ false
  other_handle h id conn d n e other = elim (Bool-cases (h == conn.handle)) [
    | inl same ↦
        let k : (d.servers h).base.id ≡ id =
          ap (λ c. (d.servers c).base.id) ((==_iff h conn.handle).0 same) ∙ n.named id conn e in
        let apart : true ≡ false =
          sym (bytes_eq_refl id) ∙ ap (λ i. bytes_eq i id) (sym k) ∙ other in
        absurd cc
    | inr apart ↦ apart
  ]

  pub other_server :
      (h : ℕ) (hs : List ℕ) (id : List ℕ) (conn : ServerConn) (d : Dialer S)
      → IsNamed d
      → find id d.manager.connections ≡ some conn
      → bytes_eq (d.servers h).base.id id ≡ false
      → has conn.handle (h ∷ hs) ≡ true
      → has conn.handle hs ≡ true
  other_server h hs id conn d n e other m =
      sym (ap (λ b. b || has conn.handle hs) (other_handle h id conn d n e other)) ∙ m
