-- ===== src/Dialer/Managed.antt =====
-- The connections that the dialer's manager holds, over all that a dialer does.
use mathlib.Core.Option.{some-injective}
use revdial.Common.{
  ℕ, ◌≡◌, refl, ap, sym, subst, ◌∙◌, Bool, true, false, List, [], ◌++◌, Option, none, some,
  bytes_eq, bytes_eq_sound, bytes_eq_refl, Bool-cases, inl, inr, ◌⊎◌, arith, if◌then◌else◌, ◌==◌,
  ==_iff,
}
use revdial.Connmng.Manager.{ServerConn}
use revdial.Connmng.Lookup.{find, Distinct, held, add_connection_lem, remove_connection_lem}
use revdial.Proto.Uuid.{Uuid}
use revdial.Proto.Server.Types.{State, registered, disconnected}
use revdial.Proto.Server.Frame.{Frame}
use revdial.Proto.Multiplex.Yamux.{Yamux}
use revdial.Proto.Multiplex.ServerEnd.{ServerV2}
use revdial.Dialer.Requests.{at}
use revdial.Dialer.State.{Dialer, with_server, close_all, remove_server, add_server}

-- What a server may be that the manager holds: while the dialer's context is live it is registered, and
-- then it may be closed too.
abbrev pub Usable : Bool → State → Type 0
Usable true state = state ≡ registered
Usable false state = (state ≡ registered) ⊎ (state ≡ disconnected)

-- The connection under an id is such a server's of that id.
abbrev pub IsFor : {S : Type 0} → Bool → (ℕ → ServerV2 S) → List ℕ → ServerConn → Type 0
IsFor live servers id serv =
    Usable live (servers serv.handle).base.state × ((servers serv.handle).base.id ≡ id)

pub record IsManaged {S : Type 0} (live : Bool) (d : Dialer S) : Type 0 where
  pub distinct : Distinct d.manager.connections
  pub closes_none : d.manager.closed ≡ []
  pub holds :
      (id : List ℕ) (serv : ServerConn)
      → find id d.manager.connections ≡ some serv
      → IsFor live d.servers id serv

Usable-registered : (live : Bool) (state : State) → state ≡ registered → Usable live state
Usable-registered true state e = e
Usable-registered false state e = inl e

pub Usable-ended : (live : Bool) (state : State) → Usable live state → Usable false state
Usable-ended true state e = inl e
Usable-ended false state e = e

pub flip : (a b : ℕ) → (a == b) ≡ false → (b == a) ≡ false
flip a b h = ground arith

module _ {S : Type 0} where
  -- The number is not one of a connection that is held.
  abbrev pub IsNew : ℕ → Dialer S → Type 0
  IsNew h d =
      (id : List ℕ) (serv : ServerConn)
      → find id d.manager.connections ≡ some serv
      → (serv.handle == h) ≡ false

  at_other : (k h : ℕ) (s : ServerV2 S) (f : ℕ → ServerV2 S) → (k == h) ≡ false → at h s f k ≡ f k
  at_other k h s f e = rw e

  -- A server's state and id count, not its connection.
  at-IsFor :
      (live : Bool) (h : ℕ) (s : ServerV2 S) (f : ℕ → ServerV2 S) (id : List ℕ) (serv : ServerConn)
      → Frame (f h).base s.base
      → IsFor live f id serv
      → IsFor live (at h s f) id serv
  at-IsFor live h s f id serv k i = elim (Bool-cases (serv.handle == h)) [
    | inl e ↦
        let same = (==_iff serv.handle h).0 e in
        rw e (
          subst (Usable live) (sym k.same_state)
              (subst (λ n. Usable live (f n).base.state) same i.0),
          k.same_id ∙ subst (λ n. (f n).base.id ≡ id) same i.1,
        )
    | inr e ↦ rw e i
  ]

  -- Servers of two ids are two.
  two_servers :
      (live : Bool) (f : ℕ → ServerV2 S) (a b : List ℕ) (serv old : ServerConn)
      → IsFor live f a serv
      → IsFor live f b old
      → bytes_eq b a ≡ false
      → (serv.handle == old.handle) ≡ false
  two_servers live f a b serv old i j e = elim (Bool-cases (serv.handle == old.handle)) [
    | inl same ↦
        let k : a ≡ b =
          sym i.1 ∙ ap (λ n. (f n).base.id) ((==_iff serv.handle old.handle).0 same) ∙ j.1 in
        let apart : true ≡ false = sym (bytes_eq_refl b) ∙ sym (ap (bytes_eq b) k) ∙ e in cc
    | inr other ↦ other
  ]

  pub with_server-IsManaged :
      {live : Bool}
      → (h : ℕ) (s : ServerV2 S) (d : Dialer S) → Frame (d.servers h).base s.base
      → IsManaged live d
      → IsManaged live (with_server h s d)
  with_server-IsManaged {live = live} h s d k m = record {
    distinct = m.distinct;
    closes_none = m.closes_none;
    holds = λ id serv e. at-IsFor live h s d.servers id serv k (m.holds id serv e);
  }

  pub new_server-IsManaged :
      {live : Bool}
      → (h : ℕ) (s : ServerV2 S) (d : Dialer S) → IsNew h d
      → IsManaged live d
      → IsManaged live (with_server h s d)
  new_server-IsManaged h s d n m = record {
    distinct = m.distinct;
    closes_none = m.closes_none;
    holds = λ id serv e. rw (at_other serv.handle h s d.servers (n id serv e)) (m.holds id serv e);
  }

module _ {S R : Type 0} (u : Uuid) (y : Yamux S R) where
  -- What a call of the manager closes leaves the server under another number.
  closed_other :
      (o : Option ServerConn) (f : ℕ → ServerV2 S) (k : ℕ)
      → ((old : ServerConn) → o ≡ some old → (k == old.handle) ≡ false)
      → close_all u y (held o) f k ≡ f k
  closed_other none f k h = refl
  closed_other (some old) f k h = rw (h old refl)

  -- A server that is not the one under a taken id is left.
  holds_after :
      (live : Bool) (closed : List ℕ) (o : Option ServerConn) (f : ℕ → ServerV2 S) (id : List ℕ)
      (serv : ServerConn)
      → closed ≡ held o
      → ((old : ServerConn) → o ≡ some old → (serv.handle == old.handle) ≡ false)
      → IsFor live f id serv
      → IsFor live (close_all u y closed f) id serv
  holds_after live closed o f id serv e k i = rw (e, closed_other o f serv.handle k) i

  -- What stands under an id after another was taken away stood there before.
  found_other :
      (b : Bool) (o : Option ServerConn) (serv : ServerConn)
      → (if b then none else o) ≡ some serv
      → (b ≡ false) × (o ≡ some serv)
  found_other true o serv e = absurd cc
  found_other false o serv e = (refl, e)

  pub remove_server-IsManaged :
      {live : Bool}
      → (h : ℕ) (d : Dialer S) → IsManaged live d
      → IsManaged live (remove_server u y h d)
  unfolding remove_server
  remove_server-IsManaged {live = live} h d m =
      let gone = (d.servers h).base.id in
      let l = λ (id : List ℕ). remove_connection_lem gone d.manager id m.distinct in
      let closes =
        (l gone).2 ∙ ap (λ xs. xs ++ held (find gone d.manager.connections)) m.closes_none in
      record {
        distinct = (l gone).0;
        closes_none = refl;
        holds = λ id serv e.
            let f =
              found_other (bytes_eq gone id) (find id d.manager.connections) serv
                (sym (l id).1 ∙ e) in
            let i = m.holds id serv f.1 in
            holds_after live _ (find gone d.manager.connections) d.servers id serv closes
              (λ old o. two_servers live d.servers id gone serv old i (m.holds gone old o) f.0) i;
      }

  -- What stands under an id after a connection was put there is that, or was there before.
  found_added :
      (b : Bool) (new : ServerConn) (o : Option ServerConn) (serv : ServerConn)
      → (if b then some new else o) ≡ some serv
      → ((b ≡ true) × (serv ≡ new)) ⊎ ((b ≡ false) × (o ≡ some serv))
  found_added true new o serv e = inl (refl, sym (some-injective new serv e))
  found_added false new o serv e = inr (refl, e)

  pub add_server-IsManaged :
      {live : Bool}
      → (h : ℕ) (d : Dialer S) → (d.servers h).base.state ≡ registered
      → IsNew h d
      → IsManaged live d
      → IsManaged live (add_server u y h d)
  unfolding add_server
  add_server-IsManaged {live = live} h d g n m =
      let own = (d.servers h).base.id in
      let serv : ServerConn = record { id = own; handle = h; close_fails = false } in
      let l = λ (id : List ℕ). add_connection_lem serv d.manager id m.distinct in
      let closes =
        (l own).2 ∙ ap (λ xs. xs ++ held (find own d.manager.connections)) m.closes_none in
      record {
        distinct = (l own).0;
        closes_none = refl;
        holds = λ id found e.
            elim (found_added (bytes_eq own id) serv (find id d.manager.connections) found
              (sym (l id).1 ∙ e)) [
                | inl (b, same) ↦
                    holds_after live _ (find own d.manager.connections) d.servers id found closes
                      (λ old o. rw same (flip old.handle h (n own old o)))
                      (rw same (Usable-registered live _ g, bytes_eq_sound own id b))
                | inr (b, before) ↦
                    let i = m.holds id found before in
                    holds_after live _ (find own d.manager.connections) d.servers id found closes
                      (λ old o. two_servers live d.servers id own found old i (m.holds own old o) b)
                      i
              ];
      }
