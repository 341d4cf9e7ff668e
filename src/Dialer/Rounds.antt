-- ===== src/Dialer/Rounds.antt =====
-- The last round of a connection's goroutine, after its session was closed.
use revdial.Common.{
  ℕ, ◌≡◌, refl, ap, sym, subst, ◌∙◌, Bool, true, false, List, Option, none, some, ◌==◌, Bool-cases,
  inl, inr, Result, ok, err, ==_refl, ==_iff,
}
use revdial.Proto.Conn.{Conn}
use revdial.Proto.Multiplex.ServerEnd as ServerEnd
use revdial.Proto.Failure.{Error}
use revdial.Proto.Uuid.{Uuid}
use revdial.Proto.Server.Session.{close_server}
use revdial.Proto.Multiplex.Yamux.{Yamux}
use revdial.Proto.Multiplex.ServerEnd.{ServerV2, close_v2, accept_stream}
use revdial.Dialer.State.{Dialer, with_server, streaming, handle_session}
use revdial.Dialer.Lifecycle.{closing, end_by, end_server, is_error, without}
use revdial.Dialer.Ending.{
  IsShut, IsNamed, UnderIsClosed, Removes, removed-Removes, close_v2-IsShut,
}

module _ {S R : Type 0} (u : Uuid) (y : Yamux S R) where
  -- A closed session gives no stream, and its server stays closed.
  abbrev IsOver : ServerV2 S → Result Error Conn × ServerV2 S → Type 0
  IsOver s r = (is_error u y r.0 ≡ true) × IsShut r.1 × (r.1.base.id ≡ s.base.id)

  under_any :
      (o : Option S) (session later : S) (below : Option Conn)
      → o ≡ some session
      → UnderIsClosed o below
      → UnderIsClosed (some later) below
  under_any none session later below e h = absurd cc
  under_any (some x) session later none e h = tt
  under_any (some x) session later (some conn) e h = h

  none_taken :
      (session : S) (r : Option Conn × S) (s : ServerV2 S)
      → r.0 ≡ none
      → s.session ≡ some session
      → IsShut s
      → IsOver s (ServerEnd.stream_of u y r s)
  none_taken session (none, later) s e same h =
      (refl, (h.0, h.1, under_any s.session session later s.below same h.2), refl)
  none_taken session (some stream, later) s e same h = absurd cc

  accept_closed :
      (o : Option S) (s : ServerV2 S)
      → s.session ≡ ServerEnd.closed_session u y o
      → IsShut s
      → IsOver s (ServerEnd.accept_from u y true (ServerEnd.closed_session u y o) s)
  accept_closed none s e h = (refl, h, refl)
  accept_closed (some session) s e h =
      none_taken (y.close_session session) (y.accept_stream (y.close_session session)) s
        (y.accept_stream-close session) e h

  closed-IsOver :
      (s : ServerV2 S) → s.is_v2 ≡ true → IsOver s (accept_stream u y (close_v2 u y s).1)
  unfolding accept_stream close_v2 close_server
  closed-IsOver s e =
      let shut = (close_v2 u y s).1 in
      subst (λ b. IsOver s (ServerEnd.accept_from u y b shut.session shut)) (sym e)
        (accept_closed s.session shut refl (close_v2-IsShut u y s))

  ended-Removes :
      (h : ℕ) (r : Result Error Conn × ServerV2 S) (d : Dialer S)
      → IsOver (d.servers h) r
      → IsNamed d
      → Removes u y (d.servers h).base.id d (streaming u y h 0 r (closing u y true h d))
  ended-Removes h (ok stream, s) d o n = absurd cc
  ended-Removes h (err e, s) d o n =
      removed-Removes u y h d (with_server h s (closing u y true h d)) refl
        (λ k. elim (Bool-cases (k == h)) [
          | inl same ↦ rw same (o.2 ∙ ap (λ i. (d.servers i).base.id) (sym ((==_iff k h).0 same)))
          | inr other ↦ rw other refl
        ])
        (λ k shut. elim (Bool-cases (k == h)) [
          | inl same ↦ rw same o.1
          | inr other ↦ rw other shut
        ])
        n

  end_by-Removes :
      (b : Bool) (h : ℕ) (d : Dialer S) (running : List ℕ)
      → (d.servers h).is_v2 ≡ b
      → IsNamed d
      → Removes u y (d.servers h).base.id d (end_by u y b h (d, running)).0
  unfolding handle_session
  end_by-Removes false h d running e n = removed-Removes u y h d d refl (λ k. refl) (λ k s. s) n
  end_by-Removes true h d running e n =
      ended-Removes h _ d (rw (==_refl h) (closed-IsOver (d.servers h) e)) n

  pub end_server-Removes :
      (h : ℕ) (d : Dialer S) (running : List ℕ)
      → IsNamed d
      → Removes u y (d.servers h).base.id d (end_server u y h (d, running)).0
  unfolding end_server
  end_server-Removes h d running n = end_by-Removes (d.servers h).is_v2 h d running refl n

  end_by-running :
      (b : Bool) (h : ℕ) (d : Dialer S) (running : List ℕ)
      → (d.servers h).is_v2 ≡ b
      → (end_by u y b h (d, running)).1 ≡ without h running
  end_by-running false h d running e = refl
  end_by-running true h d running e =
      let over = closed-IsOver (d.servers h) e in rw (==_refl h, over.0) refl

  -- The goroutine has ended.
  pub end_server-running :
      (h : ℕ) (d : Dialer S) (running : List ℕ)
      → (end_server u y h (d, running)).1 ≡ without h running
  unfolding end_server
  end_server-running h d running = end_by-running (d.servers h).is_v2 h d running refl
