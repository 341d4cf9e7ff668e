-- ===== src/Listener/Leaks.antt =====
-- What `Accept` leaves behind.
use revdial.Common.{
  ℕ, suc, ◌≡◌, refl, subst, Bool, true, false, List, [], ◌∷◌, ◌++◌, Option, none, some, Result, ok,
  err, ◌⊎◌, inl, inr, ◌&&◌, ◌||◌, if◌then◌else◌,
}
use revdial.Pool.Config.{PoolError}
use revdial.Pool.State.{Pool, PoolStream}
use revdial.Pool.Operations.{open_stream}
use revdial.Proto.Failure.{Error}
use revdial.Proto.Conn.{Conn, close}
use revdial.Proto.Server.Outcomes.{close-closed}
use revdial.Proto.Client.Types.{Client, new_client}
use revdial.Proto.Client.Session.{bind}
use text.Mathlib.Text.{◌==◌ as str_eq}
use revdial.Proto.Commands.{Command, connect_command, custom_event, command_type, connect_type}
use revdial.Listener.Streams.{bind_stream}
use revdial.Listener.State.{World, Listener}
use revdial.Listener.Accept.{
  Accepted, accepted, settled, accept_v1_connection, accept_v2_stream, accept_connection,
  accept_loop, accept, without_first, bound_client, bound_by, after_bind, from_pool, opened,
  from_session, from_either, connecting, call_handler, payload_id, handler_for,
}

abbrev pub is_accepted : Accepted → Bool
is_accepted (accepted conn) = true
is_accepted _ = false

-- An `Accept` that is accepted returns the connection that it opened last; any other has closed what it
-- opened. Nothing else was opened.
module _ {S : Type 0} where
  abbrev pub TidyFrom : List Conn → Accepted × Listener S → Type 0
  TidyFrom left r =
      (r.1.left ≡ left) × (is_accepted r.0 ≡ false)
      ⊎ ((conn : Conn) × (r.1.left ≡ left ++ conn ∷ [])
          × ((r.0 ≡ accepted conn) ⊎ ((conn.closed ≡ true) × (is_accepted r.0 ≡ false))))

  pub record Tidy (l : Listener S) (r : Accepted × Listener S) : Type 0 where
    pub tidy : TidyFrom l.left r

  nothing_opened :
      (a : Accepted) (l m : Listener S) → m.left ≡ l.left → is_accepted a ≡ false → Tidy l (a, m)
  nothing_opened a l m e f = record { tidy = inl (e, f) }

  -- In terms of an earlier state.
  Tidy-since :
      (l m : Listener S) (r : Accepted × Listener S) → m.left ≡ l.left → Tidy m r → Tidy l r
  Tidy-since l m r e t = record { tidy = subst (λ x. TidyFrom x r) e t.tidy }

  settled-Tidy : (r : Result Error (Unit {0}) × Conn) (l : Listener S) → Tidy l (settled r l)
  settled-Tidy (ok a, conn) l = record { tidy = inr (conn, refl, inl refl) }
  settled-Tidy (err e, conn) l = record {
    tidy = inr ((close conn).1, refl, inr (close-closed conn, refl));
  }

  bound_by-Tidy : (id : List ℕ) (c : Option Client) (l : Listener S) → Tidy l (bound_by id c l)
  bound_by-Tidy id none l = nothing_opened _ l _ refl refl
  bound_by-Tidy id (some c) l = settled-Tidy (bound_client (bind id c)) l

  accept_v1-Tidy :
      (id : List ℕ) (dialled : Option Conn) (l : Listener S)
      → Tidy l (accept_v1_connection id dialled l)
  unfolding accept_v1_connection
  accept_v1-Tidy id none l = nothing_opened _ l _ refl refl
  accept_v1-Tidy id (some conn) l = bound_by-Tidy id (new_client conn l.settings.client_opts) l

module _ {S R : Type 0} (w : World S R) where
  after_bind-Tidy :
      (t : PoolStream) (r : Result Error (Unit {0}) × Conn) (p : Pool S) (l : Listener S)
      → Tidy l (after_bind w t r p l)
  after_bind-Tidy t (ok a, conn) p l = Tidy-since l _ _ refl (settled-Tidy (ok a, conn) _)
  after_bind-Tidy t (err e, conn) p l = Tidy-since l _ _ refl (settled-Tidy (err e, conn) _)

  from_pool-Tidy :
      (id : List ℕ) (r : Result PoolError PoolStream × Pool S) (l : Listener S)
      → Tidy l (from_pool w id r l)
  from_pool-Tidy id (err e, p) l = nothing_opened _ l _ refl refl
  from_pool-Tidy id (ok t, p) l = after_bind-Tidy t (bind_stream id (w.wire t)) p l

  opened-Tidy : (id : List ℕ) (o : Option Conn × S) (l : Listener S) → Tidy l (opened w id o l)
  opened-Tidy id (none, s) l = nothing_opened _ l _ refl refl
  opened-Tidy id (some stream, s) l = Tidy-since l _ _ refl (settled-Tidy (bind_stream id stream) _)

  from_session-Tidy : (id : List ℕ) (o : Option S) (l : Listener S) → Tidy l (from_session w id o l)
  from_session-Tidy id none l = nothing_opened _ l _ refl refl
  from_session-Tidy id (some s) l = opened-Tidy id (w.yamux.open_stream s) l

  from_either-Tidy :
      (id : List ℕ) (o : Option (Pool S)) (l : Listener S) → Tidy l (from_either w id o l)
  from_either-Tidy id none l = from_session-Tidy id l.client.session l
  from_either-Tidy id (some p) l = from_pool-Tidy id (open_stream w.pool_yamux p) l

  if-Tidy :
      (b : Bool) (l : Listener S) (r t : Accepted × Listener S)
      → Tidy l r
      → Tidy l t
      → Tidy l (if b then r else t)
  if-Tidy true l r t h k = h
  if-Tidy false l r t h k = k

  accept_connection-Tidy :
      (dialled : Option Conn) (id : List ℕ) (l : Listener S)
      → Tidy l (accept_connection w dialled id l)
  unfolding accept_connection accept_v2_stream
  accept_connection-Tidy dialled id l =
      if-Tidy l.client.is_v2 l _ _ (from_either-Tidy id l.settings.pool l)
        (accept_v1-Tidy id dialled l)

  connecting-Tidy :
      (dialled : Option Conn) (id : Option (List ℕ)) (l : Listener S)
      → Tidy l (connecting w dialled id l)
  connecting-Tidy dialled none l = nothing_opened _ l _ refl refl
  connecting-Tidy dialled (some id) l = accept_connection-Tidy dialled id l

  call_handler-Tidy :
      (cmd : Command) (h : Option ℕ) (next : Listener S → Accepted × Listener S) (l : Listener S)
      → ((m : Listener S) → Tidy m (next m))
      → Tidy l (call_handler w cmd h next l)
  call_handler-Tidy (connect_command id) h next l k = nothing_opened _ l _ refl refl
  call_handler-Tidy (custom_event event) none next l k = nothing_opened _ l _ refl refl
  call_handler-Tidy (custom_event event) (some handler) next l k =
      Tidy-since l _ _ refl (k (record l { handled = l.handled ++ (handler, event) ∷ [] }))

  module _ (parse_id : List ℕ → Option (List ℕ)) (dialled : Option Conn) where
    accept_loop-Tidy :
        (pick : ℕ → Bool) (cmds : List Command) (l : Listener S)
        → Tidy l (accept_loop w parse_id dialled pick cmds l)
    unfolding accept_loop
    accept_loop-Tidy pick [] l =
        if-Tidy (l.cancelled || l.client.base.cmds_closed) l _ _ (nothing_opened _ l _ refl refl)
          (nothing_opened _ l _ refl refl)
    accept_loop-Tidy pick (cmd ∷ cmds) l =
        let after : Listener S = without_first w parse_id dialled cmds l in
        if-Tidy (l.cancelled && pick 0) l _ _ (nothing_opened _ l _ refl refl) (
          Tidy-since l after _ refl (
            if-Tidy (str_eq (command_type cmd) connect_type) after _ _
              (connecting-Tidy dialled (payload_id w parse_id cmd) after)
              (call_handler-Tidy cmd (handler_for w (command_type cmd) l.settings.handlers) _ after
                (accept_loop-Tidy (λ n. pick (suc n)) cmds))))

    -- However `Accept` ends, and whatever commands it goes through, it has opened at most one connection
    -- or stream: that is the one that it returns, or it is closed and none is returned.
    pub accept-Tidy : (pick : ℕ → Bool) (l : Listener S) → Tidy l (accept w parse_id dialled pick l)
    unfolding accept
    accept-Tidy pick l = accept_loop-Tidy pick l.client.base.cmds l
