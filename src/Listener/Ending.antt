-- ===== src/Listener/Ending.antt =====
-- A listener whose client has nothing more to come.
use text.Mathlib.Text.{◌==◌ as str_eq}
use revdial.Common.{
  ℕ, suc, ◌<◌, ◌≡◌, refl, ap, Bool, true, false, List, [], ◌∷◌, ◌++◌, length, Option, none, some,
  Result, ok, err, ◌⊎◌, inl, inr, ◌&&◌, ◌||◌, if◌then◌else◌,
}
use revdial.Pool.Config.{PoolError}
use revdial.Pool.State.{Pool, PoolStream}
use revdial.Pool.Operations.{open_stream}
use revdial.Proto.Failure.{Error}
use revdial.Proto.Conn.{Conn}
use revdial.Proto.Conn.Consumption.{size}
use revdial.Proto.Uuid.{Uuid}
use revdial.Proto.Commands.{
  Json, Command, connect_command, custom_event, command_type, connect_type,
}
use revdial.Proto.Client.Types.{Client, new_client}
use revdial.Proto.Client.Session.{bind}
use revdial.Proto.Client.Events.{has_room, command_rounds}
use revdial.Proto.Client.Ending.{HasStopped, command_rounds-HasStopped}
use revdial.Proto.Multiplex.ClientEnd.{ClientV2, receive, v1_command_rounds, v2_command_rounds}
use revdial.Listener.Streams.{bind_stream}
use revdial.Listener.State.{World, Listener}
use revdial.Listener.Accept.{
  Accepted, waiting, listener_closed, settled, accept_v1_connection, accept_v2_stream,
  accept_connection, accept_loop, accept, without_first, bound_client, bound_by, after_bind,
  from_pool, opened, from_session, from_either, connecting, call_handler, payload_id, handler_for,
}

abbrev pub is_waiting : Accepted → Bool
is_waiting waiting = true
is_waiting _ = false

module _ {S : Type 0} where
  -- A record, so that the rules below find their argument.
  record Returns (r : Accepted × Listener S) : Type 0 where
    returns : is_waiting r.0 ≡ false

  settled-Returns : (r : Result Error (Unit {0}) × Conn) (l : Listener S) → Returns (settled r l)
  settled-Returns (ok a, conn) l = record { returns = refl }
  settled-Returns (err e, conn) l = record { returns = refl }

  bound_by-Returns : (id : List ℕ) (c : Option Client) (l : Listener S) → Returns (bound_by id c l)
  bound_by-Returns id none l = record { returns = refl }
  bound_by-Returns id (some c) l = settled-Returns (bound_client (bind id c)) l

  accept_v1-Returns :
      (id : List ℕ) (dialled : Option Conn) (l : Listener S)
      → Returns (accept_v1_connection id dialled l)
  unfolding accept_v1_connection
  accept_v1-Returns id none l = record { returns = refl }
  accept_v1-Returns id (some conn) l =
      bound_by-Returns id (new_client conn l.settings.client_opts) l

  if-Returns :
      (b : Bool) (r t : Accepted × Listener S)
      → Returns r
      → Returns t
      → Returns (if b then r else t)
  if-Returns true r t h k = h
  if-Returns false r t h k = k

  -- What Accept does with an empty channel that is closed.
  closed-Returns :
      (a b : Bool) (l : Listener S)
      → b ≡ true
      → Returns (if a || b then (listener_closed, l) else (waiting, l))
  closed-Returns true b l e = record { returns = refl }
  closed-Returns false true l e = record { returns = refl }
  closed-Returns false false l e = absurd cc

  same : (b : Bool) (r : ClientV2 S × Bool) → (if b then r else r) ≡ r
  same true r = refl
  same false r = refl

module _ {S R : Type 0} (w : World S R) where
  after_bind-Returns :
      (t : PoolStream) (r : Result Error (Unit {0}) × Conn) (p : Pool S) (l : Listener S)
      → Returns (after_bind w t r p l)
  after_bind-Returns t (ok a, conn) p l = record { returns = refl }
  after_bind-Returns t (err e, conn) p l = record { returns = refl }

  from_pool-Returns :
      (id : List ℕ) (r : Result PoolError PoolStream × Pool S) (l : Listener S)
      → Returns (from_pool w id r l)
  from_pool-Returns id (err e, p) l = record { returns = refl }
  from_pool-Returns id (ok t, p) l = after_bind-Returns t (bind_stream id (w.wire t)) p l

  opened-Returns : (id : List ℕ) (o : Option Conn × S) (l : Listener S) → Returns (opened w id o l)
  opened-Returns id (none, s) l = record { returns = refl }
  opened-Returns id (some stream, s) l = settled-Returns (bind_stream id stream) _

  from_session-Returns :
      (id : List ℕ) (o : Option S) (l : Listener S) → Returns (from_session w id o l)
  from_session-Returns id none l = record { returns = refl }
  from_session-Returns id (some s) l = opened-Returns id (w.yamux.open_stream s) l

  from_either-Returns :
      (id : List ℕ) (o : Option (Pool S)) (l : Listener S) → Returns (from_either w id o l)
  from_either-Returns id none l = from_session-Returns id l.client.session l
  from_either-Returns id (some p) l = from_pool-Returns id (open_stream w.pool_yamux p) l

  connecting-Returns :
      (dialled : Option Conn) (id : Option (List ℕ)) (l : Listener S)
      → Returns (connecting w dialled id l)
  unfolding accept_connection accept_v2_stream
  connecting-Returns dialled none l = record { returns = refl }
  connecting-Returns dialled (some id) l =
      if-Returns l.client.is_v2 _ _ (from_either-Returns id l.settings.pool l)
        (accept_v1-Returns id dialled l)

  -- The client's channel is closed: no command comes after those that it holds.
  abbrev IsDrained : Listener S → Type 0
  IsDrained l = l.client.base.cmds_closed ≡ true

  call_handler-Returns :
      (cmd : Command) (h : Option ℕ) (next : Listener S → Accepted × Listener S) (l : Listener S)
      → IsDrained l
      → ((m : Listener S) → IsDrained m → Returns (next m))
      → Returns (call_handler w cmd h next l)
  call_handler-Returns (connect_command id) h next l e k = record { returns = refl }
  call_handler-Returns (custom_event event) none next l e k = record { returns = refl }
  call_handler-Returns (custom_event event) (some handler) next l e k =
      k (record l { handled = l.handled ++ (handler, event) ∷ [] }) e

  module _ (parse_id : List ℕ → Option (List ℕ)) (dialled : Option Conn) where
    accept_loop-Returns :
        (pick : ℕ → Bool) (cmds : List Command) (l : Listener S)
        → IsDrained l
        → Returns (accept_loop w parse_id dialled pick cmds l)
    unfolding accept_loop
    accept_loop-Returns pick [] l e = closed-Returns l.cancelled l.client.base.cmds_closed l e
    accept_loop-Returns pick (cmd ∷ cmds) l e =
        let after : Listener S = without_first w parse_id dialled cmds l in
        if-Returns (l.cancelled && pick 0) _ _ (record { returns = refl })
          (if-Returns (str_eq (command_type cmd) connect_type) _ _
            (connecting-Returns dialled (payload_id w parse_id cmd) after)
            (call_handler-Returns cmd (handler_for w (command_type cmd) l.settings.handlers) _ after
              e (accept_loop-Returns (λ n. pick (suc n)) cmds)))

    -- The listener after its client's goroutine has run for so many rounds.
    module _ {V : Type 0} (u : Uuid) (json : Json V) where
      abbrev pub after_rounds : List Bool → Listener S → Listener S
      after_rounds picks l = record l { client = (receive u json picks l.client).0 }

      stopped-Returns :
          (pick : ℕ → Bool) (r : Client × Bool) (l : Listener S)
          → HasStopped u json r
          → (is_waiting
                (accept w parse_id dialled pick
                  (record l { client = record l.client { base = r.0 } })).0
              ≡ false)
            ⊎ (has_room r.0 ≡ false)
      unfolding accept
      stopped-Returns pick r l (inl h) =
          inl
            (accept_loop-Returns pick r.0.cmds
              (record l { client = record l.client { base = r.0 } }) h.1).returns
      stopped-Returns pick r l (inr h) = inr h.1

      received_base :
          (picks : List Bool) (c : ClientV2 S)
          → (receive u json picks c).0 ≡ record c { base = (command_rounds u json picks c.base).0 }
      unfolding receive v1_command_rounds v2_command_rounds
      received_base picks c =
          let rounds = command_rounds u json picks c.base in
          ap (λ r. r.0) (same c.is_v2 (record c { base = rounds.0 }, rounds.1))

      -- Once the client's goroutine has run for one round more than there are bytes to come, Accept ends
      -- without waiting for a command, in either version and whatever the channel holds, or the channel is
      -- full.
      pub accept-ends :
          (picks : List Bool) (pick : ℕ → Bool) (l : Listener S)
          → size l.client.base.conn.inbound < length picks
          → let after = after_rounds picks l in
            (is_waiting (accept w parse_id dialled pick after).0 ≡ false)
            ⊎ (has_room after.client.base ≡ false)
      accept-ends picks pick l h = rw (received_base picks l.client) (
          stopped-Returns pick (command_rounds u json picks l.client.base) l
            (command_rounds-HasStopped u json picks l.client.base h))
