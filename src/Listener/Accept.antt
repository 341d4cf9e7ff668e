-- ===== src/Listener/Accept.antt =====
-- listener.go: `Accept`.
use Prim.Native.String.{String}
use text.Mathlib.Text.{◌==◌ as str_eq}
use revdial.Common.{
  ℕ, suc, Bool, true, List, [], ◌∷◌, ◌++◌, Option, none, some, ok, err, Result, if◌then◌else◌, ◌&&◌,
  ◌||◌,
}
use revdial.Pool.Config.{PoolError}
use revdial.Pool.State.{Pool, PoolStream}
use revdial.Pool.Operations.{open_stream, close_stream}
use revdial.Proto.Failure.{Error}
use revdial.Proto.Conn.{Conn, close}
use revdial.Proto.Commands.{
  parse_connect_payload, uuid_pointer, Command, connect_command, custom_event, connect_type,
  command_type,
}
use revdial.Proto.Client.Types.{Client, new_client}
use revdial.Proto.Client.Session.{bind}
use revdial.Listener.Streams.{bind_stream}
use revdial.Listener.State.{World, Listener}

pub data Accepted : Type 0 where
  listener_closed waiting unexpected_type bad_payload : Accepted
  dial_failed no_session session_failed option_panicked : Accepted
  pool_failed : PoolError → Accepted
  bind_failed : Error → Accepted
  accepted : Conn → Accepted

abbrev pub bound_client : Result Error (Unit {0}) × Client → Result Error (Unit {0}) × Conn
bound_client (r, c) = (r, c.conn)

module _ {S : Type 0} where
  -- What `Accept` does with a connection that it opened and asked to be bound: it is returned, or closed.
  abbrev pub settled : Result Error (Unit {0}) × Conn → Listener S → Accepted × Listener S
  settled (ok a, conn) l = (accepted conn, record l { left = l.left ++ conn ∷ [] })
  settled (err e, conn) l = (bind_failed e, record l { left = l.left ++ (close conn).1 ∷ [] })

  abbrev with_pool : Pool S → Listener S → Listener S
  with_pool p l = record l { settings = record l.settings { pool = some p } }

  abbrev with_session : S → Listener S → Listener S
  with_session session l = record l { client = record l.client { session = some session } }

  abbrev pub bound_by : List ℕ → Option Client → Listener S → Accepted × Listener S
  bound_by id none l = (option_panicked, l)
  bound_by id (some c) l = settled (bound_client (bind id c)) l

  -- `acceptV1Connection`, on what dialling gave.
  unfoldable pub accept_v1_connection : List ℕ → Option Conn → Listener S → Accepted × Listener S
  accept_v1_connection id none l = (dial_failed, record l { cancelled = true })
  accept_v1_connection id (some conn) l = bound_by id (new_client conn l.settings.client_opts) l

module _ {S R : Type 0} (w : World S R) where
  -- The pool's stream is closed with its counters where it is not bound.
  abbrev pub after_bind :
      PoolStream → Result Error (Unit {0}) × Conn → Pool S → Listener S → Accepted × Listener S
  after_bind t (ok a, conn) p l = settled (ok a, conn) (with_pool p l)
  after_bind t (err e, conn) p l =
      settled (err e, conn) (with_pool (close_stream w.pool_yamux t p).2 l)

  abbrev pub from_pool :
      List ℕ → Result PoolError PoolStream × Pool S → Listener S → Accepted × Listener S
  from_pool id (err e, p) l = (pool_failed e, with_pool p l)
  from_pool id (ok t, p) l = after_bind t (bind_stream id (w.wire t)) p l

  abbrev pub opened : List ℕ → Option Conn × S → Listener S → Accepted × Listener S
  opened id (none, session) l = (session_failed, with_session session l)
  opened id (some stream, session) l = settled (bind_stream id stream) (with_session session l)

  abbrev pub from_session : List ℕ → Option S → Listener S → Accepted × Listener S
  from_session id none l = (no_session, l)
  from_session id (some session) l = opened id (w.yamux.open_stream session) l

  abbrev pub from_either : List ℕ → Option (Pool S) → Listener S → Accepted × Listener S
  from_either id none l = from_session id l.client.session l
  from_either id (some p) l = from_pool id (open_stream w.pool_yamux p) l

  unfoldable pub accept_v2_stream : List ℕ → Listener S → Accepted × Listener S
  accept_v2_stream id l = from_either id l.settings.pool l

  -- A connect command; `dialled` is what dialling gives, if it is tried.
  unfoldable pub accept_connection : Option Conn → List ℕ → Listener S → Accepted × Listener S
  unfolding accept_v2_stream accept_v1_connection
  accept_connection dialled id l =
      if l.client.is_v2 then accept_v2_stream id l else accept_v1_connection id dialled l

  abbrev pub handler_for : String → List (String × ℕ) → Option ℕ
  handler_for name [] = none
  handler_for name ((n, handler) ∷ hs) = if str_eq n name then some handler else handler_for name hs

  abbrev pub connecting : Option Conn → Option (List ℕ) → Listener S → Accepted × Listener S
  connecting dialled none l = (bad_payload, l)
  connecting dialled (some id) l = accept_connection dialled id l

  abbrev where_ok : Result Error (List ℕ) → Option (List ℕ)
  where_ok (ok id) = some id
  where_ok (err e) = none

  -- `cmd.ParsePayload(&id)`; `parse_id` is json.Unmarshal into a UUID. An event that came under the
  -- name of the connect command is one.
  abbrev pub payload_id : (List ℕ → Option (List ℕ)) → Command → Option (List ℕ)
  payload_id parse_id (connect_command id) = where_ok (parse_connect_payload id uuid_pointer)
  payload_id parse_id (custom_event event) = parse_id event.payload

  abbrev pub call_handler :
      Command → Option ℕ → (Listener S → Accepted × Listener S) → Listener S → Accepted × Listener S
  call_handler (custom_event event) (some handler) next l =
      next (record l { handled = l.handled ++ (handler, event) ∷ [] })
  call_handler _ _ next l = (unexpected_type, l)

  module _ (parse_id : List ℕ → Option (List ℕ)) (dialled : Option Conn) where
    abbrev pub accept_command :
        Command → (Listener S → Accepted × Listener S) → Listener S → Accepted × Listener S
    accept_command cmd next l =
        if str_eq (command_type cmd) connect_type
        then connecting dialled (payload_id parse_id cmd) l
        else call_handler cmd (handler_for (command_type cmd) l.settings.handlers) next l

    abbrev pub without_first : List Command → Listener S → Listener S
    without_first cmds l = record l {
      client = record l.client { base = record l.client.base { cmds = cmds } };
    }

    -- The loop of `Accept` over what the channel gives during the call. Where the context is done and
    -- there is a command, `pick` says for each round whether Go's `select` takes the context.
    unfoldable pub accept_loop : (ℕ → Bool) → List Command → Listener S → Accepted × Listener S
    accept_loop pick [] l =
        if l.cancelled || l.client.base.cmds_closed then (listener_closed, l) else (waiting, l)
    accept_loop pick (cmd ∷ cmds) l =
        let next = accept_loop (λ n. pick (suc n)) cmds in
        if l.cancelled && pick 0
        then (listener_closed, l)
        else accept_command cmd next (without_first cmds l)

    unfoldable pub accept : (ℕ → Bool) → Listener S → Accepted × Listener S
    unfolding accept_loop
    accept pick l = accept_loop pick l.client.base.cmds l
