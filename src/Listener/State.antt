-- ===== src/Listener/State.antt =====
-- listener.go: the options, `Listen` and `Close`.
--
-- `dial` is what the network dialer gives, `none` where it fails.
use Prim.Native.String.{String}
use revdial.Common.{
  ℕ, ℤ, Bool, true, false, List, [], ◌∷◌, ◌++◌, Option, none, some, ok, err, Result, if◌then◌else◌,
  map,
}
use revdial.Mux
use revdial.Pool.Config
use revdial.Pool.Config.{PoolError}
use revdial.Pool.MuxConn.{MuxConn, new_mux_conn}
use revdial.Pool.MuxConn as Streams
use revdial.Pool.State.{Pool, PoolStream, write_conn}
use revdial.Pool.State as Pools
use revdial.Pool.Operations.{close_pool}
use revdial.Listener.Network.{
  ListenerDialer, net_dialer, zero_dialer, with_tls_config, with_keep_alive,
}
use revdial.Proto.Failure.{Error}
use revdial.Proto.Conn.{Conn, close}
use revdial.Proto.Commands.{CustomEvent, new_command_type}
use revdial.Proto.Client.Types.{ClientOption, disable_v2_fallback, with_user_pass}
use revdial.Proto.Client.Session.{cancel}
use revdial.Proto.Multiplex.Yamux.{Yamux}
use revdial.Proto.Multiplex.ClientEnd.{
  ClientV2, ClientV2Option, with_mux_config_client, new_client_v2, register, close_v2,
}

-- What a call of the listener meets outside: yamux as the protocol and as the pool use it, the
-- connection behind a stream of the pool, and the clock.
pub record World (S R : Type 0) : Type 0 where
  pub yamux : Yamux S R
  pub pool_yamux : Streams.Yamux S
  pub wire : PoolStream → Conn
  pub now : ℕ

-- An event handler is known by a number.
pub record Settings (S : Type 0) : Type 0 where
  pub client_opts : List ClientOption
  pub v2_opts : List ClientV2Option
  pub handlers : List (String × ℕ)
  pub pool : Option (Pool S)
  pub use_v2 : Bool
  pub dialer : ListenerDialer

-- `handled` is the events that handlers were called with, `left` the connections that `Accept` opened,
-- as it left them, oldest first.
pub record Listener (S : Type 0) : Type 0 where
  pub settings : Settings S
  pub client : ClientV2 S
  pub cancelled : Bool
  pub handled : List (ℕ × CustomEvent)
  pub left : List Conn

pub data ListenError : Type 0 where
  dial_failed no_session option_panicked not_v2 : ListenError
  protocol_failed : Error → ListenError
  pool_failed : PoolError → ListenError

pub data ListenerOption : Type 0 where
  user_pass_option : ClientOption → ListenerOption
  event_handler : String → ℕ → ListenerOption
  pool_config : Option Config.Config → ListenerOption
  mux_config : Mux.Config → ListenerOption
  tls_config : ℕ → ListenerOption
  keep_alive : ℤ → ListenerOption
  disable_v2 enable_v2 : ListenerOption

abbrev option_of : Result Error ClientOption → Result Error ListenerOption
option_of (ok opt) = ok (user_pass_option opt)
option_of (err e) = err e

-- `WithUserPass` and `WithEventHandler`.
unfoldable pub with_user_pass_option : List ℕ → List ℕ → Result Error ListenerOption
with_user_pass_option username password = option_of (with_user_pass username password)

abbrev handler_of : Result Error String → ℕ → Result Error ListenerOption
handler_of (ok name) handler = ok (event_handler name handler)
handler_of (err e) handler = err e

unfoldable pub with_event_handler : String → ℕ → Result Error ListenerOption
with_event_handler name handler = handler_of (new_command_type name) handler

module _ {S R : Type 0} (w : World S R) (memory : ℕ → MuxConn S) where
  abbrev pub no_settings : Settings S
  no_settings = record {
    client_opts = [];
    v2_opts = [];
    handlers = [];
    pool = none;
    use_v2 = false;
    dialer = net_dialer zero_dialer;
  }

  abbrev pub with_pool : Option (Pool S) → Settings S → Option (Settings S)
  with_pool none s = none
  with_pool (some p) s = some (record s { pool = some p })

  -- `none` is a panic. The newest handler of a name stands first in the map.
  abbrev pub apply_option : ListenerOption → Settings S → Option (Settings S)
  apply_option (user_pass_option opt) s =
      some (record s { client_opts = s.client_opts ++ opt ∷ [] })
  apply_option (event_handler name handler) s =
      some (record s { handlers = (name, handler) ∷ s.handlers })
  apply_option (pool_config config) s = with_pool (Pools.new config w.now memory) s
  apply_option (mux_config config) s =
      some (record s { v2_opts = s.v2_opts ++ with_mux_config_client config ∷ [] })
  apply_option (tls_config config) s = some (record s { dialer = with_tls_config config s.dialer })
  apply_option (keep_alive interval) s =
      some (record s { dialer = with_keep_alive interval s.dialer })
  apply_option disable_v2 s = some (record s { use_v2 = false })
  apply_option enable_v2 s = some (record s { use_v2 = true })

  abbrev pub if_some :
      Option (Settings S) → (Settings S → Option (Settings S)) → Option (Settings S)
  if_some none f = none
  if_some (some s) f = f s

  abbrev pub apply_options : List ListenerOption → Settings S → Option (Settings S)
  apply_options [] s = some s
  apply_options (opt ∷ opts) s = if_some (apply_option opt s) (apply_options opts)

  -- With version 2 disabled the client is told to use version 1.
  abbrev pub for_version : Settings S → Settings S
  for_version s =
      if s.use_v2 then s else record s { client_opts = s.client_opts ++ disable_v2_fallback ∷ [] }

  abbrev pub for_versions : Option (Settings S) → Option (Settings S)
  for_versions none = none
  for_versions (some s) = some (for_version s)

  unfoldable pub configure : List ListenerOption → Option (Settings S)
  configure opts = for_versions (apply_options opts no_settings)

module _ {S R : Type 0} (w : World S R) where
  abbrev listener_of : Settings S → ClientV2 S → Listener S
  listener_of s c = record { settings = s; client = c; cancelled = false; handled = []; left = [] }

  -- The session's connection is put at a place in the pool's memory.
  abbrev pub pooled : ℕ → S → Pool S → Result PoolError (Unit {0}) × Pool S
  pooled place session p =
      Pools.add_connection place (write_conn place (new_mux_conn session (ℤ.pos w.now)) p)

  -- `client.Close()` where something fails.
  abbrev pub let_go : ClientV2 S → ClientV2 S
  let_go c = (close_v2 w.yamux c).1

  abbrev pub close_conns : Option Conn → ClientV2 S → ClientV2 S
  close_conns none c = c
  close_conns (some below) c = record c { below = some (close below).1 }

  -- `conn.Close()` of the connection that the client was made on.
  abbrev pub hang_up : ClientV2 S → ClientV2 S
  hang_up c = close_conns c.below (record c { base = cancel c.base })

  -- The outcome of `Listen`, with the client as it leaves it, where there is one.
  abbrev pub Listening : Type 0
  Listening = Result ListenError (Listener S) × Option (ClientV2 S)

  abbrev pub start_pool : Result PoolError (Unit {0}) × Pool S → Settings S → ClientV2 S → Listening
  start_pool (ok a, p) s c = (ok (listener_of (record s { pool = some (Pools.start p) }) c), some c)
  start_pool (err e, p) s c = (err (pool_failed e), some (let_go c))

  abbrev pub with_session : ℕ → Option S → Pool S → Settings S → ClientV2 S → Listening
  with_session place none p s c = (err no_session, some (let_go c))
  with_session place (some session) p s c = start_pool (pooled place session p) s c

  -- The pool is used in version 2 only.
  abbrev pub with_client : ℕ → Bool → Option (Pool S) → Settings S → ClientV2 S → Listening
  with_client place true (some p) s c = with_session place c.session p s c
  with_client place _ _ s c = (ok (listener_of s c), some c)

  -- The end of the listener's context closes the connection too.
  abbrev pub registered : ℕ → Settings S → Result Error (Unit {0}) × ClientV2 S → Listening
  registered place s (err e, c) = (err (protocol_failed e), some (hang_up c))
  registered place s (ok a, c) = with_client place c.is_v2 s.pool s c

  abbrev pub connected_by : ℕ → List ℕ → Settings S → Option (ClientV2 S) → Listening
  connected_by place id s none = (err option_panicked, none)
  connected_by place id s (some c) = registered place s (register w.yamux id c)

  abbrev pub dialled_by : ℕ → List ℕ → Settings S → Option Conn → Listening
  dialled_by place id s none = (err dial_failed, none)
  dialled_by place id s (some conn) =
      connected_by place id s (new_client_v2 conn s.client_opts s.v2_opts)

  -- `Listen` with its settings made, under a new id; `place` is where the connection is put in memory.
  unfoldable pub listen : ℕ → List ℕ → Settings S → (ListenerDialer → Option Conn) → Listening
  listen place id s dial = dialled_by place id s (dial s.dialer)

  abbrev pub PoolConnection : Type 0
  PoolConnection = Result ListenError (MuxConn S) × Option (ClientV2 S)

  abbrev pub pool_session : Bool → Option S → ClientV2 S → PoolConnection
  pool_session false session c = (err not_v2, some (let_go c))
  pool_session true none c = (err no_session, some (let_go c))
  pool_session true (some session) c = (ok (new_mux_conn session (ℤ.pos w.now)), some c)

  abbrev pub pool_registered : Result Error (Unit {0}) × ClientV2 S → PoolConnection
  pool_registered (err e, c) = (err (protocol_failed e), some (let_go c))
  pool_registered (ok a, c) = pool_session c.is_v2 c.session c

  abbrev pub pool_client : List ℕ → Option (ClientV2 S) → PoolConnection
  pool_client id none = (err option_panicked, none)
  pool_client id (some c) = pool_registered (register w.yamux id c)

  abbrev pub pool_dialled : List ℕ → Settings S → Option Conn → PoolConnection
  pool_dialled id s none = (err dial_failed, none)
  pool_dialled id s (some conn) = pool_client id (new_client_v2 conn s.client_opts s.v2_opts)

  -- `createPoolConnection`, the pool's factory.
  unfoldable pub create_pool_connection :
      List ℕ → Settings S → (ListenerDialer → Option Conn) → PoolConnection
  create_pool_connection id s dial = pool_dialled id s (dial s.dialer)

  -- What waits for the end of the listener's context, and for no call: the client's goroutines, and
  -- those that `Client.Bind` started for the connections of version 1, which close them.
  unfoldable pub context_ends : Listener S → Listener S
  context_ends l = record l {
    client = record l.client { base = cancel (record l.client.base { cmds_closed = true }) };
    left = if l.client.is_v2 then l.left else map (λ conn. (close conn).1) l.left;
  }

  abbrev closed_pool : Option (Pool S) → Option (Pool S)
  closed_pool none = none
  closed_pool (some p) = some (close_pool w.pool_yamux p).1

  unfoldable pub close_listener : Listener S → Result Error (Unit {0}) × Listener S
  close_listener l =
      let r = close_v2 w.yamux l.client in
      (
        r.0,
        record l {
          cancelled = true;
          settings = record l.settings { pool = closed_pool l.settings.pool };
          client = r.1;
        },
      )
