-- ===== src/Proto/Multiplex/ClientEnd.antt =====
-- proto/client_v2.go: the dialling end.
--
-- Each stretch of code that holds the mutex only reads or sets fields; `Register` and `Bind` of one
-- client are not called at the same time, so a call is one step.
use revdial.Common.{
  ℕ, Bool, true, false, List, [], ◌∷◌, ◌++◌, Option, none, some, ok, err, Result, if◌then◌else◌,
  ◌==◌, ◌>>=◌, ◌>>◌, done, fail,
}
use revdial.Mux.{Config, default_config, to_yamux}
use revdial.Proto.Static.{cmd_register, cmd_bind, cmd_mux_init, cmd_mux_ready, res_success}
use revdial.Proto.Failure.{
  Error, mux_refused, unexpected_result, bind_refused, no_session, session_failed,
}
use revdial.Proto.Conn.{Conn, M, read_full, close, send_request}
use revdial.Proto.Client.Types.{
  Client, ClientOption, connected, processing, registered, bound, live, new_client, on_conn,
  set_state, set_ctx, require,
}
use revdial.Proto.Client.Session.{establish, handle_register, cancel_on_error, bind, close_client}
use revdial.Proto.Client.Events.{command_rounds}
use revdial.Proto.Uuid.{Uuid}
use revdial.Proto.Commands.{Json}
use revdial.Proto.Multiplex.Yamux.{Yamux, sizes}

-- `session` is Go's pointer. `below` is the connection that the session runs over, `control` its first
-- stream, which Go keeps in a variable until the goroutine puts it in place of the client's
-- connection. `streams` are those that `Bind` opened, as it left them, oldest first.
pub record ClientV2 (S : Type 0) : Type 0 where
  pub base : Client
  pub session : Option S
  pub mux_config : Config
  pub is_v2 : Bool
  pub below : Option Conn
  pub control : Option Conn
  pub streams : List Conn

pub data ClientV2Option : Type 0 where
  with_mux_config_client : Config → ClientV2Option

module _ {S : Type 0} where
  abbrev pub apply_option : ClientV2 S → ClientV2Option → ClientV2 S
  apply_option c (with_mux_config_client config) = record c { mux_config = config }

  abbrev pub apply_options : ClientV2 S → List ClientV2Option → ClientV2 S
  apply_options c [] = c
  apply_options c (opt ∷ opts) = apply_options (apply_option c opt) opts

  abbrev pub over : Client → ClientV2 S
  over c = record {
    base = c;
    session = none;
    mux_config = default_config;
    is_v2 = false;
    below = none;
    control = none;
    streams = [];
  }

  abbrev pub with_options : Option Client → List ClientV2Option → Option (ClientV2 S)
  with_options none opts = none
  with_options (some c) opts = some (apply_options (over c) opts)

  -- `none` is the panic of `NewClient`.
  unfoldable pub new_client_v2 :
      Conn → List ClientOption → List ClientV2Option → Option (ClientV2 S)
  new_client_v2 conn base_opts opts = with_options (new_client conn base_opts) opts

  -- A call on the embedded client.
  abbrev pub on_base : {A : Type 0} → M Client A → M (ClientV2 S) A
  on_base m c = let r = m c.base in (r.0, record c { base = r.1 })

  abbrev pub with_control : {A : Type 0} → Option Conn → M Conn A → M (ClientV2 S) A
  with_control none m c = (err no_session, c)
  with_control (some stream) m c = let r = m stream in (r.0, record c { control = some r.1 })

  -- A call on the control stream, which there is wherever the code makes one.
  abbrev pub on_control : {A : Type 0} → M Conn A → M (ClientV2 S) A
  on_control m c = with_control c.control m c

  abbrev pub taking : Option Conn → M (ClientV2 S) (Unit {0})
  taking none c = (err no_session, c)
  taking (some stream) c = (ok tt, record c { base = record c.base { conn = stream } })

  -- The goroutine's first act: it puts the control stream in place of the connection.
  abbrev pub take_control : M (ClientV2 S) (Unit {0})
  take_control c = taking c.control c

  -- `MuxInit`, with the client's own sizes.
  abbrev pub send_mux_init : M (ClientV2 S) ℕ
  send_mux_init c = on_base (on_conn (send_request (cmd_mux_init ∷ sizes c.mux_config))) c

  -- After authentication, `registerV1` is `Register` of version 1.
  unfoldable pub register_v1 : List ℕ → M (ClientV2 S) (Unit {0})
  register_v1 id = do
    λ c. (ok tt, record c { is_v2 = false })
    on_base (λ c. cancel_on_error (establish c))
    on_base (λ c. cancel_on_error (handle_register id c))
    on_base (set_state registered)

module _ {S R : Type 0} (y : Yamux S R) where
  abbrev pub session_over : Option S → M (ClientV2 S) (Unit {0})
  session_over none c = (err session_failed, c)
  session_over (some s) c =
      (ok tt, record c { session = some s; is_v2 = true; below = some c.base.conn })

  -- `yamux.Client`, which takes the connection over.
  abbrev pub start_session : M (ClientV2 S) (Unit {0})
  start_session c =
      session_over (y.client_session (to_yamux y.yamux_default c.mux_config) c.base.conn) c

  abbrev pub opened : Option Conn × S → M (ClientV2 S) (Unit {0})
  opened (none, s) c = (err session_failed, record c { session = some s })
  opened (some stream, s) c = (ok tt, record c { session = some s; control = some stream })

  abbrev pub open_on : Option S → M (ClientV2 S) (Unit {0})
  open_on none c = (err no_session, c)
  open_on (some s) c = opened (y.open_stream s) c

  abbrev pub open_control : M (ClientV2 S) (Unit {0})
  open_control c = open_on c.session c

  -- What the server says of its own sizes is read and not used.
  unfoldable pub try_v2_registration : List ℕ → M (ClientV2 S) (Unit {0})
  try_v2_registration id = do
    on_base establish
    resp ← send_mux_init
    if resp == cmd_mux_ready then done else fail (mux_refused resp)
    negotiated ← on_base (on_conn (read_full 12))
    start_session
    open_control
    result ← on_control (send_request (cmd_register ∷ id))
    if result == res_success then done else fail (unexpected_result result)
    on_base (set_state registered)
    take_control

  abbrev pub register_by_mode : List ℕ → M (ClientV2 S) (Unit {0})
  register_by_mode id c = if c.base.disable_v2 then register_v1 id c else try_v2_registration id c

  -- An error of version 2 is returned as it is, with the context live: there is no second try with
  -- version 1.
  unfoldable pub register : List ℕ → M (ClientV2 S) (Unit {0})
  unfolding register_v1 try_v2_registration
  register id = do
    on_base (require connected)
    on_base (set_state processing)
    on_base (set_ctx live)
    register_by_mode id

  -- What `bindV2Stream` does with the answer to its command.
  abbrev bound_by : Result Error ℕ × Conn → M (ClientV2 S) (Unit {0})
  bound_by (err e, stream) c = (err e, record c { streams = c.streams ++ (close stream).1 ∷ [] })
  bound_by (ok resp, stream) c =
      if resp == res_success
      then (
        ok tt,
        record c {
          base = record c.base { state = bound; conn = stream };
          streams = c.streams ++ stream ∷ [];
        },
      )
      else (err bind_refused, record c { streams = c.streams ++ (close stream).1 ∷ [] })

  abbrev bind_opened : List ℕ → Option Conn × S → M (ClientV2 S) (Unit {0})
  bind_opened id (none, s) c = (err session_failed, record c { session = some s })
  bind_opened id (some stream, s) c =
      bound_by (send_request (cmd_bind ∷ id) stream) (record c { session = some s })

  abbrev bind_on : List ℕ → Option S → M (ClientV2 S) (Unit {0})
  bind_on id none c = (err no_session, c)
  bind_on id (some s) c = bind_opened id (y.open_stream s) c

  unfoldable pub bind_v2_stream : List ℕ → M (ClientV2 S) (Unit {0})
  bind_v2_stream id c = bind_on id c.session c

  unfoldable pub bind_v2 : List ℕ → M (ClientV2 S) (Unit {0})
  unfolding bind_v2_stream
  bind_v2 id c = if c.is_v2 then bind_v2_stream id c else on_base (bind id) c

  abbrev pub closed_session : Bool → Option S → Option S
  closed_session true (some s) = some (y.close_session s)
  closed_session _ session = session

  abbrev pub closed_under : Bool → Option S → Option Conn → Option Conn
  closed_under true (some s) (some below) = some (y.close_under s below)
  closed_under _ _ below = below

  -- Closing the session closes the connection that it runs over.
  unfoldable pub close_v2 : M (ClientV2 S) (Unit {0})
  close_v2 c = on_base close_client (record c {
    session = closed_session c.is_v2 c.session;
    below = closed_under c.is_v2 c.session c.below;
  })

module _ {S V : Type 0} (u : Uuid) (json : Json V) where
  abbrev pub with_rounds : Client × Bool → ClientV2 S → ClientV2 S × Bool
  with_rounds r c = (record c { base = r.0 }, r.1)

  -- The goroutines that `registerV1` and `tryV2Registration` start, which handle commands as the
  -- client of version 1 does, and differ in what the client's connection is.
  unfoldable pub v1_command_rounds : List Bool → ClientV2 S → ClientV2 S × Bool
  v1_command_rounds picks c = with_rounds (command_rounds u json picks c.base) c

  unfoldable pub v2_command_rounds : List Bool → ClientV2 S → ClientV2 S × Bool
  v2_command_rounds picks c = with_rounds (command_rounds u json picks c.base) c

  unfoldable pub receive : List Bool → ClientV2 S → ClientV2 S × Bool
  unfolding v1_command_rounds v2_command_rounds
  receive picks c = if c.is_v2 then v2_command_rounds picks c else v1_command_rounds picks c
