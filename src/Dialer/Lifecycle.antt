-- ===== src/Dialer/Lifecycle.antt =====
-- dialer.go: the dialer as a service, from `Start` to `Stop`.
--
-- The goroutines of registered connections are known by the numbers of their servers. `Stop` waits for
-- them; for the handlers of new connections, which are in `handling` until they have run, and those of
-- streams, it does not wait. A TLS configuration is known by a number, and its clone is the same.
use Prim.Native.String.{String}
use revdial.Common.{
  ℕ, Bool, true, false, not, List, [], ◌∷◌, Option, none, some, Result, ok, err, if◌then◌else◌,
  ◌==◌,
}
use revdial.Proto.Conn.{Conn}
use revdial.Proto.Failure.{Error}
use revdial.Proto.Uuid.{Uuid}
use revdial.Proto.Client.Types.{Ctx, unset, live, cancelled}
use revdial.Proto.Server.Types.{registered, state_eq}
use revdial.Proto.Multiplex.Yamux.{Yamux}
use revdial.Proto.Multiplex.ServerEnd.{ServerV2, new_server_v2, process, accept_stream, close_v2}
use revdial.Dialer.State.{
  Dialer, DialerOption, new_dialer, handle_connection, handle_session, remove_server, with_server,
}

-- The network listener that `Start` opened, and whether it is closed.
pub record NetListener : Type 0 where
  pub tls : Option ℕ
  pub closed : Bool

pub record Service (S : Type 0) : Type 0 where
  pub dialer : Dialer S
  pub tls_config : Option ℕ
  pub listen_address : String
  pub ctx : Ctx
  pub listener : Option NetListener
  pub running : List ℕ
  pub handling : List (ℕ × Conn)

-- `WithDialerTLSConfig`, or an option of the dialer proper.
pub data ServiceOption : Type 0 where
  with_dialer_tls_config : ℕ → ServiceOption
  dialer_option : DialerOption → ServiceOption

pub data Started : Type 0 where
  started listen_failed : Started

abbrev pub without : ℕ → List ℕ → List ℕ
without h [] = []
without h (k ∷ ks) = if k == h then without h ks else k ∷ without h ks

-- The connection that a handler is for, and the other handlers.
abbrev pub handler : ℕ → List (ℕ × Conn) → Option Conn
handler h [] = none
handler h ((k, conn) ∷ rest) = if k == h then some conn else handler h rest

abbrev pub other_handlers : ℕ → List (ℕ × Conn) → List (ℕ × Conn)
other_handlers h [] = []
other_handlers h ((k, conn) ∷ rest) =
    if k == h then other_handlers h rest else (k, conn) ∷ other_handlers h rest

abbrev pub is_open : Option NetListener → Bool
is_open none = false
is_open (some l) = not l.closed

abbrev pub shut : Option NetListener → Option NetListener
shut none = none
shut (some l) = some (record l { closed = true })

abbrev pub tls_of : Option ℕ → List ServiceOption → Option ℕ
tls_of tls [] = tls
tls_of tls (with_dialer_tls_config config ∷ opts) = tls_of (some config) opts
tls_of tls (dialer_option opt ∷ opts) = tls_of tls opts

abbrev pub dialer_options : List ServiceOption → List DialerOption
dialer_options [] = []
dialer_options (with_dialer_tls_config config ∷ opts) = dialer_options opts
dialer_options (dialer_option opt ∷ opts) = opt ∷ dialer_options opts

module _ {S : Type 0} where
  unfoldable pub new_service : (ℕ → ServerV2 S) → String → List ServiceOption → Service S
  new_service servers listen opts = record {
    dialer = new_dialer servers (dialer_options opts);
    tls_config = tls_of none opts;
    listen_address = listen;
    ctx = unset;
    listener = none;
    running = [];
    handling = [];
  }

  -- `opens` is whether the network listener can be opened.
  unfoldable pub start : (Option ℕ → String → Bool) → Service S → Started × Service S
  start opens s =
      if opens s.tls_config s.listen_address
      then (
        started,
        record s { ctx = live; listener = some (record { tls = s.tls_config; closed = false }) },
      )
      else (listen_failed, record s { ctx = live })

module _ {S R : Type 0} (u : Uuid) (y : Yamux S R) where
  -- Whether the handler of a new connection has started a goroutine for it.
  abbrev pub registers : Result Error (Unit {0}) × ServerV2 S → Bool
  registers (ok a, s) = state_eq s.base.state registered
  registers (err e, s) = false

  -- One round of `serve`: a connection, and a goroutine to handle it.
  unfoldable pub serve : ℕ → Conn → Service S → Service S
  serve h conn s = if is_open s.listener then record s { handling = (h, conn) ∷ s.handling } else s

  -- The goroutine runs, whatever has happened since.
  abbrev pub handle_taken : ℕ → Option Conn → Service S → Service S
  handle_taken h none s = s
  handle_taken h (some conn) s =
      let r = process u y (new_server_v2 conn s.dialer.server_opts []) in
      record s {
        dialer = handle_connection u y h conn s.dialer;
        running = if registers r then h ∷ s.running else s.running;
        handling = other_handlers h s.handling;
      }

  unfoldable pub handle_accepted : ℕ → Service S → Service S
  handle_accepted h s = handle_taken h (handler h s.handling) s

  abbrev pub is_error : {A : Type 0} → Result Error A → Bool
  is_error (ok a) = false
  is_error (err e) = true

  -- A round of the goroutine that accepts streams, which ends with the session.
  unfoldable pub serve_session : ℕ → ℕ → Service S → Service S
  serve_session h n s = record s {
    dialer = handle_session u y h n s.dialer;
    running =
        if is_error (accept_stream u y (s.dialer.servers h)).0
        then without h s.running
        else s.running;
  }

  -- The goroutine beside that of a session, which closes it when the dialer's context is done.
  abbrev pub closing : Bool → ℕ → Dialer S → Dialer S
  closing true h d = with_server h (close_v2 u y (d.servers h)).1 d
  closing false h d = d

  -- The goroutine of a registered connection where the dialer's context is done: in version 1 it ends,
  -- and in version 2 it goes round again after its session was closed. `running` has it no more if it
  -- ended.
  abbrev pub end_by : Bool → ℕ → Dialer S × List ℕ → Dialer S × List ℕ
  end_by true h (d, running) =
      let closed = closing true h d in
      (
        handle_session u y h 0 closed,
        if is_error (accept_stream u y (closed.servers h)).0 then without h running else running,
      )
  end_by false h (d, running) = (remove_server u y h d, without h running)

  unfoldable pub end_server : ℕ → Dialer S × List ℕ → Dialer S × List ℕ
  end_server h q = end_by (q.0.servers h).is_v2 h q

  abbrev pub end_servers : List ℕ → Dialer S × List ℕ → Dialer S × List ℕ
  end_servers [] q = q
  end_servers (h ∷ hs) q = end_servers hs (end_server h q)

  -- `Stop` up to its wait: the context is done, and a goroutine closes the network listener.
  unfoldable pub begin_stop : Service S → Service S
  begin_stop s = record s { ctx = cancelled; listener = shut s.listener }

  abbrev pub after_wait : Dialer S × List ℕ → Service S → Service S
  after_wait q s = record s { dialer = q.0; running = q.1 }

  abbrev pub stopped : Ctx → List ℕ → Service S → Service S
  stopped unset order s = s
  stopped ctx order s = begin_stop (after_wait (end_servers order (s.dialer, s.running)) s)

  -- `Stop`, where the goroutines end in this order.
  unfoldable pub stop : List ℕ → Service S → Service S
  unfolding end_server begin_stop
  stop order s = stopped s.ctx order s
