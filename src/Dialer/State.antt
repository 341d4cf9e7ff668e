-- ===== src/Dialer/State.antt =====
-- dialer.go: the connection manager, the servers that it knows and the requests, as the calls and the
-- handlers of connections change them.
--
-- A server is an object, known by the number of the connection that it was made for. The listener, TLS
-- and the goroutines that wait for the context are left out: what they do when they wake is a call.
use Prim.Native.String.{String}
use revdial.Common.{
  ℕ, false, List, [], ◌∷◌, ◌++◌, Option, none, some, ok, err, Result, if◌then◌else◌,
}
use revdial.Connmng.Manager.{
  ConnManager, ServerConn, Got, nothing, out_of_range, got, get_conn, add_connection,
  remove_connection,
}
use revdial.Connmng.Manager as Manager
use revdial.Proto.Failure.{Error}
use revdial.Proto.Conn.{Conn, close}
use revdial.Proto.Uuid.{Uuid}
use revdial.Proto.Commands.{Json}
use revdial.Proto.Server.Types.{
  ServerOption, Verifier, State, registered, bound, state_eq, with_user_pass_auth,
}
use revdial.Proto.Multiplex.Yamux.{Yamux}
use revdial.Proto.Multiplex.ServerEnd.{
  ServerV2, new_server_v2, process, accept_stream, send_connect_command, send_custom_event,
  close_v2,
}
use revdial.Dialer.Requests.{Requests, no_requests, at, add_request, remove_request, take_request}
use revdial.Dialer.Streams.{handle_v2_stream}

-- `manager.closed` is the servers that a call of the manager closes, until the call is over.
pub record Dialer (S : Type 0) : Type 0 where
  pub server_opts : List ServerOption
  pub manager : ConnManager
  pub servers : ℕ → ServerV2 S
  pub requests : Requests

-- `WithUserPassAuth`; the options of TLS are left out.
pub data DialerOption : Type 0 where
  with_user_pass_auth_option : Verifier → DialerOption

pub data Asked : Type 0 where
  no_connection panicked : Asked
  send_failed : Error → Asked
  requested : ℕ → Asked

pub data EventSent : Type 0 where
  no_connection panicked sent : EventSent
  send_failed : Error → EventSent

module _ {S : Type 0} where
  abbrev pub apply_options : Dialer S → List DialerOption → Dialer S
  apply_options d [] = d
  apply_options d (with_user_pass_auth_option auth ∷ opts) =
      apply_options (record d { server_opts = d.server_opts ++ with_user_pass_auth auth ∷ [] }) opts

  -- What stands under a number before there is a server is never looked at.
  unfoldable pub new_dialer : (ℕ → ServerV2 S) → List DialerOption → Dialer S
  new_dialer servers opts =
      apply_options
        (record {
          server_opts = [];
          manager = Manager.new;
          servers = servers;
          requests = no_requests;
        })
        opts

  abbrev pub with_manager : ConnManager → Dialer S → Dialer S
  with_manager m d = record d { manager = m }

  abbrev pub with_server : ℕ → ServerV2 S → Dialer S → Dialer S
  with_server h s d = record d { servers = at h s d.servers }

  -- The connection itself, under the session where there is one.
  abbrev pub close_below : Option Conn → ServerV2 S → ServerV2 S
  close_below none s = record s { base = record s.base { conn = (close s.base.conn).1 } }
  close_below (some below) s = record s { below = some (close below).1 }

module _ {S R : Type 0} (u : Uuid) (y : Yamux S R) where
  abbrev pub close_all : List ℕ → (ℕ → ServerV2 S) → ℕ → ServerV2 S
  close_all [] servers = servers
  close_all (h ∷ hs) servers = close_all hs (at h (close_v2 u y (servers h)).1 servers)

  -- A call of the manager is over: it has closed these servers.
  abbrev pub settle : Dialer S → Dialer S
  settle d = record d {
    manager = record d.manager { closed = [] };
    servers = close_all d.manager.closed d.servers;
  }

  -- `RemoveConnection` of a server's id: where a send fails, where the context of a connection of
  -- version 1 is done, and where a session of version 2 gives no more streams.
  unfoldable pub remove_server : ℕ → Dialer S → Dialer S
  remove_server h d = settle (with_manager (remove_connection (d.servers h).base.id d.manager) d)

  unfoldable pub add_server : ℕ → Dialer S → Dialer S
  add_server h d =
      let serv : ServerConn = record {
        id = (d.servers h).base.id;
        handle = h;
        close_fails = false;
      } in
      settle (with_manager (add_connection serv d.manager) d)

  abbrev pub asked_by :
      ℕ → List ℕ → ℕ → Result Error (Unit {0}) × ServerV2 S → Dialer S → Asked × Dialer S
  asked_by h id n (ok a, s) d = (requested n, with_server h s d)
  asked_by h id n (err e, s) d =
      let gone = remove_server h (with_server h s d) in
      (send_failed e, record gone { requests = (remove_request id gone.requests).1 })

  abbrev pub ask : ℕ → List ℕ → Dialer S → Asked × Dialer S
  ask h id d =
      let a = add_request id d.requests in
      asked_by h id a.0 (send_connect_command id (d.servers h)) (record d { requests = a.1 })

  abbrev pub ask_got : List ℕ → Got × ConnManager → Dialer S → Asked × Dialer S
  ask_got id (nothing, m) d = (no_connection, with_manager m d)
  ask_got id (out_of_range, m) d = (panicked, with_manager m d)
  ask_got id (got conn, m) d =
      if state_eq (d.servers conn.handle).base.state registered
      then ask conn.handle id (with_manager m d)
      else (no_connection, with_manager m d)

  -- `DialContext` under a new id, up to its `select`, which is `wait`.
  unfoldable pub request_connection : List ℕ → Dialer S → Asked × Dialer S
  unfolding remove_server
  request_connection id d = ask_got id (get_conn d.manager) d

  abbrev pub sent_by : ℕ → Result Error (Unit {0}) × ServerV2 S → Dialer S → EventSent × Dialer S
  sent_by h (ok a, s) d = (sent, with_server h s d)
  sent_by h (err e, s) d = (send_failed e, remove_server h (with_server h s d))

  module _ {V : Type 0} (json : Json V) where
    abbrev pub send_got : String → V → Got × ConnManager → Dialer S → EventSent × Dialer S
    send_got name v (nothing, m) d = (no_connection, with_manager m d)
    send_got name v (out_of_range, m) d = (panicked, with_manager m d)
    send_got name v (got conn, m) d =
        if state_eq (d.servers conn.handle).base.state registered
        then sent_by conn.handle (send_custom_event json name v (d.servers conn.handle))
            (with_manager m d)
        else (no_connection, with_manager m d)

    unfoldable pub send_event : String → V → Dialer S → EventSent × Dialer S
    unfolding remove_server
    send_event name v d = send_got name v (get_conn d.manager) d

  abbrev pub by_state : State → ℕ → Dialer S → Dialer S
  by_state registered h d = add_server h d
  by_state bound h d = record d { requests = take_request h (d.servers h).base.id d.requests }
  by_state _ h d = with_server h (close_below (d.servers h).below (d.servers h)) d

  abbrev pub processed : ℕ → Result Error (Unit {0}) × ServerV2 S → Dialer S → Dialer S
  processed h (ok a, s) d = by_state s.base.state h (with_server h s d)
  processed h (err e, s) d = with_server h (close_below s.below s) d

  -- A new connection: the handler that fails ends its context, which closes the connection. A bound
  -- connection goes on to `send`; where there is no request it counts as closed in the table.
  unfoldable pub handle_connection : ℕ → Conn → Dialer S → Dialer S
  unfolding add_server
  handle_connection h conn d = processed h (process u y (new_server_v2 conn d.server_opts [])) d

  abbrev pub streaming : ℕ → ℕ → Result Error Conn × ServerV2 S → Dialer S → Dialer S
  streaming h n (err e, s) d = remove_server h (with_server h s d)
  streaming h n (ok stream, s) d = record d {
    servers = at h s d.servers;
    requests = (handle_v2_stream u n stream d.requests).1;
  }

  -- One round of the goroutine that accepts streams of a session; `n` is the number of a new stream.
  unfoldable pub handle_session : ℕ → ℕ → Dialer S → Dialer S
  unfolding remove_server
  handle_session h n d = streaming h n (accept_stream u y (d.servers h)) d
