-- ===== src/Dialer/Scenarios.antt =====
-- The theorems on the dialer's requests at concrete inputs, and short runs.
use mathlib.Core.Option.{some-injective}
use revdial.Common.{
  none, some, Bool, ap, sym, ◌∙◌, bytes_eq, if◌then◌else◌, ◌==◌, ◌⊎◌, ℕ, ◌≤◌, ◌≡◌, refl, true,
  false, List, [], ◌∷◌,
}
use revdial.Connmng.Manager.{ServerConn, get_conn, got}
use revdial.Connmng.Manager as Manager
use revdial.Connmng.Lookup.{find, Distinct}
use revdial.Connmng.Lookup as Lookup
use revdial.Proto.Static.{no_auth, user_pass_auth, cmd_register}
use revdial.Proto.Failure.{eof}
use revdial.Proto.Conn.{Conn, read, write, read_msg, send_request}
use revdial.Proto.Server.Init.{handle_init, try_methods, handle_auth, handle_user_pass_auth}
use revdial.Proto.Server.Session.{handle_register, close_server}
use revdial.Proto.Server.Send as Send
use revdial.Proto.Conn.Laws.{healthy}
use revdial.Proto.Samples.{some_uuid, tick_json, yamux_with, knows, name, password}
use revdial.Proto.Samples as Samples
use revdial.Proto.Server.Types.{new_server, registered}
use revdial.Proto.Server.Login.{Granted}
use revdial.Proto.Handshake.Rounds.{plain}
use revdial.Proto.Multiplex.Yamux.{Yamux}
use revdial.Proto.Multiplex.ServerEnd.{over, close_v2, process, new_server_v2, send_connect_command}
use revdial.Dialer.State.{
  with_user_pass_auth_option, Dialer, new_dialer, handle_connection, request_connection,
  remove_server, add_server, send_failed,
}
use revdial.Dialer.Admission.{TurnedAway, handle_connection-Admits}
use revdial.Dialer.Managed.{IsFor, IsNew, IsManaged}
use revdial.Dialer.Reached as Life
use revdial.Dialer.Stale.{Forgets, request_connection-Forgets, remove_server-successor}
use revdial.Dialer.Requests.{
  Requests, no_requests, add_request, remove_request, take_request, send, wait, cancel, dialled,
  gave_up,
}
use revdial.Dialer.Lifecycle.{Service, new_service, serve, handle_accepted, stop}
use revdial.Dialer.Lifecycle as Lifecycle
use revdial.Dialer.Served.{Served}
use revdial.Dialer.Served as ServiceLife
use revdial.Dialer.Requests as Requests
use revdial.Dialer.Runs.{Reached, begins, dials, comes, sends, Reached-once, send-ends}

abbrev id : List ℕ
id = 1 ∷ 2 ∷ []

-- A call has asked for a connection, and connection 5 comes for it.
abbrev asked : Requests
asked = (add_request id no_requests).1

abbrev matched : Requests
matched = take_request 5 id asked

matched-Reached : Reached matched
matched-Reached = comes 5 id (dials id begins)

Reached-once_example : (send false false 5 0 matched).deliveries 0 ≤ 1
Reached-once_example =
    Reached-once (send false false 5 0 matched) (sends false false 5 0 matched-Reached) 0

send-ends_example : (matched.channel 0 ≡ []) × ((send false false 5 0 matched).handlers ≡ [])
unfolding Requests.release Requests.add_request Requests.take_request Requests.assign
    Requests.remove_request Requests.take_out
send-ends_example = send-ends matched false false 5 0 [] matched-Reached refl

-- The call gets the connection.
call_returns : (wait false id 0 (send false false 5 0 matched)).0 ≡ dialled 5
unfolding wait send Requests.release Requests.add_request Requests.take_request Requests.assign
    Requests.remove_request Requests.take_out
call_returns = refl

-- Where its context is done when the connection has been sent, Go may take that case: the call gives
-- up, the connection stays in the channel, and nobody closes it.
lost_connection :
    ((wait true id 0 (cancel 0 (send false false 5 0 matched))).0 ≡ gave_up)
    × ((wait true id 0 (cancel 0 (send false false 5 0 matched))).1.channel 0 ≡ 5 ∷ [])
    × ((wait true id 0 (cancel 0 (send false false 5 0 matched))).1.closed ≡ [])
unfolding wait send Requests.release Requests.add_request Requests.take_request Requests.assign
    Requests.remove_request Requests.take_out
lost_connection = (refl, refl, refl)

abbrev key : List ℕ
key = Samples.id

abbrev start : Dialer ℕ
start = new_dialer (λ n. over (plain (healthy [] []))) []

-- A client that registers in version 1 and then is silent.
abbrev silent : Conn
silent = healthy ((1 ∷ 1 ∷ no_auth ∷ []) ∷ (1 ∷ cmd_register ∷ key) ∷ []) []

abbrev no_streams : Yamux ℕ (Unit {0})
no_streams = yamux_with []

-- A dialer that asks for a name and a password, and a client that sends them.
abbrev guarded : Dialer ℕ
guarded = new_dialer (λ n. over (plain (healthy [] []))) (with_user_pass_auth_option knows ∷ [])

abbrev known : Conn
known =
    healthy
      ((1 ∷ 1 ∷ user_pass_auth ∷ [])
        ∷ (1 ∷ 2 ∷ [])
        ∷ name
        ∷ (1 ∷ [])
        ∷ password
        ∷ (1 ∷ cmd_register ∷ key)
        ∷ [])
      []

handle_connection-Admits_example :
    TurnedAway 1 guarded (handle_connection some_uuid no_streams 1 known guarded)
    ⊎ Granted (new_server known guarded.server_opts)
handle_connection-Admits_example = handle_connection-Admits some_uuid no_streams 1 known guarded

-- The client is let in.
known_registers :
    ((handle_connection some_uuid no_streams 1 known guarded).servers 1).base.state ≡ registered
unfolding handle_connection process new_server_v2 new_server new_dialer handle_init read_msg
    try_methods handle_auth handle_user_pass_auth send_request write handle_register read add_server
    Manager.add_connection Manager.new
known_registers = refl

abbrev serving : Dialer ℕ
serving = handle_connection some_uuid no_streams 1 silent start

start-IsNew : IsNew 1 start
unfolding new_dialer Manager.new Lookup.find
start-IsNew id serv e = absurd cc

serving-Reached : Life.Reached some_uuid no_streams tick_json true serving
serving-Reached = Life.connects 1 silent start-IsNew (Life.begins _ [])

abbrev held_conn : ServerConn
held_conn = record { id = key; handle = 1; close_fails = false }

silent_got : (get_conn serving.manager).0 ≡ got held_conn
unfolding get_conn handle_connection process new_server_v2 new_server new_dialer handle_init
    read_msg try_methods handle_auth write handle_register read Manager.add_connection Manager.new
silent_got = refl

Reached-registered_example :
    Distinct serving.manager.connections × IsFor true serving.servers key held_conn
Reached-registered_example =
    Life.Reached-registered some_uuid no_streams tick_json true serving held_conn serving-Reached
      silent_got

silent_fails : (request_connection some_uuid no_streams id serving).0 ≡ send_failed eof
unfolding get_conn request_connection send_connect_command Send.send_connect_command send_request
    handle_connection process new_server_v2 new_server new_dialer handle_init read_msg try_methods
    handle_auth write handle_register read Manager.add_connection Manager.new
silent_fails = refl

no_request : (remove_request id serving.requests).0 ≡ none
unfolding remove_request handle_connection process new_server_v2 new_server new_dialer handle_init
    read_msg try_methods handle_auth write handle_register read Manager.add_connection Manager.new
no_request = refl

request_connection-Forgets_example :
    Forgets some_uuid no_streams held_conn serving
      (request_connection some_uuid no_streams id serving).1
request_connection-Forgets_example =
    request_connection-Forgets some_uuid no_streams tick_json true id held_conn serving eof
      serving-Reached no_request silent_got silent_fails

-- The same client comes again, as connection 2.
abbrev again : Dialer ℕ
again = handle_connection some_uuid no_streams 2 silent serving

serving_holds : serving.manager.connections ≡ held_conn ∷ []
unfolding handle_connection process new_server_v2 new_server new_dialer handle_init read_msg
    try_methods handle_auth write handle_register read Manager.add_connection Manager.new
serving_holds = refl

held_handle :
    (b : Bool) (serv : ServerConn)
    → (if b then some held_conn else none) ≡ some serv
    → (serv.handle == 2) ≡ false
held_handle true serv e = rw (sym (some-injective held_conn serv e)) refl
held_handle false serv e = absurd cc

again-IsNew : IsNew 2 serving
unfolding Lookup.find
again-IsNew id serv e = held_handle (bytes_eq key id) serv (ap (find id) (sym serving_holds) ∙ e)

again-IsManaged : IsManaged true again
again-IsManaged =
    Life.Reached-IsManaged some_uuid no_streams tick_json
      (Life.connects 2 silent again-IsNew serving-Reached)

abbrev second_conn : ServerConn
second_conn = record { id = key; handle = 2; close_fails = false }

again_holds : find (again.servers 1).base.id again.manager.connections ≡ some second_conn
unfolding Lookup.find Manager.add_loop handle_connection process new_server_v2 new_server new_dialer
    handle_init read_msg close_v2 close_server add_server try_methods handle_auth write
    handle_register read Manager.add_connection Manager.new
again_holds = refl

remove_server-successor_example :
    (find (again.servers 1).base.id (remove_server some_uuid no_streams 1 again).manager.connections
      ≡ none)
    × ((remove_server some_uuid no_streams 1 again).servers 2
        ≡ (close_v2 some_uuid no_streams (again.servers 2)).1)
remove_server-successor_example =
    remove_server-successor some_uuid no_streams true 1 second_conn again again-IsManaged
      again_holds

-- A service that was started, with the silent client.
abbrev begun : Service ℕ
begun = new_service (λ n. over (plain (healthy [] []))) ":0" []

abbrev listening : Service ℕ
listening = (Lifecycle.start (λ tls address. true) begun).1

abbrev served : Service ℕ
served = handle_accepted some_uuid no_streams 1 (serve some_uuid no_streams 1 silent listening)

-- There was a server to close.
one_held : served.dialer.manager.connections ≡ held_conn ∷ []
unfolding handle_accepted serve Lifecycle.start new_service handle_connection process new_server_v2
    new_server new_dialer handle_init read_msg try_methods handle_auth write handle_register read
    Manager.add_connection Manager.new
one_held = refl

-- `Stop` comes between the accepting of a connection and its handler. It returns with nothing under the
-- manager, and then the handler puts the connection there, with a goroutine, after the end.
abbrev late : Service ℕ
late = stop some_uuid no_streams [] (serve some_uuid no_streams 1 silent listening)

late_registers :
    (late.dialer.manager.connections ≡ [])
    × (late.running ≡ [])
    × ((handle_accepted some_uuid no_streams 1 late).dialer.manager.connections ≡ held_conn ∷ [])
    × ((handle_accepted some_uuid no_streams 1 late).running ≡ 1 ∷ [])
unfolding stop handle_accepted serve Lifecycle.start new_service handle_connection process
    new_server_v2 new_server new_dialer handle_init read_msg try_methods handle_auth write
    handle_register read Manager.add_connection Manager.new
late_registers = (refl, refl, refl, refl)
