-- ===== src/Listener/Scenarios.antt =====
-- The theorems on the listener at concrete inputs, and short runs.
use revdial.Common.{
  ℕ, ◌+◌, ◌≡◌, refl, List, [], ◌∷◌, ◌++◌, some, none, Option, true, false, ℤ, All, ◌⊎◌, arith,
}
use revdial.Pool.MuxConn as Streams
use revdial.Proto.Static.{no_acceptable_auth_method, no_auth, res_success, res_failure}
use revdial.Proto.Failure.{unexpected_result}
use revdial.Proto.Samples.{some_uuid, tick_json, id, as_tick, yamux_with}
use revdial.Proto.Conn.{Conn, read, write, close}
use revdial.Proto.Conn.Laws.{healthy}
use revdial.Proto.Commands.{Command, CustomEvent, connect_command, command_type}
use revdial.Proto.Handshake.Rounds.{new_at}
use revdial.Proto.Multiplex.ClientEnd as ClientEnd
use revdial.Listener.Streams.{bind_stream}
use revdial.Proto.Client.Types.{disable_v2_fallback}
use revdial.Proto.Client.Events.{has_room}
use revdial.Listener.Network.{ListenerDialer, net_dialer, tls_dialer, zero_dialer}
use revdial.Listener.State.{
  World, Listener, Settings, ListenerOption, keep_alive, tls_config, enable_v2, configure,
  context_ends,
}
use revdial.Listener.Options.{configure-dialer, dialer_for, last_tls, last_interval}
use revdial.Listener.Closing.{IsClosed, accept-undialled}
use revdial.Listener.Ending.{is_waiting, after_rounds, accept-ends}
use revdial.Listener.Accept.{
  bind_failed, dial_failed, listener_closed, accept, accept_loop, accept_connection,
  accept_v2_stream, without_first,
}
use revdial.Listener.Events.{events, accept-events}
use revdial.Listener.Leaks.{Tidy, accept-Tidy}

abbrev pool_yamux : Streams.Yamux ℕ
pool_yamux = record {
  open_session_stream = λ s. (some s, s + 1);
  accept_session_stream = λ s. (some s, s + 1);
  close_session_stream = λ n s. (false, s);
  close_session = λ s. (false, s);
}

abbrev answering : List ℕ → World ℕ (Unit {0})
answering answer = record {
  yamux = yamux_with (answer ∷ []);
  pool_yamux = pool_yamux;
  wire = λ t. healthy (answer ∷ []) [];
  now = 0;
}

-- A listener with a session, a handler 9 for ticks, and these commands in its client's channel.
abbrev listening : List Command → Listener ℕ
listening cmds = record {
  settings = record {
    client_opts = [];
    v2_opts = [];
    handlers = ("tick", 9) ∷ [];
    pool = none;
    use_v2 = true;
    dialer = net_dialer zero_dialer;
  };
  client = record (ClientEnd.over (record (new_at no_auth [] (healthy [] [])) { cmds = cmds })) {
    session = some 3;
    is_v2 = true;
  };
  cancelled = false;
  handled = [];
  left = [];
}

abbrev ticks : List (ℕ × CustomEvent)
ticks = (9, as_tick (1 ∷ [])) ∷ (9, as_tick (2 ∷ [])) ∷ []

abbrev granting : World ℕ (Unit {0})
granting = answering (1 ∷ res_success ∷ [])

abbrev no_id : List ℕ → Option (List ℕ)
no_id text = none

accept-events_example :
    accept_loop granting no_id none
      (λ n. true)
      (events granting no_id none ticks ++ connect_command id ∷ [])
      (listening [])
    ≡ accept_connection granting none id
        (without_first granting no_id none [] (record (listening []) { handled = ticks }))
accept-events_example =
    accept-events granting no_id none (λ n. true) ticks id [] (listening []) refl
      ((refl, refl), ((refl, refl), tt))

abbrev refusing : World ℕ (Unit {0})
refusing = answering (1 ∷ res_failure ∷ [])

accept-Tidy_example :
    Tidy
      (listening (connect_command id ∷ []))
      (accept refusing no_id none (λ n. true) (listening (connect_command id ∷ [])))
accept-Tidy_example =
    accept-Tidy refusing no_id none (λ n. true) (listening (connect_command id ∷ []))

-- A stream whose request is refused is closed.
stream_refused :
    (accept refusing no_id none (λ n. true) (listening (connect_command id ∷ []))).0
    ≡ bind_failed (unexpected_result res_failure)
unfolding accept accept_loop accept_connection accept_v2_stream bind_stream read write close
    command_type
stream_refused = refl

abbrev memory : ℕ → Streams.MuxConn ℕ
memory n = Streams.new_mux_conn n (ℤ.pos 0)

-- Keep-alive comes first, and TLS after another option.
abbrev options : List ListenerOption
options = keep_alive (ℤ.pos 30) ∷ enable_v2 ∷ tls_config 5 ∷ []

abbrev made : Settings ℕ
made = record {
  client_opts = [];
  v2_opts = [];
  handlers = [];
  pool = none;
  use_v2 = true;
  dialer = tls_dialer (some (record zero_dialer { keep_alive = ℤ.pos 30 })) 5;
}

options_make : configure granting memory options ≡ some made
unfolding configure
options_make = refl

configure-dialer_example :
    made.dialer ≡ dialer_for (last_tls none options) (last_interval (ℤ.pos 0) options)
configure-dialer_example = configure-dialer granting memory options made (omega arith) options_make

-- A second TLS configuration loses the interval that was given before.
interval_lost :
    configure granting memory (keep_alive (ℤ.pos 30) ∷ tls_config 5 ∷ tls_config 6 ∷ [])
    ≡ some (record made {
      use_v2 = false;
      client_opts = disable_v2_fallback ∷ [];
      dialer = tls_dialer none 6;
    })
unfolding configure
interval_lost = refl

-- The dialer's end refuses the client.
abbrev refused_dial : ListenerDialer → Option Conn
refused_dial d = some (healthy ((1 ∷ no_acceptable_auth_method ∷ []) ∷ []) [])

-- In version 1, with one connection accepted before.
abbrev in_version_1 : Listener ℕ
in_version_1 =
    let l = listening (connect_command id ∷ []) in
    record l { client = record l.client { is_v2 = false }; left = healthy [] [] ∷ [] }

accept-undialled_example :
    let r = accept granting no_id none (λ n. true) in_version_1 in
    let after = context_ends granting r.1 in
    (r.0 ≡ dial_failed)
    × (r.1.left ≡ in_version_1.left)
    × All IsClosed after.left
    × IsClosed after.client.base.conn
    × ((accept granting no_id none (λ n. true) after).0 ≡ listener_closed)
accept-undialled_example =
    accept-undialled granting no_id (λ n. true) id [] in_version_1
      (record { live = refl; next_command = refl }) refl

accept-ends_example :
    let after = after_rounds granting no_id none some_uuid tick_json (true ∷ []) in_version_1 in
    (is_waiting (accept granting no_id none (λ n. true) after).0 ≡ false)
    ⊎ (has_room after.client.base ≡ false)
accept-ends_example =
    accept-ends granting no_id none some_uuid tick_json (true ∷ []) (λ n. true) in_version_1
      (omega arith)
