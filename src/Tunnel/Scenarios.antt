-- ===== src/Tunnel/Scenarios.antt =====
-- A listener and a dialer that make a connection, at concrete inputs.
use revdial.Common.{ℕ, ◌+◌, refl, List, [], ◌∷◌, some, none, Option, true, false, Bool}
use revdial.Pool.MuxConn as Streams
use revdial.Proto.Samples.{id, some_uuid, tick_json, yamux_with}
use revdial.Proto.Delivery.{listening, serving}
use revdial.Connmng.Manager.{ServerConn, get_conn}
use revdial.Proto.Conn.Laws.{healthy}
use revdial.Proto.Client.Types.{disable_v2_fallback}
use revdial.Proto.Multiplex.Wires.{Settles}
use revdial.Proto.Multiplex.ClientEnd as ClientEnd
use revdial.Proto.Multiplex.ServerEnd.{over}
use revdial.Dialer.Requests.{no_requests}
use revdial.Dialer.Runs.{begins}
use revdial.Dialer.State.{Dialer}
use revdial.Tunnel.Dialling.{CanDial, Asks, heard, heard-IsCalled, dial_v1, dial_v2}
use revdial.Tunnel.Asking.{having_asked}
use revdial.Dialer.Bound as Bound
use revdial.Listener.Network.{net_dialer, zero_dialer}
use revdial.Listener.State.{World, Listener}
use revdial.Tunnel.Accepting.{Accepts, requests_of}
use revdial.Tunnel.Streams as Streamed
use revdial.Tunnel.Connections as Connected

abbrev pool_yamux : Streams.Yamux ℕ
pool_yamux = record {
  open_session_stream = λ s. (some s, s + 1);
  accept_session_stream = λ s. (some s, s + 1);
  close_session_stream = λ n s. (false, s);
  close_session = λ s. (false, s);
}

abbrev world : List (List ℕ) → World ℕ (Unit {0})
world q = record {
  yamux = yamux_with q;
  pool_yamux = pool_yamux;
  wire = λ t. healthy q [];
  now = 0;
}

-- A listener with a session that no command has come to.
abbrev idle : Bool → Listener ℕ
idle v2 = record {
  settings = record {
    client_opts = disable_v2_fallback ∷ [];
    v2_opts = [];
    handlers = [];
    pool = none;
    use_v2 = v2;
    dialer = net_dialer zero_dialer;
  };
  client = record (ClientEnd.over (listening [] (healthy [] []))) { session = some 3; is_v2 = v2 };
  cancelled = false;
  handled = [];
  left = [];
}

abbrev no_id : List ℕ → Option (List ℕ)
no_id text = none

abbrev pick : ℕ → Bool
pick n = true

abbrev held : ServerConn
held = record { id = 5 ∷ []; handle = 2; close_fails = false }

-- A dialer with one registered connection, and no request.
abbrev ready : Dialer ℕ
ready = record {
  server_opts = [];
  manager = record { connections = held ∷ []; current = 0; closed = [] };
  servers = λ n. over (serving (5 ∷ []) none (healthy [] []));
  requests = no_requests;
}

ready-CanDial : (v2 : Bool) → CanDial id held ready (idle v2)
unfolding get_conn
ready-CanDial v2 = record {
  sixteen = refl;
  got_conn = refl;
  is_registered = refl;
  client_live = refl;
  no_commands = refl;
  listener_live = refl;
  reached = begins;
  call_live = refl;
}

dial_v2_example :
    Asks some_uuid (yamux_with []) tick_json false id held ready (idle true) (ready-CanDial true)
    × Settles
        (Streamed.listener_run world
          (λ q. 4)
          3
          (λ q. refl)
          no_id
          none
          pick
          id
          []
          (heard some_uuid
            (yamux_with [])
            tick_json
            false
            id
            held
            ready
            (idle true)
            (ready-CanDial true))
          (heard-IsCalled some_uuid
            (yamux_with [])
            tick_json
            false
            id
            held
            ready
            (idle true)
            (ready-CanDial true))
          (record { version = refl; no_pool = refl; has_session = refl }))
        requests_of
        (Bound.dialer_run some_uuid id 7
          (having_asked some_uuid (yamux_with []) id held ready).requests)
        Bound.replies_of
        1
        (Accepts [])
        (Bound.Dials 7 id 0)
dial_v2_example =
    dial_v2 some_uuid (yamux_with []) tick_json false id held ready (idle true) (ready-CanDial true)
      world (λ q. 4) 3 (λ q. refl) no_id none pick 7
      (record { version = refl; no_pool = refl; has_session = refl })

dial_v1_example :
    Asks some_uuid (yamux_with []) tick_json false id held ready (idle false) (ready-CanDial false)
    × Settles
        (Connected.listener_run
          (world [])
          no_id
          pick
          id
          []
          (heard some_uuid
            (yamux_with [])
            tick_json
            false
            id
            held
            ready
            (idle false)
            (ready-CanDial false))
          (heard-IsCalled some_uuid
            (yamux_with [])
            tick_json
            false
            id
            held
            ready
            (idle false)
            (ready-CanDial false))
          refl
          refl)
        requests_of
        (Connected.dialer_run some_uuid
          (yamux_with [])
          7
          (having_asked some_uuid (yamux_with []) id held ready)
          refl)
        (Connected.replies_of some_uuid
          (yamux_with [])
          7
          (having_asked some_uuid (yamux_with []) id held ready)
          refl)
        2
        (Accepts [])
        (Connected.DialsConn 7 id 0)
dial_v1_example =
    dial_v1 some_uuid (yamux_with []) tick_json false id held ready (idle false)
      (ready-CanDial false) (world []) no_id pick 7 refl refl refl
