-- ===== src/Proto/Scenarios.antt =====
-- The theorems on proto/ at concrete inputs, and short runs.
use revdial.Proto.Samples.{some_uuid, id, tick_json, as_tick, name, password, knows, token}
use revdial.Proto.Static.{cmd_connect}
use revdial.Proto.Client.Types.{Client}
use revdial.Proto.Client.Events.{command_rounds}
use revdial.Proto.Client.Ending.{HasStopped, command_rounds-HasStopped}
use revdial.Common.{
  false, ℕ, ◌≡◌, ◌<◌, refl, length-replicate, List, [], ◌∷◌, length, replicate, ok, err, none, true,
  arith, Ends,
}
use revdial.Proto.Static.{no_auth, user_pass_auth, res_failure, res_success, cmd_register}
use revdial.Proto.Failure.{
  auth_refused, authentication_failed, no_acceptable_method, event_too_long,
}
use revdial.Proto.Conn.Laws.{healthy}
use revdial.Proto.Commands.{
  connect_command, custom_event, new_custom_event_command, new_command_type,
}
use revdial.Proto.Client.Types.{credentials, with_user_pass}
use revdial.Proto.Client.Session.{register}
use revdial.Proto.Client.Events.{handle_command}
use revdial.Proto.Server.Types.{Server, processing, registered}
use revdial.Proto.Server.Session.{process}
use revdial.Proto.Server.Session as Session
use revdial.Proto.Server.Send.{send_connect_command, send_custom_event}
use revdial.Proto.Server.Login.{Granted}
use revdial.Proto.Server.Outcomes.{process-Ends, IsServing, IsProcessing}
use revdial.Proto.Server.ShortReads.{short_register}
use revdial.Proto.Server.Sending.{send_too_long}
use revdial.Proto.Handshake.ServerSteps.{server_at}
use revdial.Proto.Handshake.Exchange.{Settles}
use revdial.Proto.Handshake.Rounds.{new_at, plain, HasRegistered, Serves, register-no_auth}
use revdial.Proto.Handshake.Secured.{secured, ClientFails, ServerFails}
use revdial.Proto.Handshake.Credentials.{register_granted, register_denied, register_mismatch}
use revdial.Proto.Delivery.{
  listening, serving, Received, Answered, connect_delivered, event_delivered,
}

register_granted_example :
    Settles
      (register id)
      (new_at user_pass_auth token)
      (process some_uuid)
      (secured knows)
      3
      HasRegistered
      (Serves registered id)
unfolding with_user_pass credentials
register_granted_example =
    register_granted some_uuid knows id refl name password token refl (omega arith) (omega arith)
      refl

register_denied_example :
    Settles
      (register id)
      (new_at user_pass_auth (1 ∷ 97 ∷ 1 ∷ 99 ∷ []))
      (process some_uuid)
      (secured knows)
      2
      (ClientFails (auth_refused res_failure))
      (ServerFails authentication_failed)
unfolding with_user_pass credentials
register_denied_example =
    register_denied some_uuid knows id refl (97 ∷ []) password (1 ∷ 97 ∷ 1 ∷ 99 ∷ []) refl
      (omega arith) (omega arith) refl

register_mismatch_example :
    Settles
      (register id)
      (new_at no_auth [])
      (process some_uuid)
      (secured knows)
      1
      (ClientFails no_acceptable_method)
      (ServerFails no_acceptable_method)
    × Settles
        (register id)
        (new_at user_pass_auth token)
        (process some_uuid)
        plain
        1
        (ClientFails no_acceptable_method)
        (ServerFails no_acceptable_method)
register_mismatch_example = register_mismatch some_uuid knows id token

register-no_auth_example :
    Settles
      (register id)
      (new_at no_auth [])
      (process some_uuid)
      plain
      2
      HasRegistered
      (Serves registered id)
register-no_auth_example = register-no_auth some_uuid id refl

-- A server that asks for a name and a password, and a client that sends them.
abbrev waiting : Server
waiting = secured knows (
    healthy
      ((1 ∷ 1 ∷ user_pass_auth ∷ [])
        ∷ (1 ∷ 2 ∷ [])
        ∷ name
        ∷ (1 ∷ [])
        ∷ password
        ∷ (1 ∷ cmd_register ∷ id)
        ∷ [])
      [])

process-Ends_example :
    Ends
      (λ _ t. IsServing t × Granted waiting)
      (λ _ t. IsProcessing t × (t.conn.closed ≡ true))
      (process some_uuid waiting)
process-Ends_example = process-Ends some_uuid waiting refl

abbrev taken : Server
taken = serving id none (healthy [] [])

short_register_example :
    Session.handle_command some_uuid
      (server_at processing [] none true (healthy ((1 ∷ cmd_register ∷ 7 ∷ 7 ∷ []) ∷ []) []))
    ≡ (
      ok tt,
      server_at registered
          (7 ∷ 7 ∷ replicate 14 0)
          none
          true
          (healthy ([] ∷ []) ((1 ∷ res_success ∷ []) ∷ [])),
    )
short_register_example =
    short_register some_uuid [] (7 ∷ 7 ∷ []) none true [] [] (omega arith) (omega arith)

tick_type : new_command_type "tick" ≡ ok "tick"
unfolding new_command_type
tick_type = refl

tick_event : (v : List ℕ) → new_custom_event_command tick_json "tick" v ≡ ok (as_tick v)
unfolding new_custom_event_command
tick_event v = rw tick_type

-- Shut, so that no check builds it.
many : List ℕ
many = replicate 65536 0

many_long : 65535 < length many
unfolding many
many_long = omega (arith, length-replicate {A = ℕ} 65536 0)

-- It is refused.
long_refused : send_custom_event tick_json "tick" many taken ≡ (err event_too_long, taken)
long_refused =
    send_too_long tick_json taken "tick" many (as_tick many) many refl (tick_event many) refl
      many_long

connect_delivered_example :
    Settles
      (handle_command some_uuid tick_json true)
      (listening [])
      (send_connect_command id)
      (serving id none)
      1
      (Received (connect_command id ∷ []))
      Answered
connect_delivered_example =
    connect_delivered some_uuid tick_json true [] id none id refl (omega arith)

event_delivered_example :
    Settles
      (handle_command some_uuid tick_json true)
      (listening [])
      (send_custom_event tick_json "tick" (5 ∷ []))
      (serving id none)
      1
      (Received (custom_event (as_tick (5 ∷ [])) ∷ []))
      Answered
event_delivered_example =
    event_delivered some_uuid tick_json true [] id none "tick" (5 ∷ []) (5 ∷ []) (5 ∷ [])
      (omega arith) tick_type refl refl refl (omega arith)

-- A connect command comes, and nothing after it.
abbrev called : Client
called = listening [] (healthy ((1 ∷ cmd_connect ∷ []) ∷ id ∷ []) [])

command_rounds-HasStopped_example :
    HasStopped some_uuid tick_json (command_rounds some_uuid tick_json (replicate 19 false) called)
command_rounds-HasStopped_example =
    command_rounds-HasStopped some_uuid tick_json (replicate 19 false) called (omega arith)
