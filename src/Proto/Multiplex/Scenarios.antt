-- ===== src/Proto/Multiplex/Scenarios.antt =====
-- The theorems on version 2 at concrete inputs.
use revdial.Common.{ℕ, ◌≡◌, ◌≢◌, refl, [], ◌∷◌, ok, true, Result}
use revdial.Mux.{default_config}
use revdial.Proto.Static.{no_auth, user_pass_auth, cmd_register, cmd_mux_init}
use revdial.Proto.Failure.{Error}
use revdial.Proto.Samples.{some_uuid, id, knows, token, yamux_with}
use revdial.Proto.Conn.{read_msg, write}
use revdial.Proto.Conn.Laws.{healthy}
use revdial.Proto.Client.Types.{Client}
use revdial.Proto.Client.Session as Calls
use revdial.Proto.Server.Types.{Server, processing}
use revdial.Proto.Server.Init.{handle_init, try_methods, handle_auth}
use revdial.Proto.Server.Session as Session
use revdial.Proto.Handshake.Rounds.{new_at, plain}
use revdial.Proto.Handshake.Secured.{secured}
use revdial.Proto.Multiplex.ClientEnd as ClientEnd
use revdial.Proto.Multiplex.ServerEnd as ServerEnd
use revdial.Proto.Multiplex.Versions.{
  Agrees, first_command, process-Agrees, lifted_client, register-lifted,
}
use revdial.Proto.Multiplex.Wires.{Settles}
use revdial.Proto.Multiplex.Registration.{
  Carries, requests_of, replies_of, client_run, server_run, HasRegistered, Serves, register_v2,
}
use revdial.Proto.Multiplex.NoFallback.{Hangs, Refuses, no_fallback}
use revdial.Proto.Multiplex.NoFallback as NoFallback

abbrev carried : Carries yamux_with default_config default_config
carried = record {
  client_session = λ q conn. 0;
  client_rest = λ q conn. 1;
  server_session = λ q conn. 0;
  server_rest = λ q conn. 1;
  client_starts = λ q conn. refl;
  client_opens = λ q conn. refl;
  server_starts = λ q conn. refl;
  server_accepts = λ q conn. refl;
}

register_v2_example :
    Settles
      (client_run some_uuid yamux_with id default_config default_config)
      requests_of
      (server_run some_uuid yamux_with id default_config default_config)
      replies_of
      3
      HasRegistered
      (Serves id)
register_v2_example = register_v2 some_uuid yamux_with id default_config default_config carried refl

no_fallback_example :
    Settles
      (NoFallback.client_run some_uuid yamux_with id default_config)
      requests_of
      (NoFallback.server_run some_uuid yamux_with id default_config)
      NoFallback.replies_of
      1
      Hangs
      Refuses
no_fallback_example = no_fallback some_uuid yamux_with id default_config

abbrev of_version_1 : Server
of_version_1 = plain (healthy ((1 ∷ 1 ∷ no_auth ∷ []) ∷ (1 ∷ cmd_register ∷ id) ∷ []) [])

register_read : (first_command (record of_version_1 { state = processing })).0 ≡ ok cmd_register
unfolding first_command handle_init try_methods handle_auth read_msg write
register_read = refl

another_command : ◌≢◌ {A = Result Error ℕ} (ok cmd_register) (ok cmd_mux_init)
another_command e = cc

registers_first : (first_command (record of_version_1 { state = processing })).0 ≢ ok cmd_mux_init
registers_first = rw register_read another_command

process-Agrees_example :
    Agrees some_uuid
      (yamux_with [])
      (first_command (record of_version_1 { state = processing }))
      (ServerEnd.process some_uuid (yamux_with []) (ServerEnd.over of_version_1))
      (Session.process some_uuid of_version_1)
process-Agrees_example = process-Agrees some_uuid (yamux_with []) of_version_1 refl registers_first

abbrev told : Client
told = record (new_at user_pass_auth token (healthy ((1 ∷ user_pass_auth ∷ []) ∷ []) [])) {
  disable_v2 = true;
}

register-lifted_example :
    ClientEnd.register (yamux_with []) id (ClientEnd.over told)
    ≡ lifted_client (Calls.register id told)
register-lifted_example = register-lifted (yamux_with []) id told refl

abbrev asked : Server
asked = secured knows (healthy ((1 ∷ 1 ∷ user_pass_auth ∷ []) ∷ []) [])
