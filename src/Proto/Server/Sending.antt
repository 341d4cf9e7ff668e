-- ===== src/Proto/Server/Sending.antt =====
-- When the server sends nothing.
use Prim.Native.String.{String}
use revdial.Common.{ℕ, ◌≡◌, ◌≢◌, ◌<◌, List, length, ok, err, some, true, false, arith, ltb, lt→ltb}
use revdial.Proto.Failure.{Error, unexpected_state, event_too_long}
use revdial.Proto.Commands.{Json, CustomEvent, new_custom_event_command, new_command_type}
use revdial.Proto.Server.Types.{Server, registered, state_code, State, state_eq}
use revdial.Proto.Server.Send.{send_connect_command, send_ping_command, send_custom_event}

state_eq-false : (a b : State) → a ≢ b → state_eq a b ≡ false
state_eq-false a b h = ground arith

module _ {V : Type 0} (json : Json V) where
  -- In every state but `registered` the three sending calls return the unexpected-state error and
  -- leave the server, its connection included, as it was.
  pub send_unregistered :
      (s : Server) (id : List ℕ) (name : String) (v : V)
      → s.state ≢ registered
      → (send_connect_command id s ≡ (err (unexpected_state (state_code s.state)), s))
        × (send_ping_command s ≡ (err (unexpected_state (state_code s.state)), s))
        × (send_custom_event json name v s ≡ (err (unexpected_state (state_code s.state)), s))
  unfolding send_connect_command send_ping_command send_custom_event
  send_unregistered s id name v h =
      let e = state_eq-false s.state registered h in (simp e, simp e, simp e)

  -- On a registered server an event whose JSON has more than 65535 bytes is refused, and nothing is
  -- written.
  pub send_too_long :
      (s : Server) (name : String) (v : V) (event : CustomEvent) (text : List ℕ)
      → s.state ≡ registered
      → new_custom_event_command json name v ≡ ok event
      → json.marshal_event event ≡ some text
      → 65535 < length text
      → send_custom_event json name v s ≡ (err event_too_long, s)
  unfolding send_custom_event
  send_too_long s name v event text h e m l =
      let long : ltb 65535 (length text) ≡ true = lt→ltb _ _ l in simp (h, e, m, long)

  -- The names of the protocol's own commands, and the empty name, are refused before anything is
  -- written.
  pub send_reserved :
      (s : Server) (name : String) (v : V) (e : Error)
      → s.state ≡ registered
      → new_command_type name ≡ err e
      → send_custom_event json name v s ≡ (err e, s)
  unfolding send_custom_event new_custom_event_command
  send_reserved s name v e h t = simp (h, t)
