-- ===== src/Proto/Server/Events.antt =====
-- What a server writes for an event.
use Prim.Native.String.{String}
use revdial.Common.{
  ℕ, ◌+◌, ◌*◌, ◌<◌, ◌≡◌, List, [], ◌∷◌, ◌++◌, length, ok, err, some, Result, ◌⊎◌, if◌then◌else◌,
}
use revdial.Proto.Static.{version_v1, cmd_custom_event}
use revdial.Proto.Failure.{Error, unexpected_state}
use revdial.Proto.Conn.{Conn}
use revdial.Proto.Commands.{Json, CustomEvent, new_custom_event_command}
use revdial.Proto.Server.Types.{Server, State, registered, state_eq, state_code}

-- The frame of an event: the length of its JSON in two bytes, then the JSON.
pub record IsFrameOf (text frame : List ℕ) : Type 0 where
  pub hi : ℕ
  pub lo : ℕ
  pub hi_byte : hi < 256
  pub lo_byte : lo < 256
  pub tells_length : hi * 256 + lo ≡ length text
  pub laid_out : frame ≡ version_v1 ∷ cmd_custom_event ∷ hi ∷ lo ∷ text

module _ {V : Type 0} (json : Json V) (name : String) (v : V) where
  -- A registered server wrote the event once, in a frame that tells its length.
  pub record HasSent (s t : Server) : Type 0 where
    pub ready : s.state ≡ registered
    pub event : CustomEvent
    pub named : new_custom_event_command json name v ≡ ok event
    pub text : List ℕ
    pub marshalled : json.marshal_event event ≡ some text
    pub frame : List ℕ
    pub framed : IsFrameOf text frame
    pub written : t.conn.outbound ≡ s.conn.outbound ++ frame ∷ []

  -- Nothing was written, or the whole event.
  abbrev pub SendsAllOrNothing : {A : Type 0} → Server → A → Server → Type 0
  SendsAllOrNothing s a t = (t.conn.outbound ≡ s.conn.outbound) ⊎ HasSent s t

  -- The test of the state.
  abbrev begun : State → Result Error (Unit {0})
  begun a = if state_eq a registered then ok tt else err (unexpected_state (state_code a))
