-- ===== src/Proto/Commands.antt =====
-- proto/commands.go: the names and payloads of commands, and what the code uses of encoding/json
-- and encoding/binary.
use Prim.Native.String.{String}
use text.Mathlib.Text.{◌==◌ as str_eq}
use revdial.Common.{
  ℕ, ◌+◌, ◌*◌, ◌/◌, ◌%◌, ◌<◌, ◌≡◌, Bool, true, List, [], ◌∷◌, Option, none, some, ok, err, Result,
  if◌then◌else◌, ◌||◌, arith,
}
use revdial.Proto.Failure.{
  Error, empty_event_name, reserved_event_name, marshal_failed, unmarshal_failed, payload_refused,
}

abbrev pub connect_type : String
connect_type = "connect"

abbrev pub mux_init_type : String
mux_init_type = "mux_init"

abbrev pub mux_ready_type : String
mux_ready_type = "mux_ready"

abbrev pub is_reserved : String → Bool
is_reserved name =
    str_eq name connect_type || str_eq name mux_init_type || str_eq name mux_ready_type

unfoldable pub new_command_type : String → Result Error String
new_command_type name =
    if str_eq name ""
    then err empty_event_name
    else (if is_reserved name then err reserved_event_name else ok name)

-- The field `Data` is raw JSON.
pub record CustomEvent : Type 0 where
  pub name : String
  pub payload : List ℕ

-- Both commands that a client receives.
pub data Command : Type 0 where
  connect_command : List ℕ → Command
  custom_event : CustomEvent → Command

unfoldable pub command_type : Command → String
command_type (connect_command id) = connect_type
command_type (custom_event event) = event.name

-- `json.Marshal` of a payload, and `json.Marshal` and `json.Unmarshal` of an event. Documented: what
-- Marshal writes Unmarshal reads back. Of an event that holds for a name that is valid UTF-8 and
-- for data that Marshal made.
pub record Json (V : Type 0) : Type 0 where
  pub marshal : V → Option (List ℕ)
  pub unmarshal : List ℕ → Option V
  pub marshal_event : CustomEvent → Option (List ℕ)
  pub unmarshal_event : List ℕ → Option CustomEvent
  pub is_utf8 : String → Bool
  pub unmarshal-marshal : (v : V) (text : List ℕ) → marshal v ≡ some text → unmarshal text ≡ some v
  pub unmarshal_event-marshal_event :
      (v : V) (event : CustomEvent) (text : List ℕ)
      → is_utf8 event.name ≡ true
      → marshal v ≡ some event.payload
      → marshal_event event ≡ some text
      → unmarshal_event text ≡ some event

abbrev pub or_error {ℓ} : {A : Type ℓ} → Option A → Error → Result Error A
or_error none e = err e
or_error (some a) e = ok a

module _ {V : Type 0} (json : Json V) where
  abbrev event_with_data : String → Option (List ℕ) → Result Error CustomEvent
  event_with_data name none = err marshal_failed
  event_with_data name (some text) = ok (record { name = name; payload = text })

  abbrev event_of_type : Result Error String → V → Result Error CustomEvent
  event_of_type (ok name) v = event_with_data name (json.marshal v)
  event_of_type (err e) v = err e

  unfoldable pub new_custom_event_command : String → V → Result Error CustomEvent
  new_custom_event_command name v = event_of_type (new_command_type name) v

  -- `CustomEventCommand.ParsePayload` into a value of the right type.
  unfoldable pub parse_payload : CustomEvent → Result Error V
  parse_payload event = or_error (json.unmarshal event.payload) unmarshal_failed

-- What `ConnectCommand.ParsePayload` is given: a pointer to a UUID, or anything else.
pub data PayloadTarget : Type 0 where
  uuid_pointer other_target : PayloadTarget

-- What it puts there.
abbrev pub parse_connect_payload : List ℕ → PayloadTarget → Result Error (List ℕ)
parse_connect_payload id uuid_pointer = ok id
parse_connect_payload id other_target = err payload_refused

-- `binary.BigEndian.PutUint16` and `Uint16`.
unfoldable pub put_uint16 : ℕ → List ℕ
put_uint16 n = n / 256 ∷ n % 256 ∷ []

unfoldable pub uint16 : List ℕ → ℕ
uint16 (hi ∷ lo ∷ rest) = hi * 256 + lo
uint16 _ = 0

-- Every length below 65536 is written as two bytes, and read back from them.
pub uint16-put_uint16 :
    (n : ℕ) → n < 65536 → (uint16 (put_uint16 n) ≡ n) × (n / 256 < 256) × (n % 256 < 256)
unfolding uint16 put_uint16
uint16-put_uint16 n h = omega arith
