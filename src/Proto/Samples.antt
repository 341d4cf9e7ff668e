-- ===== src/Proto/Samples.antt =====
-- Data for the scenarios of proto/.
use text.Mathlib.Text.{◌==◌ as str_eq}
use text.Mathlib.TextEquality.{eq_iff}
use revdial.Common.{
  ◌+◌, pos, ℕ, ◌≡◌, refl, sym, List, [], ◌∷◌, length, replicate, some, none, Option, Bool, false,
  true, arith, if◌then◌else◌, ◌==◌, bytes_eq, ◌&&◌,
}
use revdial.Proto.Conn.{Conn}
use revdial.Proto.Uuid.{Uuid}
use revdial.Proto.Conn.Laws.{healthy}
use revdial.Proto.Multiplex.Yamux.{Yamux}
use revdial.Proto.Commands.{Json, CustomEvent}
use revdial.Proto.Server.Types.{Verifier}

abbrev checked_bytes : List ℕ → Option (List ℕ)
checked_bytes b = if length b == 16 then some b else none

pub checked_bytes_sixteen : (b : List ℕ) → length b ≡ 16 → checked_bytes b ≡ some b
checked_bytes_sixteen b h = simp h

abbrev pub some_uuid : Uuid
some_uuid = record { from_bytes = checked_bytes; from_bytes_sixteen = checked_bytes_sixteen }

abbrev pub id : List ℕ
id = replicate 16 7

-- Values are byte strings that stand for themselves, and every event is a tick.
abbrev pub as_tick : List ℕ → CustomEvent
as_tick text = record { name = "tick"; payload = text }

pub as_tick-payload :
    (v : List ℕ) (event : CustomEvent) (text : List ℕ)
    → str_eq event.name "tick" ≡ true
    → some v ≡ some event.payload
    → some event.payload ≡ some text
    → some (as_tick text) ≡ some event
as_tick-payload v event text e f g = ground (arith, eq_iff event.name "tick")

pub same_value : (v text : List ℕ) → some v ≡ some text → some text ≡ some v
same_value v text e = sym e

abbrev pub tick_json : Json (List ℕ)
tick_json = record {
  marshal = λ v. some v;
  unmarshal = λ text. some text;
  marshal_event = λ event. some event.payload;
  unmarshal_event = λ text. some (as_tick text);
  is_utf8 = λ name. str_eq name "tick";
  unmarshal-marshal = same_value;
  unmarshal_event-marshal_event = as_tick-payload;
}

abbrev pub name : List ℕ
name = 97 ∷ 98 ∷ []

abbrev pub password : List ℕ
password = 99 ∷ []

abbrev pub knows : Verifier
knows given word = bytes_eq given name && bytes_eq word password

abbrev pub token : List ℕ
token = 2 ∷ 97 ∷ 98 ∷ 1 ∷ 99 ∷ []

-- Sessions are numbers, every stream brings q, and a closed session stays at the largest of them.
abbrev closed_number : ℕ
closed_number = 99

abbrev accepted_from : List (List ℕ) → Bool → ℕ → Option Conn × ℕ
accepted_from q true s = (none, s)
accepted_from q false s = (some (healthy q []), s + 1)

abbrev pub yamux_with : List (List ℕ) → Yamux ℕ (Unit {0})
yamux_with q = record {
  yamux_default = record {
    max_stream_window_size = 262144;
    keep_alive_interval = pos 30;
    connection_write_timeout = pos 10;
    others = tt;
  };
  client_session = λ config conn. some 0;
  server_session = λ config conn. some 0;
  open_stream = λ s. (some (healthy q []), s + 1);
  accept_stream = λ s. accepted_from q (s == closed_number) s;
  close_session = λ s. closed_number;
  close_under = λ s c. record c { closed = true };
  close_under-closed = λ s c. refl;
  accept_stream-close = λ s. refl;
}
