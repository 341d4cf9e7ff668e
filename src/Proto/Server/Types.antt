-- ===== src/Proto/Server/Types.antt =====
-- proto/server.go: the state of the accepting end, its options and its constructor.
--
-- The optional authentication function is `none` for Go's nil.
use revdial.Common.{
  ℕ, Bool, true, false, List, [], ◌∷◌, Option, none, some, ok, err, ◌≡◌, refl, ◌∙◌, if◌then◌else◌,
  ◌==◌,
}
use revdial.Proto.Failure.{unexpected_state}
use revdial.Proto.Conn.{Conn, M}

pub data State : Type 0 where
  connected processing registered bound disconnected : State

-- The number that the code prints.
abbrev pub state_code : State → ℕ
state_code connected = 0
state_code processing = 1
state_code registered = 2
state_code bound = 3
state_code disconnected = 4

abbrev pub Verifier : Type 0
Verifier = List ℕ → List ℕ → Bool

pub record Server : Type 0 where
  pub conn : Conn
  pub verifier : Option Verifier
  pub state : State
  pub id : List ℕ
  pub allows_no_auth : Bool

-- A call on the server's connection.
abbrev pub on_conn : {A : Type 0} → M Conn A → M Server A
on_conn m s = let r = m s.conn in (r.0, record s { conn = r.1 })

abbrev pub set_id : List ℕ → M Server (Unit {0})
set_id id s = (ok tt, record s { id = id })

abbrev pub set_state : State → M Server (Unit {0})
set_state state s = (ok tt, record s { state = state })

-- `if s.state != want { return error }`.
abbrev pub state_eq : State → State → Bool
state_eq a b = state_code a == state_code b

abbrev pub require : State → M Server (Unit {0})
require want s =
    (if state_eq s.state want then ok tt else err (unexpected_state (state_code s.state)), s)

pub data ServerOption : Type 0 where
  with_user_pass_auth : Verifier → ServerOption
  with_no_auth : ServerOption

apply_option : Server → ServerOption → Server
apply_option s (with_user_pass_auth auth) = record s { verifier = some auth }
apply_option s with_no_auth = record s { allows_no_auth = true }

apply_options : Server → List ServerOption → Server
unfolding apply_option
apply_options s [] = s
apply_options s (opt ∷ opts) = apply_options (apply_option s opt) opts

abbrev default_no_auth : Option Verifier → Server → Server
default_no_auth none s = record s { allows_no_auth = true }
default_no_auth (some auth) s = s

abbrev nil_id : List ℕ
nil_id = 0 ∷ 0 ∷ 0 ∷ 0 ∷ 0 ∷ 0 ∷ 0 ∷ 0 ∷ 0 ∷ 0 ∷ 0 ∷ 0 ∷ 0 ∷ 0 ∷ 0 ∷ 0 ∷ []

unfoldable pub new_server : Conn → List ServerOption → Server
unfolding apply_options
new_server c opts =
    let blank : Server = record {
      conn = c;
      verifier = none;
      state = connected;
      id = nil_id;
      allows_no_auth = false;
    } in
    let s = apply_options blank opts in default_no_auth s.verifier s

apply_options-state :
    (s : Server) (opts : List ServerOption) → (apply_options s opts).state ≡ s.state
unfolding apply_options apply_option
apply_options-state s [] = refl
apply_options-state s (with_user_pass_auth auth ∷ opts) =
    apply_options-state (record s { verifier = some auth }) opts
apply_options-state s (with_no_auth ∷ opts) =
    apply_options-state (record s { allows_no_auth = true }) opts

default_no_auth-state : (o : Option Verifier) (s : Server) → (default_no_auth o s).state ≡ s.state
default_no_auth-state none s = refl
default_no_auth-state (some auth) s = refl

pub new_server-state : (c : Conn) (opts : List ServerOption) → (new_server c opts).state ≡ connected
unfolding new_server
new_server-state c opts =
    let blank : Server = record {
      conn = c;
      verifier = none;
      state = connected;
      id = nil_id;
      allows_no_auth = false;
    } in
    let s = apply_options blank opts in
    default_no_auth-state s.verifier s ∙ apply_options-state blank opts
