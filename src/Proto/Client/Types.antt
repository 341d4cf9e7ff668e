-- ===== src/Proto/Client/Types.antt =====
-- proto/client.go: the state of the dialling end and its options.
use mathlib.Core.Option.{some-injective}
use revdial.Common.{
  ℕ, Bool, true, false, List, [], ◌∷◌, ◌++◌, length, ok, err, Result, if◌then◌else◌, ◌==◌, ltb,
  ◌||◌, Option, none, some, ◌≡◌, refl, ap, sym, ◌∙◌, arith,
}
use revdial.Proto.Static.{no_auth, user_pass_auth}
use revdial.Proto.Failure.{Error, unexpected_state, credentials_too_long}
use revdial.Proto.Conn.{Conn, M}
use revdial.Proto.Commands.{Command}

pub data ClientState : Type 0 where
  connected processing registered bound disconnected : ClientState

abbrev pub client_state_code : ClientState → ℕ
client_state_code connected = 0
client_state_code processing = 1
client_state_code registered = 2
client_state_code bound = 3
client_state_code disconnected = 4

-- The context that `Register` or `Bind` makes, whose cancel function the client keeps.
pub data Ctx : Type 0 where
  unset live cancelled : Ctx

abbrev pub is_cancelled : Ctx → Bool
is_cancelled cancelled = true
is_cancelled _ = false

-- `cmds` is what the channel holds, oldest first.
pub record Client : Type 0 where
  pub conn : Conn
  pub ctx : Ctx
  pub cmds : List Command
  pub cmds_closed : Bool
  pub token : List ℕ
  pub auth_mode : ℕ
  pub state : ClientState
  pub disable_v2 : Bool

-- The capacity of the channel.
abbrev pub max_cmds : ℕ
max_cmds = 10

abbrev pub on_conn : {A : Type 0} → M Conn A → M Client A
on_conn m c = let r = m c.conn in (r.0, record c { conn = r.1 })

abbrev pub set_state : ClientState → M Client (Unit {0})
set_state state c = (ok tt, record c { state = state })

abbrev pub set_ctx : Ctx → M Client (Unit {0})
set_ctx ctx c = (ok tt, record c { ctx = ctx })

abbrev pub client_state_eq : ClientState → ClientState → Bool
client_state_eq a b = client_state_code a == client_state_code b

abbrev pub require : ClientState → M Client (Unit {0})
require want c = (
  if client_state_eq c.state want
      then ok tt
      else err (unexpected_state (client_state_code c.state)),
  c,
)

pub data ClientOption : Type 0 where
  user_pass : List ℕ → ClientOption
  disable_v2_fallback : ClientOption

unfoldable pub credentials : List ℕ → List ℕ → List ℕ
credentials username password = (length username ∷ username) ++ (length password ∷ password)

-- `WithUserPass`. Both lengths fit a byte where it succeeds.
unfoldable pub with_user_pass : List ℕ → List ℕ → Result Error ClientOption
with_user_pass username password =
    if ltb 255 (length username) || ltb 255 (length password)
    then err credentials_too_long
    else ok (user_pass (credentials username password))

-- `none` is the panic of an option that finds the mode set already.
apply_option : ClientOption → Client → Option Client
apply_option (user_pass token) c =
    if c.auth_mode == no_auth
    then some (record c { auth_mode = user_pass_auth; token = token })
    else none
apply_option disable_v2_fallback c = some (record c { disable_v2 = true })

abbrev if_some : Option Client → (Client → Option Client) → Option Client
if_some none f = none
if_some (some c) f = f c

apply_options : List ClientOption → Client → Option Client
apply_options [] c = some c
apply_options (opt ∷ opts) c = if_some (apply_option opt c) (apply_options opts)

unfoldable pub new_client : Conn → List ClientOption → Option Client
unfolding apply_option apply_options
new_client conn opts = apply_options opts (record {
  conn = conn;
  ctx = unset;
  cmds = [];
  cmds_closed = false;
  token = [];
  auth_mode = no_auth;
  state = connected;
  disable_v2 = false;
})

apply_option-state :
    (opt : ClientOption) (c t : Client) → apply_option opt c ≡ some t → t.state ≡ c.state
unfolding apply_option
apply_option-state (user_pass token) c t e = ground arith
apply_option-state disable_v2_fallback c t e = ground arith

if_some-state :
    (o : Option Client) (f : Client → Option Client) (state : ClientState) (t : Client)
    → if_some o f ≡ some t
    → ((c : Client) → o ≡ some c → c.state ≡ state)
    → ((c : Client) → f c ≡ some t → t.state ≡ c.state)
    → t.state ≡ state
if_some-state none f state t e h k = absurd cc
if_some-state (some c) f state t e h k = k c e ∙ h c refl

apply_options-state :
    (opts : List ClientOption) (c t : Client) → apply_options opts c ≡ some t → t.state ≡ c.state
unfolding apply_options
apply_options-state [] c t e = ap (λ v. v.state) (sym (some-injective c t e))
apply_options-state (opt ∷ opts) c t e =
    if_some-state (apply_option opt c) (apply_options opts) c.state t e
      (λ v. apply_option-state opt c v) (λ v. apply_options-state opts v t)

pub new_client-connected :
    (conn : Conn) (opts : List ClientOption) (c : Client)
    → new_client conn opts ≡ some c
    → c.state ≡ connected
unfolding new_client
new_client-connected conn opts c e = apply_options-state opts _ c e
