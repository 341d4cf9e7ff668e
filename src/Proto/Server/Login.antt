-- ===== src/Proto/Server/Login.antt =====
-- What a client does to be let in, in terms of what comes over its connection.
use revdial.Common.{ℕ, ◌≡◌, true, Bool, Option, List, [], ◌∷◌, ok, some}
use revdial.Proto.Conn.{Conn, read, read_full, read_msg, send_request}
use revdial.Proto.Server.Types.{Server, Verifier}
use revdial.Proto.Server.Init.{first_byte}
use revdial.Proto.Static.{no_auth, user_pass_auth}

-- The client's first message: how many methods it offers, and which.
pub record Offers (conn : Conn) (methods : List ℕ) (after : Conn) : Type 0 where
  pub count : ℕ
  pub counted : Conn
  pub greeted : read_msg conn ≡ (ok count, counted)
  pub listed : read_full count counted ≡ (ok methods, after)

-- Asked for them, the client sends its name and its password, each after its length. A `Read` that
-- brings less leaves zeros.
pub record LogsIn (conn : Conn) (name password : List ℕ) : Type 0 where
  pub name_length : ℕ
  pub asked : Conn
  pub answered : send_request (user_pass_auth ∷ []) conn ≡ (ok name_length, asked)
  pub named : Conn
  pub name_read : read name_length asked ≡ (ok name, named)
  pub size : List ℕ
  pub sized : Conn
  pub size_read : read 1 named ≡ (ok size, sized)
  pub ended : Conn
  pub password_read : read (first_byte size) sized ≡ (ok password, ended)

pub data Offered (m : ℕ) : List ℕ → Type 0 where
  here : (ms : List ℕ) → Offered m (m ∷ ms)
  there : (k : ℕ) {ms : List ℕ} → Offered m ms → Offered m (k ∷ ms)

-- The server accepts a method: none is asked for, or the client logs in under a name and a password
-- that the authentication function accepts.
pub data Accepts (allows_no_auth : Bool) (verifier : Option Verifier) (conn : Conn)
    : ℕ → Type 0 where
  asks_nothing : allows_no_auth ≡ true → Accepts allows_no_auth verifier conn no_auth
  knows :
      (verify : Verifier) (name password : List ℕ)
      → verifier ≡ some verify
      → LogsIn conn name password
      → verify name password ≡ true
      → Accepts allows_no_auth verifier conn user_pass_auth

-- The client offers a method that lets it in.
pub record Granted (s : Server) : Type 0 where
  pub methods : List ℕ
  pub after : Conn
  pub greeting : Offers s.conn methods after
  pub method : ℕ
  pub offered : Offered method methods
  pub accepted : Accepts s.allows_no_auth s.verifier after method
