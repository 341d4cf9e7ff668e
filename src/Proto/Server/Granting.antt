-- ===== src/Proto/Server/Granting.antt =====
-- Who gets past authentication: a client that logs in, or that is asked for nothing.
use revdial.Common.{
  ℕ, ◌≡◌, refl, Bool, true, false, List, [], ◌∷◌, ok, err, Result, if◌then◌else◌, Ends, and_then,
  Ends-map, Bool-cases, inl, inr, Option, none, some, ◌==◌, ==_iff, and_then-Ends, Ends-all,
  Ends-if, subst, sym,
}
use revdial.Proto.Failure.{
  Error, is_unsupported, unsupported_auth_method, empty_username, empty_password,
}
use revdial.Proto.Conn.{Conn, M, read, write, read_full, read_msg, send_request}
use revdial.Proto.Conn.Consumption.{IsOfConn, read-Ends, write-Ends, read_msg-Ends}
use revdial.Proto.Server.Types.{Server, Verifier, on_conn}
use revdial.Proto.Server.Init.{
  handle_user_pass_auth, handle_auth, try_methods, handle_init, after_method, read_nonempty, judge,
  first_byte, user_pass_if,
}
use revdial.Proto.Server.Login.{LogsIn, Offered, here, there, Accepts, asks_nothing, knows, Granted}
use revdial.Proto.Static.{
  version_v1, no_auth, user_pass_auth, res_success, res_failure, no_acceptable_auth_method,
}

-- An error after which no other method is tried.
abbrev IsLast : {S : Type 0} → Error → S → Type 0
IsLast e t = is_unsupported e ≡ false

abbrev Anyhow : {A S : Type 0} → A → S → Type 0
Anyhow a t = Unit {0}

conn-IsLast :
    {A : Type 0} {P : A → Conn → Type 0} (r : Result Error A × Conn)
    → Ends P IsOfConn r
    → Ends Anyhow IsLast r
conn-IsLast r h = Ends-map r (λ _ _ _. tt) (λ _ _ k. k.1) h

send_request-IsLast : (req : List ℕ) (c : Conn) → Ends Anyhow IsLast (send_request req c)
unfolding send_request
send_request-IsLast req c =
    and_then-Ends (write (version_v1 ∷ req) c) (conn-IsLast _ (write-Ends _ c))
      λ _ t _. conn-IsLast _ (read_msg-Ends t)

-- A call on the connection that stands first in a sequence, with what it brought.
module _ {A B : Type 0} {P : B → Server → Type 0} {Q : Error → Server → Type 0} (s : Server) where
  ran :
      (r : Result Error A × Conn) (f : A → M Server B)
      → Ends Anyhow (λ e conn. Q e (record s { conn = conn })) r
      → ((a : A) (conn : Conn) → r ≡ (ok a, conn) → Ends P Q (f a (record s { conn = conn })))
      → Ends P Q (and_then (r.0, record s { conn = r.1 }) f)
  ran (ok a, conn) f h next = next a conn refl
  ran (err e, conn) f h next = record { holds = h.holds }

-- A call on the connection that stands last.
ran_last :
    {B : Type 0} {P : B → Server → Type 0} {Q : Error → Server → Type 0} (s : Server)
    (r : Result Error B × Conn)
    → ((b : B) (conn : Conn) → P b (record s { conn = conn }))
    → Ends Anyhow (λ e conn. Q e (record s { conn = conn })) r
    → Ends P Q (r.0, record s { conn = r.1 })
ran_last s (ok b, conn) k h = record { holds = k b conn }
ran_last s (err e, conn) k h = record { holds = h.holds }

judge-IsLast : (b : Bool) (s : Server) → Ends (λ _ _. b ≡ true) IsLast (judge b s)
judge-IsLast true s =
    ran_last s (write (version_v1 ∷ res_success ∷ []) s.conn) (λ _ _. refl)
      (conn-IsLast _ (write-Ends _ s.conn))
judge-IsLast false s =
    ran s (write (version_v1 ∷ res_failure ∷ []) s.conn) _ (conn-IsLast _ (write-Ends _ s.conn))
      λ _ _ _. record { holds = refl }

nonempty :
    {B : Type 0} {P : B → Server → Type 0} (n : ℕ) (e : Error) (s : Server)
    (f : List ℕ → M Server B)
    → is_unsupported e ≡ false
    → ((got : List ℕ) (conn : Conn)
        → read n s.conn ≡ (ok got, conn)
        → Ends P IsLast (f got (record s { conn = conn })))
    → Ends P IsLast (and_then (read_nonempty n e s) f)
nonempty n e s f last next = elim (Bool-cases (n == 0)) [
  | inl z ↦ rw z (record { holds = last })
  | inr z ↦ rw z (ran s (read n s.conn) f (conn-IsLast _ (read-Ends n s.conn)) next)
]

-- The client logs in with a name and a password that the function accepts.
abbrev LogsInto : Verifier → Conn → Type 0
LogsInto verify conn =
    (name : List ℕ) × (password : List ℕ) × LogsIn conn name password
    × (verify name password ≡ true)

user_pass-LogsInto :
    (verify : Verifier) (s : Server)
    → Ends (λ _ _. LogsInto verify s.conn) IsLast (handle_user_pass_auth verify s)
unfolding handle_user_pass_auth
user_pass-LogsInto verify s =
    ran s (send_request (user_pass_auth ∷ []) s.conn) _ (send_request-IsLast _ s.conn) λ n c₁ e₁.
      nonempty n empty_username (record s { conn = c₁ }) _ refl
        λ name c₂ e₂.
          ran (record s { conn = c₂ }) (read 1 c₂) _ (conn-IsLast _ (read-Ends 1 c₂))
            λ size c₃ e₃.
              nonempty (first_byte size) empty_password (record s { conn = c₃ }) _ refl
                λ password c₄ e₄.
                  Ends-map (judge (verify name password) (record s { conn = c₄ }))
                    (λ _ _ v. (
                      name,
                      password,
                      record {
                        name_length = n;
                        asked = c₁;
                        answered = e₁;
                        named = c₂;
                        name_read = e₂;
                        size = size;
                        sized = c₃;
                        size_read = e₃;
                        ended = c₄;
                        password_read = e₄;
                      },
                      v,
                    ))
                    (λ _ _ k. k) (judge-IsLast (verify name password) (record s { conn = c₄ }))

-- A method that is not supported leaves the server as it was, and the next one is tried.
abbrev Passes : Server → Error → Server → Type 0
Passes s e t = is_unsupported e ≡ true → t ≡ s

last-Passes : {s : Server} (e : Error) (t : Server) → is_unsupported e ≡ false → Passes s e t
last-Passes e t h k = absurd cc

no_auth-Accepts :
    (b : Bool) (s : Server)
    → s.allows_no_auth ≡ b
    → Ends
        (λ _ _. Accepts s.allows_no_auth s.verifier s.conn no_auth)
        (Passes s)
        (if b
          then on_conn (write (version_v1 ∷ no_auth ∷ [])) s
          else (err unsupported_auth_method, s))
no_auth-Accepts true s e =
    ran_last s (write (version_v1 ∷ no_auth ∷ []) s.conn) (λ _ _. asks_nothing e)
      (Ends-map _ (λ _ _ _. tt) (λ x t k. last-Passes x (record s { conn = t }) k)
        (conn-IsLast _ (write-Ends _ s.conn)))
no_auth-Accepts false s e = record { holds = λ _. refl }

user_pass_if-Accepts :
    (o : Option Verifier) (s : Server)
    → s.verifier ≡ o
    → Ends
        (λ _ _. Accepts s.allows_no_auth s.verifier s.conn user_pass_auth)
        (Passes s)
        (user_pass_if o s)
user_pass_if-Accepts none s e = record { holds = λ _. refl }
user_pass_if-Accepts (some verify) s e =
    Ends-map (handle_user_pass_auth verify s)
      (λ _ _ (name, password, login, v). knows verify name password e login v) last-Passes
      (user_pass-LogsInto verify s)

handle_auth-Accepts :
    (m : ℕ) (s : Server)
    → Ends (λ _ _. Accepts s.allows_no_auth s.verifier s.conn m) (Passes s) (handle_auth m s)
unfolding handle_auth
handle_auth-Accepts m s = elim (Bool-cases (m == no_auth)) [
  | inl z ↦ rw ((==_iff m no_auth).0 z) (no_auth-Accepts _ s refl)
  | inr z ↦ rw z (elim (Bool-cases (m == user_pass_auth)) [
    | inl y ↦ rw ((==_iff m user_pass_auth).0 y) (user_pass_if-Accepts _ s refl)
    | inr y ↦ rw y (record { holds = λ _. refl })
  ])
]

-- One of the methods is accepted.
abbrev OneOf : Server → List ℕ → Type 0
OneOf s ms = (m : ℕ) × Offered m ms × Accepts s.allows_no_auth s.verifier s.conn m

later : (s : Server) (m : ℕ) {ms : List ℕ} → OneOf s ms → OneOf s (m ∷ ms)
later s m (k, o, a) = (k, there m o, a)

tried :
    (m : ℕ) (ms : List ℕ) (s : Server) (r : Result Error (Unit {0}) × Server)
    → Ends (λ _ _. Accepts s.allows_no_auth s.verifier s.conn m) (Passes s) r
    → Ends (λ _ _. OneOf s ms) Anyhow (try_methods ms s)
    → Ends (λ _ _. OneOf s (m ∷ ms)) Anyhow (after_method r (try_methods ms))
tried m ms s (ok a, t) h next = record { holds = (m, here ms, h.holds) }
tried m ms s (err e, t) h next =
    Ends-if _
      (λ u.
        subst (λ v. Ends (λ _ _. OneOf s (m ∷ ms)) Anyhow (try_methods ms v)) (sym (h.holds u))
          (Ends-map _ (λ _ _ k. later s m k) (λ _ _ _. tt) next))
      λ _. record { holds = tt }

try_methods-OneOf : (ms : List ℕ) (s : Server) → Ends (λ _ _. OneOf s ms) Anyhow (try_methods ms s)
unfolding try_methods
try_methods-OneOf [] s =
    ran s (write (version_v1 ∷ no_acceptable_auth_method ∷ []) s.conn) _
      (Ends-all _ (λ _. tt) λ _. tt) λ _ _ _. record { holds = tt }
try_methods-OneOf (m ∷ ms) s =
    tried m ms s (handle_auth m s) (handle_auth-Accepts m s) (try_methods-OneOf ms s)

-- Authentication that succeeds was granted, by what this client sent.
pub handle_init-Granted : (s : Server) → Ends (λ _ _. Granted s) Anyhow (handle_init s)
unfolding handle_init
handle_init-Granted s =
    ran s (read_msg s.conn) _ (Ends-all (read_msg s.conn) (λ _. tt) λ _. tt) λ n c₁ e₁.
      ran (record s { conn = c₁ }) (read_full n c₁) _ (Ends-all (read_full n c₁) (λ _. tt) λ _. tt)
        λ ms c₂ e₂.
          Ends-map (try_methods ms (record s { conn = c₂ })) (λ _ _ p. granted n c₁ e₁ ms c₂ e₂ p)
            (λ _ _ _. tt) (try_methods-OneOf ms (record s { conn = c₂ }))
  where
    granted :
        (n : ℕ) (c₁ : Conn)
        → read_msg s.conn ≡ (ok n, c₁)
        → (ms : List ℕ) (c₂ : Conn) → read_full n c₁ ≡ (ok ms, c₂)
        → OneOf (record s { conn = c₂ }) ms
        → Granted s
    granted n c₁ e₁ ms c₂ e₂ (m, o, a) = record {
      methods = ms;
      after = c₂;
      greeting = record { count = n; counted = c₁; greeted = e₁; listed = e₂ };
      method = m;
      offered = o;
      accepted = a;
    }
