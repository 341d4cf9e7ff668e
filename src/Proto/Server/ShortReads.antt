-- ===== src/Proto/Server/ShortReads.antt =====
-- `handleRegister` and `handleBind` read the UUID with one `Read` and do not look at its count.
use revdial.Common.{
  ℕ, suc, ◌-◌, ◌≡◌, ◌<◌, ◌≤◌, List, [], ◌∷◌, ◌++◌, length, replicate, ok, Option, Bool, arith,
  take_all, drop_all, length-append, length-replicate,
}
use revdial.Proto.Static.{cmd_register, res_success}
use revdial.Proto.Conn.{padded, read, read_msg, write}
use revdial.Proto.Conn.Laws.{healthy}
use revdial.Proto.Uuid.{Uuid}
use revdial.Proto.Server.Types.{Verifier, processing, registered}
use revdial.Proto.Server.Session.{handle_register, handle_command}
use revdial.Proto.Handshake.ServerSteps.{server_at}

read_short :
    (n b : ℕ) (bytes : List ℕ) (segs out : List (List ℕ))
    → length bytes ≤ n
    → read (suc n) (healthy ((b ∷ bytes) ∷ segs) out)
      ≡ (ok (padded (suc n) (b ∷ bytes)), healthy ([] ∷ segs) out)
unfolding read
read_short n b bytes segs out h = rw (take_all n bytes h, drop_all n bytes h)

length-padded : (n : ℕ) (bytes : List ℕ) → length bytes ≤ n → length (padded n bytes) ≡ n
length-padded n bytes h = omega (
  arith,
  length-append bytes (replicate (n - length bytes) 0),
  length-replicate {A = ℕ} (n - length bytes) 0,
)

-- A register command whose UUID arrives in more than one segment registers another identifier: the
-- bytes of the first segment, filled up with zeros. The other bytes stay unread.
pub short_register :
    (u : Uuid) (old front : List ℕ) (verifier : Option Verifier) (allows : Bool)
    (segs out : List (List ℕ))
    → 0 < length front
    → length front < 16
    → handle_command u
        (server_at processing old verifier allows (healthy ((1 ∷ cmd_register ∷ front) ∷ segs) out))
      ≡ (
        ok tt,
        server_at registered
            (front ++ replicate (16 - length front) 0)
            verifier
            allows
            (healthy ([] ∷ segs) (out ++ (1 ∷ res_success ∷ []) ∷ [])),
      )
unfolding handle_command handle_register read_msg write
short_register u old [] verifier allows segs out p h = absurd (omega arith)
short_register u old (b ∷ bytes) verifier allows segs out p h = simp (
  read_short 15 b bytes segs out (omega arith),
  u.from_bytes_sixteen (padded 16 (b ∷ bytes)) (length-padded 16 (b ∷ bytes) (omega arith)),
)
