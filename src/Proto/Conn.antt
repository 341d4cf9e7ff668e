-- ===== src/Proto/Conn.antt =====
-- proto/conn.go, and what the code uses of net.Conn and io.ReadFull.
--
-- A connection is seen from one end. `inbound` is what the peer sends until it closes its end, one
-- segment for what one `Read` can return at most; `outbound` is what this end wrote, one entry for
-- each `Write`. `failing` says of the coming writes whether the network refuses them; writes after
-- its end succeed.
pub mod Laws
pub mod Consumption
pub mod Effects
use revdial.Common.{
  ℕ, zero, suc, ◌-◌, Bool, true, false, List, [], ◌∷◌, ◌++◌, length, take, drop, replicate, ok, err,
  Result, if◌then◌else◌, ◌==◌, ◌>>=◌, ◌>>◌, pure, fail,
}
use revdial.Proto.Static.{version_v1}
use revdial.Proto.Failure.{
  Error, eof, unexpected_eof, conn_closed, write_refused, unexpected_version,
}

pub record Conn : Type 0 where
  pub inbound : List (List ℕ)
  pub outbound : List (List ℕ)
  pub closed : Bool
  pub failing : List Bool

-- A call on a state of type S, with Go's error result.
abbrev pub M : Type 0 → Type 0 → Type 0
M S A = S → Result Error A × S

-- One `Read` into a buffer of n bytes: the bytes that it got, and the segments that are left.
unfoldable pub next_segment : ℕ → List (List ℕ) → Result Error (List ℕ) × List (List ℕ)
next_segment n [] = (err eof, [])
next_segment n ([] ∷ segs) = next_segment n segs
next_segment n ((b ∷ seg) ∷ segs) = (ok (take n (b ∷ seg)), drop n (b ∷ seg) ∷ segs)

-- A buffer of n bytes after a `Read` that got these: the rest of it keeps its zeros.
abbrev pub padded : ℕ → List ℕ → List ℕ
padded n got = got ++ replicate (n - length got) 0

-- `conn.Read(buf)` by code that ignores the count: the whole buffer.
unfoldable pub read : ℕ → M Conn (List ℕ)
unfolding next_segment
read n c =
    if c.closed
    then (err conn_closed, c)
    else (do
      got ← λ c. let r = next_segment n c.inbound in (r.0, record c { inbound = r.1 })
      pure (padded n got))
        c

abbrev short_read : List ℕ → Error
short_read [] = eof
short_read (b ∷ bs) = unexpected_eof

-- `io.ReadFull`: reads on over segments until n bytes have come. `got` is what has come so far.
unfoldable pub gather : ℕ → List ℕ → List (List ℕ) → Result Error (List ℕ) × List (List ℕ)
gather zero got segs = (ok got, segs)
gather (suc n) got [] = (err (short_read got), [])
gather (suc n) got ([] ∷ segs) = gather (suc n) got segs
gather (suc n) got ((b ∷ seg) ∷ segs) = gather n (got ++ b ∷ []) (seg ∷ segs)

unfoldable pub read_full : ℕ → M Conn (List ℕ)
unfolding gather
read_full n c =
    if c.closed
    then (err conn_closed, c)
    else (let r = gather n [] c.inbound in (r.0, record c { inbound = r.1 }))

abbrev sent : List ℕ → Conn → Conn
sent bytes c = record c { outbound = c.outbound ++ bytes ∷ [] }

write_attempt : List Bool → List ℕ → M Conn (Unit {0})
write_attempt [] bytes c = (ok tt, sent bytes c)
write_attempt (false ∷ later) bytes c = (ok tt, record (sent bytes c) { failing = later })
write_attempt (true ∷ later) bytes c = (err write_refused, record c { failing = later })

unfoldable pub write : List ℕ → M Conn (Unit {0})
unfolding write_attempt
write bytes c = if c.closed then (err conn_closed, c) else write_attempt c.failing bytes c

-- Closing a connection. A second close is an error in Go, which every caller ignores or passes on.
unfoldable pub close : M Conn (Unit {0})
close c = if c.closed then (err conn_closed, c) else (ok tt, record c { closed = true })

-- Two bytes are indexed: the version and the message.
abbrev check_version : List ℕ → M Conn ℕ
check_version (version ∷ msg ∷ rest) c =
    (if version == version_v1 then ok msg else err (unexpected_version version), c)
check_version _ c = (err unexpected_eof, c)

unfoldable pub read_msg : M Conn ℕ
unfolding read_full
read_msg = do buf ← read_full 2; check_version buf

unfoldable pub send_request : List ℕ → M Conn ℕ
unfolding write read_msg
send_request req = do write (version_v1 ∷ req); read_msg
