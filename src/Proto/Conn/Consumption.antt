-- ===== src/Proto/Conn/Consumption.antt =====
-- How much of what arrives a call on a connection takes.
use revdial.Common.{
  ℕ, zero, suc, ◌+◌, ◌≤◌, ◌≡◌, refl, Bool, true, false, List, [], ◌∷◌, ◌++◌, length, ok, err,
  Result, arith, if◌then◌else◌, ◌==◌, Ends, Ends-map, Ends-if, and_then-Ends, length-drop,
}
use revdial.Proto.Static.{version_v1}
use revdial.Proto.Failure.{Error, blocked, unexpected_version, is_unsupported}
use revdial.Proto.Conn.{
  Conn, gather, read_full, next_segment, read, write, write_attempt, read_msg, check_version,
  short_read,
}

abbrev pub size : List (List ℕ) → ℕ
size [] = 0
size (seg ∷ segs) = length seg + size segs

abbrev pub is_blocked : Error → Bool
is_blocked blocked = true
is_blocked _ = false

abbrev pub Consumes : {A : Type 0} → ℕ → List (List ℕ) → A → List (List ℕ) → Type 0
Consumes n segs a rest = size rest + n ≤ size segs

-- The error is neither the wait for a full channel nor that of a method.
abbrev pub IsOfConn : {S : Type 0} → Error → S → Type 0
IsOfConn e s = (is_blocked e ≡ false) × (is_unsupported e ≡ false)

short_read-IsOfConn :
    (got : List ℕ)
    → (is_blocked (short_read got) ≡ false) × (is_unsupported (short_read got) ≡ false)
short_read-IsOfConn [] = (refl, refl)
short_read-IsOfConn (b ∷ bs) = (refl, refl)

gather-Ends :
    (n : ℕ) (got : List ℕ) (segs : List (List ℕ))
    → Ends (Consumes n segs) IsOfConn (gather n got segs)
unfolding gather
gather-Ends zero got segs = record { holds = omega arith }
gather-Ends (suc n) got [] = record { holds = short_read-IsOfConn got }
gather-Ends (suc n) got ([] ∷ segs) =
    Ends-map (gather (suc n) got segs) (λ a rest h. omega (arith, h)) (λ e rest h. h)
      (gather-Ends (suc n) got segs)
gather-Ends (suc n) got ((b ∷ seg) ∷ segs) =
    Ends-map (gather n (got ++ b ∷ []) (seg ∷ segs)) (λ a rest h. omega (arith, h)) (λ e rest h. h)
      (gather-Ends n (got ++ b ∷ []) (seg ∷ segs))

next_segment-Ends :
    (n : ℕ) (segs : List (List ℕ)) → Ends (Consumes 0 segs) IsOfConn (next_segment n segs)
unfolding next_segment
next_segment-Ends n [] = record { holds = (refl, refl) }
next_segment-Ends n ([] ∷ segs) =
    Ends-map (next_segment n segs) (λ a rest h. omega (arith, h)) (λ e rest h. h)
      (next_segment-Ends n segs)
next_segment-Ends n ((b ∷ seg) ∷ segs) = record { holds = omega (arith, length-drop n (b ∷ seg)) }

-- The same of a call on a connection.
abbrev pub Takes : {A : Type 0} → ℕ → Conn → A → Conn → Type 0
Takes n c a t = size t.inbound + n ≤ size c.inbound

inbound-Ends :
    {A : Type 0} (n : ℕ) (r : Result Error A × List (List ℕ)) (c : Conn)
    → Ends (Consumes n c.inbound) IsOfConn r
    → Ends (Takes n c) IsOfConn (r.0, record c { inbound = r.1 })
inbound-Ends n (ok a, rest) c h = record { holds = h.holds }
inbound-Ends n (err e, rest) c h = record { holds = h.holds }

pub read_full-Ends : (n : ℕ) (c : Conn) → Ends (Takes n c) IsOfConn (read_full n c)
unfolding read_full
read_full-Ends n c =
    Ends-if c.closed (λ _. record { holds = (refl, refl) })
      (λ _. inbound-Ends n (gather n [] c.inbound) c (gather-Ends n [] c.inbound))

pub read-Ends : (n : ℕ) (c : Conn) → Ends (Takes 0 c) IsOfConn (read n c)
unfolding read
read-Ends n c =
    Ends-if c.closed (λ _. record { holds = (refl, refl) })
      (λ _.
        and_then-Ends _
          (inbound-Ends 0 (next_segment n c.inbound) c (next_segment-Ends n c.inbound))
          (λ a t h. record { holds = h }))

write_attempt-Ends :
    (failing : List Bool) (bytes : List ℕ) (c : Conn)
    → Ends (Takes 0 c) IsOfConn (write_attempt failing bytes c)
unfolding write_attempt
write_attempt-Ends [] bytes c = record { holds = omega arith }
write_attempt-Ends (false ∷ later) bytes c = record { holds = omega arith }
write_attempt-Ends (true ∷ later) bytes c = record { holds = (refl, refl) }

pub write-Ends : (bytes : List ℕ) (c : Conn) → Ends (Takes 0 c) IsOfConn (write bytes c)
unfolding write
write-Ends bytes c =
    Ends-if c.closed (λ _. record { holds = (refl, refl) })
      (λ _. write_attempt-Ends c.failing bytes c)

versioned-Ends :
    (b : Bool) (version msg : ℕ) (c : Conn)
    → Ends (Takes 0 c) IsOfConn (if b then ok msg else err (unexpected_version version), c)
versioned-Ends true version msg c = record { holds = omega arith }
versioned-Ends false version msg c = record { holds = (refl, refl) }

check_version-Ends : (buf : List ℕ) (c : Conn) → Ends (Takes 0 c) IsOfConn (check_version buf c)
check_version-Ends [] c = record { holds = (refl, refl) }
check_version-Ends (version ∷ []) c = record { holds = (refl, refl) }
check_version-Ends (version ∷ msg ∷ rest) c = versioned-Ends (version == version_v1) version msg c

pub read_msg-Ends : (c : Conn) → Ends (Takes 2 c) IsOfConn (read_msg c)
unfolding read_msg
read_msg-Ends c = and_then-Ends (read_full 2 c) (read_full-Ends 2 c) (λ buf t h.
    Ends-map (check_version buf t) (λ m v k. omega (arith, h, k)) (λ e v k. k)
      (check_version-Ends buf t))
