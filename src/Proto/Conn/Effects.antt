-- ===== src/Proto/Conn/Effects.antt =====
-- What a call on a connection leaves as it was: no read or write closes it, and a read writes
-- nothing.
use revdial.Common.{
  ℕ, ◌≡◌, refl, ◌∙◌, Bool, true, false, List, [], ◌∷◌, ◌++◌, ok, err, Result, Ends, Ends-if,
  Ends-map, Ends-all, and_then-Ends, if◌then◌else◌, ◌==◌, ◌⊎◌, inl, inr,
}
use revdial.Proto.Static.{version_v1}
use revdial.Proto.Failure.{Error, unexpected_version}
use revdial.Proto.Conn.{
  Conn, read, read_full, write, write_attempt, read_msg, send_request, check_version, next_segment,
  gather,
}

-- A call that only reads.
abbrev pub OnlyReads : {A : Type 0} → Conn → A → Conn → Type 0
OnlyReads c a t = (t.closed ≡ c.closed) × (t.outbound ≡ c.outbound)

abbrev pub Writes : {A : Type 0} → List ℕ → Conn → A → Conn → Type 0
Writes bytes c a t = (t.closed ≡ c.closed) × (t.outbound ≡ c.outbound ++ bytes ∷ [])

inbound-OnlyReads :
    {A : Type 0} (r : Result Error A × List (List ℕ)) (c : Conn)
    → Ends (OnlyReads c) (OnlyReads c) (r.0, record c { inbound = r.1 })
inbound-OnlyReads r c =
    Ends-all (r.0, record c { inbound = r.1 }) (λ _. (refl, refl)) λ _. (refl, refl)

pub read_full-OnlyReads : (n : ℕ) (c : Conn) → Ends (OnlyReads c) (OnlyReads c) (read_full n c)
unfolding read_full
read_full-OnlyReads n c =
    Ends-if c.closed (λ _. record { holds = (refl, refl) })
      λ _. inbound-OnlyReads (gather n [] c.inbound) c

pub read-OnlyReads : (n : ℕ) (c : Conn) → Ends (OnlyReads c) (OnlyReads c) (read n c)
unfolding read
read-OnlyReads n c =
    Ends-if c.closed (λ _. record { holds = (refl, refl) })
      λ _.
        and_then-Ends _ (inbound-OnlyReads (next_segment n c.inbound) c)
          λ got t h. record { holds = h }

check_version-OnlyReads :
    (buf : List ℕ) (c : Conn) → Ends (OnlyReads c) (OnlyReads c) (check_version buf c)
check_version-OnlyReads [] c = record { holds = (refl, refl) }
check_version-OnlyReads (version ∷ []) c = record { holds = (refl, refl) }
check_version-OnlyReads (version ∷ msg ∷ rest) c =
    Ends-all (if version == version_v1 then ok msg else err (unexpected_version version), c)
      (λ _. (refl, refl)) λ _. (refl, refl)

pub read_msg-OnlyReads : (c : Conn) → Ends (OnlyReads c) (OnlyReads c) (read_msg c)
unfolding read_msg
read_msg-OnlyReads c = and_then-Ends (read_full 2 c) (read_full-OnlyReads 2 c) λ buf t h.
    Ends-map (check_version buf t) (λ _ _ k. (k.0 ∙ h.0, k.1 ∙ h.1))
      (λ _ _ k. (k.0 ∙ h.0, k.1 ∙ h.1)) (check_version-OnlyReads buf t)

write_attempt-Writes :
    (failing : List Bool) (bytes : List ℕ) (c : Conn)
    → Ends (Writes bytes c) (OnlyReads c) (write_attempt failing bytes c)
unfolding write_attempt
write_attempt-Writes [] bytes c = record { holds = (refl, refl) }
write_attempt-Writes (false ∷ later) bytes c = record { holds = (refl, refl) }
write_attempt-Writes (true ∷ later) bytes c = record { holds = (refl, refl) }

-- A write sends its bytes once, or fails and sends nothing.
pub write-Writes : (bytes : List ℕ) (c : Conn) → Ends (Writes bytes c) (OnlyReads c) (write bytes c)
unfolding write
write-Writes bytes c =
    Ends-if c.closed (λ _. record { holds = (refl, refl) })
      λ _. write_attempt-Writes c.failing bytes c

-- A request is sent as one frame, or not at all.
abbrev pub SendsOrNot : {A : Type 0} → List ℕ → Conn → A → Conn → Type 0
SendsOrNot req c a t =
    (t.outbound ≡ c.outbound) ⊎ (t.outbound ≡ c.outbound ++ (version_v1 ∷ req) ∷ [])

pub send_request-SendsOrNot :
    (req : List ℕ) (c : Conn) → Ends (SendsOrNot req c) (SendsOrNot req c) (send_request req c)
unfolding send_request
send_request-SendsOrNot req c =
    and_then-Ends {P = Writes (version_v1 ∷ req) c} (write (version_v1 ∷ req) c)
      (Ends-map _ (λ _ _ h. h) (λ _ _ h. inl h.1) (write-Writes (version_v1 ∷ req) c))
      λ _ t h.
        Ends-map (read_msg t) (λ _ _ k. inr (k.1 ∙ h.1)) (λ _ _ k. inr (k.1 ∙ h.1))
          (read_msg-OnlyReads t)

-- What is read was read from an open connection.
abbrev pub IsOpen : {A : Type 0} → A → Conn → Type 0
IsOpen a t = t.closed ≡ false

abbrev Anyhow : Error → Conn → Type 0
Anyhow e t = Unit {0}

read_full-IsOpen : (n : ℕ) (c : Conn) → Ends IsOpen Anyhow (read_full n c)
unfolding read_full
read_full-IsOpen n c =
    Ends-if c.closed (λ _. record { holds = tt })
      λ live.
        Ends-all (let r = gather n [] c.inbound in (r.0, record c { inbound = r.1 })) (λ _. live)
          λ _. tt

pub read_msg-IsOpen : (c : Conn) → Ends IsOpen Anyhow (read_msg c)
unfolding read_msg
read_msg-IsOpen c = and_then-Ends (read_full 2 c) (read_full-IsOpen 2 c) λ buf t h.
    Ends-map (check_version buf t) (λ _ _ k. k.0 ∙ h) (λ _ _ _. tt) (check_version-OnlyReads buf t)
