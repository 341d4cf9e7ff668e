-- ===== src/Proto/Conn/Laws.antt =====
-- What the reads and writes of a connection do on the inputs that the protocol sends.
use revdial.Common.{
  ℕ, suc, ◌-◌, ◌≡◌, refl, ap, false, List, [], ◌∷◌, ◌++◌, length, ok, arith, append-nil,
  append_assoc, take-append, drop-append,
}
use revdial.Proto.Static.{version_v1}
use revdial.Proto.Conn.{Conn, padded, read, gather, read_full, read_msg, send_request}

-- A connection that is open and whose writes all succeed.
abbrev pub healthy : List (List ℕ) → List (List ℕ) → Conn
healthy inbound outbound = record {
  inbound = inbound;
  outbound = outbound;
  closed = false;
  failing = [];
}

padded_full : (n : ℕ) (got : List ℕ) → length got ≡ n → padded n got ≡ got
padded_full n got h = let e : n - length got ≡ 0 = omega arith in rw e (append-nil got)

-- One `Read` takes what it asks for where a segment has that much.
pub read_lem :
    (n : ℕ) (xs ys : List ℕ) (segs out : List (List ℕ))
    → length xs ≡ suc n
    → read (suc n) (healthy ((xs ++ ys) ∷ segs) out) ≡ (ok xs, healthy (ys ∷ segs) out)
unfolding read
read_lem n [] ys segs out h = absurd (omega arith)
read_lem n (x ∷ xs) ys segs out h =
    let e : length xs ≡ n = omega arith in
    rw (take-append n xs ys e, drop-append n xs ys e)
      (ap (λ got. (ok got, healthy (ys ∷ segs) out)) (padded_full (suc n) (x ∷ xs) h))

gather_lem :
    (xs got ys : List ℕ) (segs : List (List ℕ))
    → gather (length xs) got ((xs ++ ys) ∷ segs) ≡ (ok (got ++ xs), ys ∷ segs)
unfolding gather
gather_lem [] got ys segs = rw append-nil
gather_lem (x ∷ xs) got ys segs = rw (gather_lem xs (got ++ x ∷ []) ys segs, append_assoc)

-- `ReadFull` too.
pub read_full_lem :
    (xs ys : List ℕ) (segs out : List (List ℕ))
    → read_full (length xs) (healthy ((xs ++ ys) ∷ segs) out) ≡ (ok xs, healthy (ys ∷ segs) out)
unfolding read_full
read_full_lem xs ys segs out = rw (gather_lem xs [] ys segs)

pub read_msg_lem :
    (m : ℕ) (ys : List ℕ) (segs out : List (List ℕ))
    → read_msg (healthy ((version_v1 ∷ m ∷ ys) ∷ segs) out) ≡ (ok m, healthy (ys ∷ segs) out)
unfolding read_msg
read_msg_lem m ys segs out = refl

pub send_request_lem :
    (req : List ℕ) (m : ℕ) (ys : List ℕ) (segs out : List (List ℕ))
    → send_request req (healthy ((version_v1 ∷ m ∷ ys) ∷ segs) out)
      ≡ (ok m, healthy (ys ∷ segs) (out ++ (version_v1 ∷ req) ∷ []))
unfolding send_request
send_request_lem req m ys segs out = refl

-- A buffer of sixteen bytes takes the whole of a UUID.
pub read_uuid :
    (id : List ℕ) (segs out : List (List ℕ))
    → length id ≡ 16
    → read 16 (healthy (id ∷ segs) out) ≡ (ok id, healthy ([] ∷ segs) out)
read_uuid id segs out h = rw append-nil at (read_lem 15 id [] segs out h)

-- One that a nonempty name or password fills.
pub read_exact :
    (x : ℕ) (xs ys : List ℕ) (segs out : List (List ℕ))
    → read (suc (length xs)) (healthy ((x ∷ xs ++ ys) ∷ segs) out)
      ≡ (ok (x ∷ xs), healthy (ys ∷ segs) out)
read_exact x xs ys segs out = read_lem (length xs) (x ∷ xs) ys segs out refl

pub read_rest :
    (x : ℕ) (xs : List ℕ) (segs out : List (List ℕ))
    → read (suc (length xs)) (healthy ((x ∷ xs) ∷ segs) out)
      ≡ (ok (x ∷ xs), healthy ([] ∷ segs) out)
read_rest x xs segs out = rw append-nil at (read_exact x xs [] segs out)

pub read_one :
    (b : ℕ) (ys : List ℕ) (segs out : List (List ℕ))
    → read 1 (healthy ((b ∷ ys) ∷ segs) out) ≡ (ok (b ∷ []), healthy (ys ∷ segs) out)
unfolding read
read_one b ys segs out = refl
