-- ===== src/Dialer/Runs.antt =====
-- Requests and connections in any order.
use revdial.Common.{
  bytes_eq_refl, ℕ, ◌≤◌, ◌≡◌, refl, Bool, not, ◌&&◌, ◌||◌, List, [], ◌∷◌, length, some, arith,
  ==_refl, Bool-cases, inl, inr,
}
use revdial.Dialer.Requests.{
  assign, take_out, Requests, no_requests, add_request, remove_request, take_request, release, send,
  sent_by, wait, cancel, has_room,
}
use revdial.Dialer.Delivery.{
  IsSingle, hit, no_requests-IsSingle, add-IsSingle, remove-IsSingle, take-IsSingle, released,
  send-IsSingle, wait-IsSingle,
}

-- What calls of `DialContext` and handlers of connections do from the start of a dialer: `dials` adds
-- a request, `fails` is the return where the command could not be sent, `waits` the `select` of a
-- call; `comes` is a bound connection that looks for its request, `sends` the `select` of its
-- handler; `cancels` ends a context.
pub data Reached : Requests → Type 0 where
  begins : Reached no_requests
  dials : {r : Requests} (id : List ℕ) → Reached r → Reached (add_request id r).1
  fails : {r : Requests} (id : List ℕ) → Reached r → Reached (remove_request id r).1
  waits :
      {r : Requests} (pick : Bool) (id : List ℕ) (n : ℕ) → Reached r → Reached (wait pick id n r).1
  comes : {r : Requests} (conn : ℕ) (id : List ℕ) → Reached r → Reached (take_request conn id r)
  sends :
      {r : Requests} (stop pick : Bool) (conn n : ℕ) → Reached r → Reached (send stop pick conn n r)
  cancels : {r : Requests} (n : ℕ) → Reached r → Reached (cancel n r)

Reached-IsSingle : {r : Requests} → Reached r → IsSingle r
Reached-IsSingle begins = no_requests-IsSingle
Reached-IsSingle (dials id h) = add-IsSingle id _ (Reached-IsSingle h)
Reached-IsSingle (fails id h) = remove-IsSingle id _ (Reached-IsSingle h)
Reached-IsSingle (waits pick id n h) = wait-IsSingle pick id n _ (Reached-IsSingle h)
Reached-IsSingle (comes conn id h) = take-IsSingle conn id _ (Reached-IsSingle h)
Reached-IsSingle (sends stop pick conn n h) = send-IsSingle stop pick conn n _ (Reached-IsSingle h)
Reached-IsSingle (cancels n h) =
    let s = Reached-IsSingle h in record { once = s.once; fresh = s.fresh; buffered = s.buffered }

-- However calls and handlers interleave, and whatever ids they use, no request is ever sent more than
-- one connection.
pub Reached-once : (r : Requests) → Reached r → (k : ℕ) → r.deliveries k ≤ 1
Reached-once r h k = let s = Reached-IsSingle h in omega (arith, s.once k)

empty_of_length : (xs : List ℕ) → length xs ≤ 0 → xs ≡ []
empty_of_length [] h = refl
empty_of_length (x ∷ xs) h = absurd (omega arith)

sent_by_empty :
    (hs : List (ℕ × ℕ)) (stop pick : Bool) (conn n : ℕ) (r : Requests)
    → r.channel n ≡ []
    → (sent_by (some hs) stop pick conn n r).handlers ≡ hs
sent_by_empty hs stop pick conn n r e =
    elim (Bool-cases ((stop || r.cancelled n) && (pick || not (has_room n r)))) [
      | inl c ↦ rw c refl
      | inr c ↦ rw (c, e) refl
    ]

-- In every state that is reached a handler that has taken a request finds the request's channel empty
-- and never waits: its `select` ends at once, whichever case it takes.
pub send-ends :
    (r : Requests) (stop pick : Bool) (conn n : ℕ) (hs : List (ℕ × ℕ))
    → Reached r
    → release conn n r.handlers ≡ some hs
    → (r.channel n ≡ []) × ((send stop pick conn n r).handlers ≡ hs)
unfolding send
send-ends r stop pick conn n hs h e =
    let s = Reached-IsSingle h in
    let q : hit n n ≡ 1 = rw (==_refl n) refl in
    let l = released conn n r.handlers hs e n in
    let empty : r.channel n ≡ [] =
      empty_of_length (r.channel n) (omega (arith, s.once n, s.buffered n, l, q)) in
    (empty, rw e (sent_by_empty hs stop pick conn n r empty))

found_last :
    (id : List ℕ) (n : ℕ) (t : List (List ℕ × ℕ)) → (take_out id (assign id n t)).0 ≡ some n
unfolding take_out assign
found_last id n [] = rw (bytes_eq_refl id)
found_last id n ((i, m) ∷ t) = ground (arith, found_last id n t, bytes_eq_refl id)

-- A request that was just made is found under its id, and nothing was sent to it.
pub added_request :
    (id : List ℕ) (r : Requests)
    → Reached r
    → let a = add_request id r in ((remove_request id a.1).0 ≡ some a.0) × (a.1.channel a.0 ≡ [])
unfolding add_request remove_request
added_request id r h =
    let s = Reached-IsSingle h in
    (
      found_last id r.made r.table,
      empty_of_length (r.channel r.made)
          (omega (arith, s.fresh r.made (omega arith), s.buffered r.made)),
    )
