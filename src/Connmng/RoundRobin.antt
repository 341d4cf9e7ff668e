-- ===== src/Connmng/RoundRobin.antt =====
-- Which connection `GetConn` picks, and when its index is out of range.
use revdial.Common.{
  ℕ, zero, suc, ◌+◌, ◌-◌, ◌%◌, ◌≤◌, ◌<◌, ◌≡◌, ◌≢◌, refl, ap, sym, ◌∙◌, false, List, [], ◌∷◌, length,
  none, some, ◌==◌, get_elem?, arith, inl, inr, ◌⊎◌,
}
use revdial.Connmng.Manager.{
  ServerConn, ConnManager, got, nothing, out_of_range, add_loop, add_connection, remove_loop,
  remove_connection, get_conn, close,
}
use revdial.Connmng.Lookup.{find}
use native.Mathlib.Nat.{add-zero, mod-lt, mod-eq_of_lt, mod-add-mod}
use native.Mathlib.Decide.{dec_le, dec_lt}

-- The index that the next `GetConn` uses is in range, once there is a connection.
abbrev pub InRange : ConnManager → Type 0
InRange m = (m.current < length m.connections) ⊎ (m.current ≡ 0)

get_elem?-some :
    (xs : List ServerConn) (i : ℕ) → i < length xs → (c : ServerConn) × (get_elem? xs i ≡ some c)
get_elem?-some [] i h = absurd (omega arith)
get_elem?-some (x ∷ xs) zero h = (x, refl)
get_elem?-some (x ∷ xs) (suc i) h = get_elem?-some xs i (omega arith)

get_elem?-none : (xs : List ServerConn) (i : ℕ) → length xs ≤ i → get_elem? xs i ≡ none
get_elem?-none [] i h = refl
get_elem?-none (x ∷ xs) zero h = absurd (omega arith)
get_elem?-none (x ∷ xs) (suc i) h = get_elem?-none xs i (omega arith)

not_empty : (n : ℕ) → 0 < n → (n == 0) ≡ false
not_empty n h = ground arith

get_elem?-lt :
    (xs : List ServerConn) (i : ℕ) (c : ServerConn) → get_elem? xs i ≡ some c → i < length xs
get_elem?-lt [] i c e = ground arith
get_elem?-lt (x ∷ xs) zero c e = omega arith
get_elem?-lt (x ∷ xs) (suc i) c e = omega (arith, get_elem?-lt xs i c e)

-- One call with the index in range picks the connection there and moves the index round.
get_conn_at :
    (m : ConnManager) (c : ServerConn)
    → m.current < length m.connections
    → get_elem? m.connections m.current ≡ some c
    → get_conn m ≡ (got c, record m { current = (m.current + 1) % length m.connections })
unfolding get_conn
get_conn_at m c h e = simp (not_empty (length m.connections) (omega arith), e)

get_conn_past :
    (m : ConnManager)
    → 0 < length m.connections
    → length m.connections ≤ m.current
    → get_conn m ≡ (out_of_range, m)
unfolding get_conn
get_conn_past m h k =
    simp (not_empty (length m.connections) h, get_elem?-none m.connections m.current k)

-- The manager after k calls of `GetConn`.
unfoldable pub after_gets : ℕ → ConnManager → ConnManager
after_gets zero m = m
after_gets (suc k) m = after_gets k (get_conn m).1

after_gets_current :
    (k : ℕ) (m : ConnManager)
    → m.current < length m.connections
    → after_gets k m ≡ record m { current = (m.current + k) % length m.connections }
unfolding after_gets
after_gets_current zero m h =
    ap (λ i. record m { current = i }) (sym (rw add-zero (mod-eq_of_lt h)))
after_gets_current (suc k) m h =
    let (c, e) = get_elem?-some m.connections m.current h in
    let n : ℕ = length m.connections in
    ap (λ r. after_gets k r.1) (get_conn_at m c h e)
    ∙ after_gets_current k (record m { current = (m.current + 1) % n })
        (mod-lt (m.current + 1) (omega arith))
    ∙ ap (λ i. record m { current = i })
        (mod-add-mod (m.current + 1) n k ∙ ap (λ i. i % n) (omega arith))

-- With the index in range, the call after k calls of `GetConn` returns the connection at position
-- (current + k) mod the number of connections.
pub get_conn-round_robin :
    (m : ConnManager) (k : ℕ) (c : ServerConn)
    → m.current < length m.connections
    → get_elem? m.connections ((m.current + k) % length m.connections) ≡ some c
    → (get_conn (after_gets k m)).0 ≡ got c
get_conn-round_robin m k c h e = rw (after_gets_current k m h) (
    ap (λ r. r.0)
      (get_conn_at (record m { current = (m.current + k) % length m.connections }) c
        (mod-lt (m.current + k) (omega arith)) e))

mod_wrap : (x n : ℕ) → x < n → (x + n) % n ≡ x
mod_wrap x n h = grind arith

-- With the index in range, every connection is returned by one of as many consecutive calls as
-- there are connections.
pub get_conn-fair :
    (m : ConnManager) (i : ℕ) (c : ServerConn)
    → m.current < length m.connections
    → get_elem? m.connections i ≡ some c
    → (k : ℕ) × (k < length m.connections) × ((get_conn (after_gets k m)).0 ≡ got c)
get_conn-fair m i c h e =
    let n : ℕ = length m.connections in
    let b : i < n = get_elem?-lt m.connections i c e in
    elim (dec_le m.current i) [
      | yes p ↦ (
        i - m.current,
        omega arith,
        get_conn-round_robin m (i - m.current) c h
            (ap (get_elem? m.connections) (ap (λ x. x % n) (omega arith) ∙ mod-eq_of_lt b) ∙ e),
      )
      | no p ↦ (
        i + n - m.current,
        omega arith,
        get_conn-round_robin m (i + n - m.current) c h
            (ap (get_elem? m.connections) (ap (λ x. x % n) (omega arith) ∙ mod_wrap i n b) ∙ e),
      )
    ]

get_conn_empty : (m : ConnManager) → length m.connections ≡ 0 → get_conn m ≡ (nothing, m)
unfolding get_conn
get_conn_empty m h = simp h

-- If the index is in range, or 0, `GetConn` does not panic and keeps the index so.
pub get_conn-InRange :
    (m : ConnManager) → InRange m → InRange (get_conn m).1 × ((get_conn m).0 ≢ out_of_range)
get_conn-InRange m h = elim (dec_lt m.current (length m.connections)) [
  | yes p ↦
      let (c, e) = get_elem?-some m.connections m.current p in
      rw (get_conn_at m c p e) (inl (mod-lt (m.current + 1) (omega arith)), λ q. cc)
  | no p ↦ rw (get_conn_empty m (omega arith)) (h, λ q. cc)
]

length-add_loop :
    (serv : ServerConn) (conns : List ServerConn)
    → (length conns ≤ length (add_loop serv conns).0) × (0 < length (add_loop serv conns).0)
unfolding add_loop
length-add_loop serv [] = omega arith
length-add_loop serv (conn ∷ conns) = ground (arith, length-add_loop serv conns)

length-remove_loop :
    (gone : List ℕ) (conns : List ServerConn) (c : ServerConn)
    → find gone conns ≡ some c
    → length conns ≡ length (remove_loop gone conns).0 + 1
unfolding remove_loop find
length-remove_loop gone [] c e = ground arith
length-remove_loop gone (conn ∷ conns) c e = ground (arith, length-remove_loop gone conns c)

-- `AddConnection` keeps the index in range, or 0.
pub add_connection-InRange :
    (serv : ServerConn) (m : ConnManager) → InRange m → InRange (add_connection serv m)
unfolding add_connection
add_connection-InRange serv m (inl h) = inl (omega (arith, length-add_loop serv m.connections))
add_connection-InRange serv m (inr h) = inr h

-- `RemoveConnection` does not move the index back: where it stands on the last of two or more
-- connections, removing any identifier that is held makes the next `GetConn` panic.
pub remove_connection_panics :
    (gone : List ℕ) (m : ConnManager) (c : ServerConn)
    → find gone m.connections ≡ some c
    → m.current + 1 ≡ length m.connections
    → 2 ≤ length m.connections
    → (get_conn (remove_connection gone m)).0 ≡ out_of_range
unfolding remove_connection
remove_connection_panics gone m c e h k =
    let l = length-remove_loop gone m.connections c e in
    ap (λ r. r.0) (get_conn_past _ (omega arith) (omega arith))

-- Nor does `Close`: after it, with the index above 0, one connection added makes the next `GetConn`
-- panic.
pub close_panics :
    (serv : ServerConn) (m : ConnManager)
    → 0 < m.current
    → (get_conn (add_connection serv (close m).1)).0 ≡ out_of_range
unfolding close add_connection add_loop
close_panics serv m h = ap (λ r. r.0) (get_conn_past _ (omega arith) (omega arith))
