-- ===== src/Dialer/Delivery.antt =====
-- No request is sent more than one connection.
use mathlib.Core.Option.{some-injective}
use revdial.Common.{
  ℕ, ◌+◌, ◌≤◌, ◌≡◌, refl, ap, sym, ◌∙◌, Bool, true, false, not, ◌&&◌, ◌||◌, List, [], ◌∷◌, ◌++◌,
  length, Option, none, some, if◌then◌else◌, ◌==◌, arith, Bool-cases, Option-cases, inl, inr, ◌⊎◌,
  length-append, subst, ==_iff, ==_refl,
}
use revdial.Dialer.Requests.{
  Requests, no_requests, at, assign, take_out, add_request, remove_request, matched, take_request,
  release, has_room, sent_by, send, Dialled, received, wait, is_empty,
}

abbrev pub hit : ℕ → ℕ → ℕ
hit k n = if n == k then 1 else 0

abbrev pub in_table : ℕ → List (List ℕ × ℕ) → ℕ
in_table k [] = 0
in_table k ((i, n) ∷ t) = hit k n + in_table k t

abbrev pub in_handlers : ℕ → List (ℕ × ℕ) → ℕ
in_handlers k [] = 0
in_handlers k ((c, n) ∷ hs) = hit k n + in_handlers k hs

-- Where a request can be: in the table, with handlers, and sent.
abbrev pub uses : ℕ → Requests → ℕ
uses k r = in_table k r.table + in_handlers k r.handlers + r.deliveries k

assign_lem :
    (k : ℕ) (id : List ℕ) (n : ℕ) (t : List (List ℕ × ℕ))
    → in_table k (assign id n t) ≤ in_table k t + hit k n
unfolding assign
assign_lem k id n [] = ground arith
assign_lem k id n ((i, m) ∷ t) = ground (arith, assign_lem k id n t)

abbrev taken : ℕ → Option ℕ → ℕ
taken k none = 0
taken k (some n) = hit k n

take_out_lem :
    (k : ℕ) (id : List ℕ) (t : List (List ℕ × ℕ))
    → in_table k (take_out id t).1 + taken k (take_out id t).0 ≡ in_table k t
unfolding take_out
take_out_lem k id [] = refl
take_out_lem k id ((i, m) ∷ t) = ground (arith, take_out_lem k id t)

same_hit : (k c conn m n : ℕ) → (c == conn && m == n) ≡ true → hit k m ≡ hit k n
same_hit k c conn m n h = ground arith

release-cases :
    (k conn n : ℕ) (hs : List (ℕ × ℕ))
    → (release conn n hs ≡ none)
      ⊎ ((rest : List (ℕ × ℕ)) × (release conn n hs ≡ some rest)
          × (in_handlers k hs ≡ in_handlers k rest + hit k n))
unfolding release
release-cases k conn n [] = inl refl
release-cases k conn n ((c, m) ∷ hs) = elim (Bool-cases (c == conn && m == n)) [
  | inl h ↦ inr (hs, rw h refl, let e = same_hit k c conn m n h in omega arith)
  | inr h ↦ elim (release-cases k conn n hs) [
    | inl e ↦ inl (rw (h, e) refl)
    | inr (rest, e, l) ↦ inr ((c, m) ∷ rest, rw (h, e) refl, omega arith)
  ]
]

-- Each request is in one place at most, one that is not made yet is nowhere, and a channel holds no
-- more than was sent to it.
pub record IsSingle (r : Requests) : Type 0 where
  pub once : (k : ℕ) → uses k r ≤ 1
  pub fresh : (k : ℕ) → r.made ≤ k → uses k r ≡ 0
  pub buffered : (k : ℕ) → length (r.channel k) ≤ r.deliveries k

pub no_requests-IsSingle : IsSingle no_requests
no_requests-IsSingle = record {
  once = λ k. omega arith;
  fresh = λ k h. refl;
  buffered = λ k. omega arith;
}

pub add-IsSingle : (id : List ℕ) (r : Requests) → IsSingle r → IsSingle (add_request id r).1
unfolding add_request
add-IsSingle id r h = record {
  once = λ k. ground (arith, assign_lem k id r.made r.table, h.once k, h.fresh k);
  fresh = λ k l. ground (arith, assign_lem k id r.made r.table, h.fresh k);
  buffered = h.buffered;
}

-- The table shrinks, and nothing else changes.
pub remove-IsSingle : (id : List ℕ) (r : Requests) → IsSingle r → IsSingle (remove_request id r).1
unfolding remove_request
remove-IsSingle id r h = record {
  once = λ k. omega (arith, take_out_lem k id r.table, h.once k);
  fresh = λ k l. omega (arith, take_out_lem k id r.table, h.fresh k l);
  buffered = h.buffered;
}

matched-IsSingle :
    (conn : ℕ) (o : Option ℕ) (t : List (List ℕ × ℕ)) (r : Requests)
    → ((k : ℕ) → in_table k t + taken k o ≡ in_table k r.table)
    → IsSingle r
    → IsSingle (matched conn (o, record r { table = t }))
matched-IsSingle conn none t r l h = record {
  once = λ k. omega (arith, l k, h.once k);
  fresh = λ k m. omega (arith, l k, h.fresh k m);
  buffered = h.buffered;
}
matched-IsSingle conn (some n) t r l h = record {
  once = λ k. omega (arith, l k, h.once k);
  fresh = λ k m. omega (arith, l k, h.fresh k m);
  buffered = h.buffered;
}

pub take-IsSingle :
    (conn : ℕ) (id : List ℕ) (r : Requests) → IsSingle r → IsSingle (take_request conn id r)
unfolding take_request remove_request
take-IsSingle conn id r h =
    matched-IsSingle conn (take_out id r.table).0 (take_out id r.table).1 r
      (λ k. take_out_lem k id r.table) h

if-IsSingle : (b : Bool) (r t : Requests) → IsSingle r → IsSingle t → IsSingle (if b then r else t)
if-IsSingle true r t h k = h
if-IsSingle false r t h k = k

-- A property of all requests from the one written and the others.
at_rule :
    (P : ℕ → Type 0) (n : ℕ)
    → P n
    → ((k : ℕ) → (k == n) ≡ false → (n == k) ≡ false → P k)
    → (k : ℕ) → P k
at_rule P n h rest k = elim (Bool-cases (k == n)) [
  | inl e ↦ let q : k ≡ n = (==_iff k n).0 e in subst P (sym q) h
  | inr e ↦ rest k e (ground arith)
]

at-deliveries : (k n : ℕ) (f : ℕ → ℕ) → at n (f n + 1) f k ≡ f k + hit k n
at-deliveries k n f =
    at_rule (λ k. at n (f n + 1) f k ≡ f k + hit k n) n (rw (==_refl n) refl)
      (λ k e q. simp (e, q) (omega arith)) k

at-buffered :
    (k n conn : ℕ) (f : ℕ → List ℕ) (g : ℕ → ℕ)
    → length (f k) ≤ g k
    → length (at n (f n ++ conn ∷ []) f k) ≤ at n (g n + 1) g k
at-buffered k n conn f g h =
    at_rule (λ k. length (f k) ≤ g k → length (at n (f n ++ conn ∷ []) f k) ≤ at n (g n + 1) g k) n
      (λ l. simp (==_refl n) (omega (arith, l, length-append (f n) (conn ∷ []))))
      (λ k e q l. simp e l) k h

sent_by-IsSingle :
    (hs : List (ℕ × ℕ)) (stop pick : Bool) (conn n : ℕ) (r : Requests)
    → ((k : ℕ) → in_handlers k r.handlers ≡ in_handlers k hs + hit k n)
    → IsSingle r
    → IsSingle (sent_by (some hs) stop pick conn n r)
sent_by-IsSingle hs stop pick conn n r l h =
    if-IsSingle ((stop || r.cancelled n) && (pick || not (has_room n r))) _ _
      (record {
        once = λ k. omega (arith, l k, h.once k);
        fresh = λ k m. omega (arith, l k, h.fresh k m);
        buffered = h.buffered;
      })
      (if-IsSingle (has_room n r) _ _
        (record {
          once = λ k. omega (arith, l k, h.once k, at-deliveries k n r.deliveries);
          fresh = λ k m. omega (arith, l k, h.fresh k m, at-deliveries k n r.deliveries);
          buffered = λ k. at-buffered k n conn r.channel r.deliveries (h.buffered k);
        })
        h)

pub released :
    (conn n : ℕ) (hs rest : List (ℕ × ℕ))
    → release conn n hs ≡ some rest
    → (k : ℕ) → in_handlers k hs ≡ in_handlers k rest + hit k n
released conn n hs rest e k = elim (release-cases k conn n hs) [
  | inl q ↦ ground arith
  | inr (rest', q, l) ↦
      let same : rest' ≡ rest = some-injective rest' rest (sym q ∙ e) in
      subst (λ t. in_handlers k hs ≡ in_handlers k t + hit k n) same l
]

pub send-IsSingle :
    (stop pick : Bool) (conn n : ℕ) (r : Requests) → IsSingle r → IsSingle (send stop pick conn n r)
unfolding send
send-IsSingle stop pick conn n r h = elim (Option-cases (release conn n r.handlers)) [
  | inl e ↦ rw e h
  | inr (hs, e) ↦ rw e (sent_by-IsSingle hs stop pick conn n r (released conn n r.handlers hs e) h)
]

received-IsSingle :
    (l : List ℕ) (id : List ℕ) (n : ℕ) (r : Requests)
    → r.channel n ≡ l
    → IsSingle r
    → IsSingle (received l id n r).1
received-IsSingle [] id n r e h = h
received-IsSingle (conn ∷ rest) id n r e h = remove-IsSingle id _ (record {
  once = h.once;
  fresh = h.fresh;
  buffered =
      at_rule (λ k. length (at n rest r.channel k) ≤ r.deliveries k) n
        (simp (==_refl n) (omega (arith, h.buffered n, ap length e)))
        (λ k q p. simp q (h.buffered k));
})

if-IsSingle_state :
    (b : Bool) (x y : Dialled × Requests)
    → IsSingle x.1
    → IsSingle y.1
    → IsSingle (if b then x else y).1
if-IsSingle_state true x y h k = h
if-IsSingle_state false x y h k = k

pub wait-IsSingle :
    (pick : Bool) (id : List ℕ) (n : ℕ) (r : Requests) → IsSingle r → IsSingle (wait pick id n r).1
unfolding wait
wait-IsSingle pick id n r h =
    if-IsSingle_state (r.cancelled n && (pick || is_empty (r.channel n))) _ _
      (remove-IsSingle id r h) (received-IsSingle (r.channel n) id n r refl h)
