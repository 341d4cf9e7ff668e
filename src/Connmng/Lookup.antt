-- ===== src/Connmng/Lookup.antt =====
-- The manager as a dictionary from identifiers to connections.
use revdial.Common.{
  ℕ, ◌≡◌, refl, ap, sym, subst, ◌∙◌, true, false, List, [], ◌∷◌, ◌++◌, Option, none, some,
  if◌then◌else◌, bytes_eq, bytes_eq_sound, bytes_eq_refl, arith, Bool-cases, inl, inr,
}
use revdial.Connmng.Manager.{
  ServerConn, ConnManager, add_loop, add_connection, remove_loop, remove_connection,
}

-- The first connection with an identifier.
unfoldable pub find : List ℕ → List ServerConn → Option ServerConn
find id [] = none
find id (conn ∷ conns) = if bytes_eq conn.id id then some conn else find id conns

-- No two connections have one identifier.
abbrev pub Distinct : List ServerConn → Type 0
Distinct [] = Unit {0}
Distinct (conn ∷ conns) = (find conn.id conns ≡ none) × Distinct conns

bytes_eq_same : (a b c : List ℕ) → bytes_eq a b ≡ true → bytes_eq a c ≡ bytes_eq b c
bytes_eq_same a b c e = rw (bytes_eq_sound a b e)

find-add_loop :
    (id : List ℕ) (serv : ServerConn) (conns : List ServerConn)
    → find id (add_loop serv conns).0 ≡ (if bytes_eq serv.id id then some serv else find id conns)
unfolding find add_loop
find-add_loop id serv [] = refl
find-add_loop id serv (conn ∷ conns) = elim (Bool-cases (bytes_eq conn.id serv.id)) [
  | inl e ↦ rw (e, bytes_eq_same conn.id serv.id id e) (ground arith)
  | inr e ↦ rw e (
      ground (
        arith,
        find-add_loop id serv conns,
        bytes_eq_sound conn.id id,
        bytes_eq_sound serv.id id,
        bytes_eq_refl id,
      ))
]

bytes_eq_comm : (a b : List ℕ) → bytes_eq a b ≡ bytes_eq b a
bytes_eq_comm [] [] = refl
bytes_eq_comm [] (b ∷ ys) = refl
bytes_eq_comm (a ∷ xs) [] = refl
bytes_eq_comm (a ∷ xs) (b ∷ ys) = ground (arith, bytes_eq_comm xs ys)

find-remove_loop :
    (id gone : List ℕ) (conns : List ServerConn)
    → Distinct conns
    → find id (remove_loop gone conns).0 ≡ (if bytes_eq gone id then none else find id conns)
unfolding find remove_loop
find-remove_loop id gone [] d = ground arith
find-remove_loop id gone (conn ∷ conns) d = elim (Bool-cases (bytes_eq conn.id gone)) [
  | inl e ↦ elim (Bool-cases (bytes_eq gone id)) [
    | inl f ↦
        rw (e, f)
          (subst (λ k. find k conns ≡ none) (bytes_eq_sound _ _ e ∙ bytes_eq_sound _ _ f) d.0)
    | inr f ↦ rw (e, f, bytes_eq_same conn.id gone id e, f)
  ]
  | inr e ↦ elim (Bool-cases (bytes_eq gone id)) [
    | inl f ↦
        let g : bytes_eq conn.id id ≡ false =
          ap (bytes_eq conn.id) (sym (bytes_eq_sound gone id f)) ∙ e in
        rw (e, f, g)
          (find-remove_loop id gone conns d.1 ∙ ap (λ b. if b then none else find id conns) f)
    | inr f ↦
        rw (e, f)
          (ap (λ r. if bytes_eq conn.id id then some conn else r)
            (find-remove_loop id gone conns d.1 ∙ ap (λ b. if b then none else find id conns) f))
  ]
]

add_loop-Distinct :
    (serv : ServerConn) (conns : List ServerConn)
    → Distinct conns
    → Distinct (add_loop serv conns).0
unfolding find add_loop
add_loop-Distinct serv [] d = (refl, tt)
add_loop-Distinct serv (conn ∷ conns) d = elim (Bool-cases (bytes_eq conn.id serv.id)) [
  | inl e ↦ rw e (subst (λ k. find k conns ≡ none) (bytes_eq_sound _ _ e) d.0, d.1)
  | inr e ↦ rw e (
    find-add_loop conn.id serv conns ∙ rw (bytes_eq_comm serv.id conn.id, e) d.0,
    add_loop-Distinct serv conns d.1,
  )
]

find-none-remove_loop :
    (id gone : List ℕ) (conns : List ServerConn)
    → Distinct conns
    → find id conns ≡ none
    → find id (remove_loop gone conns).0 ≡ none
find-none-remove_loop id gone conns d e = rw (find-remove_loop id gone conns d, e) (ground arith)

remove_loop-Distinct :
    (gone : List ℕ) (conns : List ServerConn) → Distinct conns → Distinct (remove_loop gone conns).0
unfolding find remove_loop
remove_loop-Distinct gone [] d = tt
remove_loop-Distinct gone (conn ∷ conns) d = elim (Bool-cases (bytes_eq conn.id gone)) [
  | inl e ↦ rw e d.1
  | inr e ↦
      rw e (find-none-remove_loop conn.id gone conns d.1 d.0, remove_loop-Distinct gone conns d.1)
]

abbrev pub held : Option ServerConn → List ℕ
held none = []
held (some conn) = conn.handle ∷ []

add_loop_closes :
    (serv : ServerConn) (conns : List ServerConn)
    → (add_loop serv conns).1 ≡ held (find serv.id conns)
unfolding find add_loop
add_loop_closes serv [] = refl
add_loop_closes serv (conn ∷ conns) = ground (arith, add_loop_closes serv conns)

remove_loop_closes :
    (gone : List ℕ) (conns : List ServerConn) → (remove_loop gone conns).1 ≡ held (find gone conns)
unfolding find remove_loop
remove_loop_closes gone [] = refl
remove_loop_closes gone (conn ∷ conns) = ground (arith, remove_loop_closes gone conns)

-- `AddConnection` keeps identifiers distinct, puts the new connection under its identifier, leaves the
-- others, and closes exactly the connection that it replaces.
pub add_connection_lem :
    (serv : ServerConn) (m : ConnManager) (id : List ℕ)
    → Distinct m.connections
    → Distinct (add_connection serv m).connections
      × (find id (add_connection serv m).connections
          ≡ (if bytes_eq serv.id id then some serv else find id m.connections))
      × ((add_connection serv m).closed ≡ m.closed ++ held (find serv.id m.connections))
unfolding add_connection
add_connection_lem serv m id d = (
  add_loop-Distinct serv m.connections d,
  find-add_loop id serv m.connections,
  ap (◌++◌ m.closed) (add_loop_closes serv m.connections),
)

-- `RemoveConnection` keeps identifiers distinct, takes away what stands under the identifier and
-- closes it, and leaves the others.
pub remove_connection_lem :
    (gone : List ℕ) (m : ConnManager) (id : List ℕ)
    → Distinct m.connections
    → Distinct (remove_connection gone m).connections
      × (find id (remove_connection gone m).connections
          ≡ (if bytes_eq gone id then none else find id m.connections))
      × ((remove_connection gone m).closed ≡ m.closed ++ held (find gone m.connections))
unfolding remove_connection
remove_connection_lem gone m id d = (
  remove_loop-Distinct gone m.connections d,
  find-remove_loop id gone m.connections d,
  ap (◌++◌ m.closed) (remove_loop_closes gone m.connections),
)
