-- ===== src/Connmng/Getting.antt =====
-- What `GetConn` gives, and what it leaves alone.
use mathlib.Core.Option.{some-injective}
use revdial.Common.{
  All, ℕ, zero, suc, ◌≡◌, refl, ap, sym, ◌∙◌, Bool, true, false, List, [], ◌∷◌, length, get_elem?,
  Option, none, some, if◌then◌else◌, ◌==◌, bytes_eq, bytes_eq_sound, bytes_eq_refl, Bool-cases, inl,
  inr,
}
use revdial.Connmng.Manager.{ServerConn, ConnManager, got, nothing, get_conn, indexed}
use revdial.Connmng.Lookup.{find, Distinct}

indexed-keeps :
    (o : Option ServerConn) (m : ConnManager)
    → ((indexed o m).1.connections ≡ m.connections) × ((indexed o m).1.closed ≡ m.closed)
indexed-keeps none m = (refl, refl)
indexed-keeps (some conn) m = (refl, refl)

pub get_conn-keeps :
    (m : ConnManager)
    → ((get_conn m).1.connections ≡ m.connections) × ((get_conn m).1.closed ≡ m.closed)
unfolding get_conn
get_conn-keeps m = elim (Bool-cases (length m.connections == 0)) [
  | inl e ↦ rw e (refl, refl)
  | inr e ↦ rw e (indexed-keeps (get_elem? m.connections m.current) m)
]

-- An element of the slice is what its id finds.
find-get_elem? :
    (conns : List ServerConn) (i : ℕ) (conn : ServerConn)
    → Distinct conns
    → get_elem? conns i ≡ some conn
    → find conn.id conns ≡ some conn
unfolding find
find-get_elem? [] i conn d e = absurd cc
find-get_elem? (first ∷ conns) zero conn d e =
    let same : first ≡ conn = some-injective first conn e in rw (sym same, bytes_eq_refl first.id)
find-get_elem? (first ∷ conns) (suc i) conn d e =
    let rest = find-get_elem? conns i conn d.1 e in
    elim (Bool-cases (bytes_eq first.id conn.id)) [
      | inl same ↦
          absurd
            (let none_too = ap (λ id. find id conns) (sym (bytes_eq_sound _ _ same)) ∙ d.0 in cc)
      | inr other ↦ rw other rest
    ]

got-indexed :
    (o : Option ServerConn) (m : ConnManager) (conn : ServerConn)
    → (indexed o m).0 ≡ got conn
    → o ≡ some conn
got-indexed none m conn e = absurd cc
got-indexed (some found) m conn e = cc

got-chosen :
    (b : Bool) (o : Option ServerConn) (m : ConnManager) (conn : ServerConn)
    → (if b then (nothing, m) else indexed o m).0 ≡ got conn
    → o ≡ some conn
got-chosen true o m conn e = absurd cc
got-chosen false o m conn e = got-indexed o m conn e

-- What `GetConn` gives stands under its id.
pub got-find :
    (m : ConnManager) (conn : ServerConn)
    → Distinct m.connections
    → (get_conn m).0 ≡ got conn
    → find conn.id m.connections ≡ some conn
unfolding get_conn
got-find m conn d e =
    find-get_elem? m.connections m.current conn d
      (got-chosen (length m.connections == 0) (get_elem? m.connections m.current) m conn e)

-- Nothing is under any id: the slice is empty.
pub nothing_held : (conns : List ServerConn) → ((id : List ℕ) → find id conns ≡ none) → conns ≡ []
unfolding find
nothing_held [] h = refl
nothing_held (conn ∷ conns) h = absurd (
    let held = h conn.id in
    let found : find conn.id (conn ∷ conns) ≡ some conn = rw (bytes_eq_refl conn.id) refl in cc)

-- What holds of every connection that its id finds holds of all.
pub found-All :
    (P : ServerConn → Type 0) (conns : List ServerConn)
    → Distinct conns
    → ((conn : ServerConn) → find conn.id conns ≡ some conn → P conn)
    → All P conns
unfolding find
found-All P [] d h = tt
found-All P (first ∷ conns) d h = (
  h first (rw (bytes_eq_refl first.id) refl),
  found-All P conns d.1 (λ conn e. h conn (elim (Bool-cases (bytes_eq first.id conn.id)) [
    | inl same ↦
        absurd (let none_too = ap (λ id. find id conns) (sym (bytes_eq_sound _ _ same)) ∙ d.0 in cc)
    | inr other ↦ rw other e
  ])),
)
