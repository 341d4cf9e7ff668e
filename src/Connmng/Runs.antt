-- ===== src/Connmng/Runs.antt =====
-- The manager against a dictionary from identifiers to connections, over any run of calls.
use mathlib.Core.Path.{fun_ext}
use revdial.Common.{
  ℕ, ◌≡◌, refl, ap, ◌∙◌, List, [], ◌∷◌, ◌++◌, Option, none, some, if◌then◌else◌, bytes_eq,
}
use revdial.Connmng.Manager.{ServerConn, ConnManager, add_connection, remove_connection, get_conn}
use revdial.Connmng.Lookup.{find, Distinct, held, add_connection_lem, remove_connection_lem}
use revdial.Connmng.Getting.{get_conn-keeps}

-- What the manager promises: at most one connection for an identifier, and which objects it has
-- closed, oldest first. Neither order nor position is seen.
pub record Registry : Type 0 where
  pub under : List ℕ → Option ServerConn
  pub closed : List ℕ

-- Another connection under an identifier, or none; what stood there is closed.
abbrev pub replace : List ℕ → Option ServerConn → Registry → Registry
replace id conn r = record {
  under = λ i. if bytes_eq id i then conn else r.under i;
  closed = r.closed ++ held (r.under id);
}

pub data Call : Type 0 where
  adds : ServerConn → Call
  removes : List ℕ → Call
  gets : Call

-- The calls on the manager, and on the dictionary.
unfoldable pub run : List Call → ConnManager → ConnManager
run [] m = m
run (adds conn ∷ calls) m = run calls (add_connection conn m)
run (removes id ∷ calls) m = run calls (remove_connection id m)
run (gets ∷ calls) m = run calls (get_conn m).1

unfoldable pub replay : List Call → Registry → Registry
replay [] r = r
replay (adds conn ∷ calls) r = replay calls (replace conn.id (some conn) r)
replay (removes id ∷ calls) r = replay calls (replace id none r)
replay (gets ∷ calls) r = replay calls r

abbrev pub seen : ConnManager → Registry
seen m = record { under = λ id. find id m.connections; closed = m.closed }

same_registry :
    (q r : Registry) → ((id : List ℕ) → q.under id ≡ r.under id) → q.closed ≡ r.closed → q ≡ r
same_registry q r e f = λ i. record { under = fun_ext e i; closed = f i }

add-seen :
    (conn : ServerConn) (m : ConnManager)
    → Distinct m.connections
    → seen (add_connection conn m) ≡ replace conn.id (some conn) (seen m)
add-seen conn m d =
    same_registry _ _ (λ id. (add_connection_lem conn m id d).1)
      (add_connection_lem conn m conn.id d).2

remove-seen :
    (id : List ℕ) (m : ConnManager)
    → Distinct m.connections
    → seen (remove_connection id m) ≡ replace id none (seen m)
remove-seen id m d =
    same_registry _ _ (λ i. (remove_connection_lem id m i d).1) (remove_connection_lem id m id d).2

get-seen : (m : ConnManager) → seen (get_conn m).1 ≡ seen m
get-seen m = let keeps = get_conn-keeps m in same_registry _ _ (λ id. ap (find id) keeps.0) keeps.1

-- From a manager whose identifiers are distinct any run of AddConnection, RemoveConnection and GetConn
-- keeps them distinct, finds under each identifier what the same run on a dictionary does, and has
-- closed exactly the connections that were replaced or removed there, in that order.
pub run-refines :
    (calls : List Call) (m : ConnManager)
    → Distinct m.connections
    → Distinct (run calls m).connections × (seen (run calls m) ≡ replay calls (seen m))
unfolding run replay
run-refines [] m d = (d, refl)
run-refines (adds conn ∷ calls) m d =
    let next = add_connection conn m in
    let rest = run-refines calls next (add_connection_lem conn m conn.id d).0 in
    (rest.0, rest.1 ∙ ap (replay calls) (add-seen conn m d))
run-refines (removes id ∷ calls) m d =
    let next = remove_connection id m in
    let rest = run-refines calls next (remove_connection_lem id m id d).0 in
    (rest.0, rest.1 ∙ ap (replay calls) (remove-seen id m d))
run-refines (gets ∷ calls) m d =
    let rest = run-refines calls (get_conn m).1 (rw (get_conn-keeps m).0 d) in
    (rest.0, rest.1 ∙ ap (replay calls) (get-seen m))
