-- ===== src/Connmng/Scenarios.antt =====
-- The theorems on the connection manager at concrete inputs.
use revdial.Common.{◌≡◌, refl, [], ◌∷◌, true, false, arith}
use revdial.Connmng.Manager.{
  ServerConn, ConnManager, got, out_of_range, remove_connection, get_conn,
}
use revdial.Connmng.Lookup.{Distinct, find}
use revdial.Connmng.Runs.{adds, removes, gets, run, replay, seen, run-refines}
use revdial.Connmng.RoundRobin.{after_gets, get_conn-round_robin, remove_connection_panics}

abbrev first : ServerConn
first = record { id = 1 ∷ []; handle = 10; close_fails = false }

abbrev second : ServerConn
second = record { id = 2 ∷ []; handle = 20; close_fails = true }

abbrev third : ServerConn
third = record { id = 2 ∷ []; handle = 30; close_fails = false }

abbrev pair : ConnManager
pair = record { connections = first ∷ second ∷ []; current = 1; closed = [] }

pair-Distinct : Distinct pair.connections
unfolding find
pair-Distinct = (refl, (refl, tt))

get_conn-round_robin_example : (get_conn (after_gets 5 pair)).0 ≡ got first
get_conn-round_robin_example = get_conn-round_robin pair 5 first (omega arith) refl

run-refines_example :
    let calls = adds third ∷ gets ∷ removes (1 ∷ []) ∷ [] in
    Distinct (run calls pair).connections × (seen (run calls pair) ≡ replay calls (seen pair))
run-refines_example = run-refines (adds third ∷ gets ∷ removes (1 ∷ []) ∷ []) pair pair-Distinct

remove_connection_panics_example : (get_conn (remove_connection (1 ∷ []) pair)).0 ≡ out_of_range
unfolding find
remove_connection_panics_example =
    remove_connection_panics (1 ∷ []) pair first refl (omega arith) (omega arith)
