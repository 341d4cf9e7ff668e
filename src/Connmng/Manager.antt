-- ===== src/Connmng/Manager.antt =====
-- connmng/manager.go. Every method holds the manager's mutex, so a call is one step. `GetConn` holds
-- it for reading only and still writes `current`; calls of it are taken one after the other.
use revdial.Common.{
  ℕ, ◌+◌, ◌%◌, Bool, List, [], ◌∷◌, ◌++◌, length, map, get_elem?, Option, none, some, if◌then◌else◌,
  ◌==◌, bytes_eq,
}

-- The interface ServerConn, seen by the manager: `ID()`, which object it is, and whether its `Close`
-- reports an error.
pub record ServerConn : Type 0 where
  pub id : List ℕ
  pub handle : ℕ
  pub close_fails : Bool

-- `closed` records on which objects the manager has called `Close`, oldest first.
pub record ConnManager : Type 0 where
  pub connections : List ServerConn
  pub current : ℕ
  pub closed : List ℕ

unfoldable pub new : ConnManager
new = record { connections = []; current = 0; closed = [] }

-- The loop of `AddConnection`: the list after it and the objects that it closed.
unfoldable pub add_loop : ServerConn → List ServerConn → List ServerConn × List ℕ
add_loop serv [] = (serv ∷ [], [])
add_loop serv (conn ∷ conns) =
    let rest = add_loop serv conns in
    if bytes_eq conn.id serv.id then (serv ∷ conns, conn.handle ∷ []) else (conn ∷ rest.0, rest.1)

unfoldable pub add_connection : ServerConn → ConnManager → ConnManager
unfolding add_loop
add_connection serv m =
    let r = add_loop serv m.connections in record m { connections = r.0; closed = m.closed ++ r.1 }

unfoldable pub remove_loop : List ℕ → List ServerConn → List ServerConn × List ℕ
remove_loop id [] = ([], [])
remove_loop id (conn ∷ conns) =
    let rest = remove_loop id conns in
    if bytes_eq conn.id id then (conns, conn.handle ∷ []) else (conn ∷ rest.0, rest.1)

unfoldable pub remove_connection : List ℕ → ConnManager → ConnManager
unfolding remove_loop
remove_connection id m =
    let r = remove_loop id m.connections in record m { connections = r.0; closed = m.closed ++ r.1 }

-- `out_of_range` is the panic of an index past the end of the slice.
pub data Got : Type 0 where
  nothing out_of_range : Got
  got : ServerConn → Got

abbrev pub indexed : Option ServerConn → ConnManager → Got × ConnManager
indexed none m = (out_of_range, m)
indexed (some conn) m = (got conn, record m { current = (m.current + 1) % length m.connections })

unfoldable pub get_conn : ConnManager → Got × ConnManager
get_conn m =
    if length m.connections == 0
    then (nothing, m)
    else indexed (get_elem? m.connections m.current) m

abbrev count_failures : List ServerConn → ℕ
count_failures [] = 0
count_failures (conn ∷ conns) =
    if conn.close_fails then count_failures conns + 1 else count_failures conns

-- How many errors `Close` joins in its result; none is Go's nil.
unfoldable pub close : ConnManager → ℕ × ConnManager
close m = (
  count_failures m.connections,
  record m { connections = []; closed = m.closed ++ map (λ conn. conn.handle) m.connections },
)
