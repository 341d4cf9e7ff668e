-- ===== src/Dialer/Requests.antt =====
-- dialer.go: the table of requests, from `addRequest` to the connection that a handler sends over the
-- request's channel. Everything that holds the mutex and every `select` is one step.
use revdial.Common.{
  ℕ, ◌+◌, Bool, true, false, not, ◌&&◌, ◌||◌, List, [], ◌∷◌, ◌++◌, length, Option, none, some,
  bytes_eq, if◌then◌else◌, ◌==◌, ltb,
}

-- Requests are objects, known by the order in which they were made. `table` is the map from an id to
-- its request, `handlers` the connections whose handler has taken a request and not sent yet,
-- `channel` what a request's channel holds, `cancelled` whether its context is done, `closed` the
-- connections that handlers have closed. `deliveries` counts what was ever sent to a request.
pub record Requests : Type 0 where
  pub table : List (List ℕ × ℕ)
  pub made : ℕ
  pub handlers : List (ℕ × ℕ)
  pub channel : ℕ → List ℕ
  pub cancelled : ℕ → Bool
  pub closed : List ℕ
  pub deliveries : ℕ → ℕ

abbrev pub no_requests : Requests
no_requests = record {
  table = [];
  made = 0;
  handlers = [];
  channel = λ n. [];
  cancelled = λ n. false;
  closed = [];
  deliveries = λ n. 0;
}

abbrev pub at {ℓ} : {A : Type ℓ} → ℕ → A → (ℕ → A) → ℕ → A
at n v f i = if i == n then v else f i

-- `d.requests[id] = …`.
unfoldable pub assign : List ℕ → ℕ → List (List ℕ × ℕ) → List (List ℕ × ℕ)
assign id n [] = (id, n) ∷ []
assign id n ((i, m) ∷ t) =
    let rest = assign id n t in if bytes_eq i id then (id, n) ∷ t else (i, m) ∷ rest

-- What stands under an id, and the map without it.
unfoldable pub take_out : List ℕ → List (List ℕ × ℕ) → Option ℕ × List (List ℕ × ℕ)
take_out id [] = (none, [])
take_out id ((i, m) ∷ t) =
    let rest = take_out id t in if bytes_eq i id then (some m, t) else (rest.0, (i, m) ∷ rest.1)

unfoldable pub add_request : List ℕ → Requests → ℕ × Requests
unfolding assign
add_request id r = (r.made, record r { table = assign id r.made r.table; made = r.made + 1 })

unfoldable pub remove_request : List ℕ → Requests → Option ℕ × Requests
unfolding take_out
remove_request id r = let t = take_out id r.table in (t.0, record r { table = t.1 })

abbrev pub matched : ℕ → Option ℕ × Requests → Requests
matched conn (none, r) = record r { closed = r.closed ++ conn ∷ [] }
matched conn (some n, r) = record r { handlers = (conn, n) ∷ r.handlers }

-- A handler whose connection is bound under an id takes the request; without one it closes the
-- connection.
unfoldable pub take_request : ℕ → List ℕ → Requests → Requests
unfolding remove_request
take_request conn id r = matched conn (remove_request id r)

-- The handlers without one of them; none where there is no such handler.
abbrev kept : ℕ × ℕ → Option (List (ℕ × ℕ)) → Option (List (ℕ × ℕ))
kept h none = none
kept h (some hs) = some (h ∷ hs)

unfoldable pub release : ℕ → ℕ → List (ℕ × ℕ) → Option (List (ℕ × ℕ))
release conn n [] = none
release conn n ((c, m) ∷ hs) =
    let rest = release conn n hs in if c == conn && m == n then some hs else kept (c, m) rest

-- The channel's capacity is one.
abbrev pub has_room : ℕ → Requests → Bool
has_room n r = ltb (length (r.channel n)) 1

abbrev pub sent_by : Option (List (ℕ × ℕ)) → Bool → Bool → ℕ → ℕ → Requests → Requests
sent_by none stop pick conn n r = r
sent_by (some hs) stop pick conn n r =
    if (stop || r.cancelled n) && (pick || not (has_room n r))
    then record r { handlers = hs; closed = r.closed ++ conn ∷ [] }
    else (if has_room n r
        then record r {
          handlers = hs;
          channel = at n (r.channel n ++ conn ∷ []) r.channel;
          deliveries = at n (r.deliveries n + 1) r.deliveries;
        }
        else r)

-- The handler's `select`: where both cases are ready, `pick` says that Go takes a context's; where none
-- is, it waits. `stop` is whether the dialer's context is done, which the `select` of a stream's
-- handler looks at; that of a connection's handler does not, and there `stop` is false.
unfoldable pub send : Bool → Bool → ℕ → ℕ → Requests → Requests
unfolding release
send stop pick conn n r = sent_by (release conn n r.handlers) stop pick conn n r

pub data Dialled : Type 0 where
  waiting gave_up : Dialled
  dialled : ℕ → Dialled

abbrev pub received : List ℕ → List ℕ → ℕ → Requests → Dialled × Requests
received [] id n r = (waiting, r)
received (conn ∷ rest) id n r =
    (dialled conn, (remove_request id (record r { channel = at n rest r.channel })).1)

abbrev pub is_empty : List ℕ → Bool
is_empty [] = true
is_empty (c ∷ cs) = false

-- The `select` of `DialContext` for its request, and its deferred `removeRequest`.
unfoldable pub wait : Bool → List ℕ → ℕ → Requests → Dialled × Requests
unfolding remove_request
wait pick id n r =
    if r.cancelled n && (pick || is_empty (r.channel n))
    then (gave_up, (remove_request id r).1)
    else received (r.channel n) id n r

-- A request's context is done.
abbrev pub cancel : ℕ → Requests → Requests
cancel n r = record r { cancelled = at n true r.cancelled }
