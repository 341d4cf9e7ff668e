-- ===== src/Pool/Selector.antt =====
-- pool/selector.go. Connections are known by their place in memory, and `streams` is what
-- `NumStreams` says of each.
use revdial.Common.{ℕ, ℤ, List, [], ◌∷◌, Option, none, some, ltb_ℤ, if◌then◌else◌}

module _ (streams : ℕ → ℤ) where
  unfoldable pub select_loop : ℕ → ℤ → List ℕ → ℕ
  select_loop best least [] = best
  select_loop best least (conn ∷ conns) =
      let n : ℤ = streams conn in
      let next : ℕ × ℤ = if ltb_ℤ n least then (conn, n) else (best, least) in
      select_loop next.0 next.1 conns

  unfoldable pub select : List ℕ → Option ℕ
  unfolding select_loop
  select [] = none
  select (conn ∷ conns) = some (select_loop conn (streams conn) conns)
