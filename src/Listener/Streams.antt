-- ===== src/Listener/Streams.antt =====
-- listener.go: the request that binds a stream.
use revdial.Common.{ℕ, List, ◌∷◌, if◌then◌else◌, ◌==◌, ◌&&◌, ◌>>=◌, ◌>>◌, fail, done}
use revdial.Proto.Static.{version_v1, cmd_bind, res_success}
use revdial.Proto.Failure.{unexpected_result, unexpected_eof}
use revdial.Proto.Conn.{Conn, M, read, write}

-- Two bytes are indexed.
abbrev expect_success : List ℕ → M Conn (Unit {0})
expect_success (version ∷ result ∷ rest) =
    if version == version_v1 && result == res_success then done else fail (unexpected_result result)
expect_success _ = fail unexpected_eof

unfoldable pub bind_stream : List ℕ → M Conn (Unit {0})
bind_stream id = do write (version_v1 ∷ cmd_bind ∷ id); resp ← read 2; expect_success resp
