-- ===== src/Dialer/Streams.antt =====
-- dialer.go: a stream of a session of version 2, which asks to be bound to a request.
use revdial.Common.{
  ℕ, List, [], ◌∷◌, ◌++◌, Option, none, some, ok, err, Result, if◌then◌else◌, ◌==◌, ◌>>=◌, ◌>>◌,
  pure, fail, done,
}
use revdial.Proto.Static.{version_v1, cmd_bind, res_success}
use revdial.Proto.Failure.{Error, unexpected_version, unsupported_command, bad_uuid, unexpected_eof}
use revdial.Proto.Conn.{Conn, M, read, write, close}
use revdial.Proto.Uuid.{Uuid}
use revdial.Dialer.Requests.{Requests, take_request}

-- Two bytes are indexed.
abbrev expect_bind : List ℕ → M Conn (Unit {0})
expect_bind (version ∷ command ∷ rest) =
    if version == version_v1
    then (if command == cmd_bind then done else fail (unsupported_command command))
    else fail (unexpected_version version)
expect_bind _ = fail unexpected_eof

abbrev parsed : Option (List ℕ) → M Conn (List ℕ)
parsed none = fail bad_uuid
parsed (some id) = pure id

-- What the handler reads and writes: the id that the stream asks for. It is answered before the
-- request is looked for.
unfoldable pub read_bind : Uuid → M Conn (List ℕ)
read_bind u = do
  buf ← read 2
  expect_bind buf
  uuid_buf ← read 16
  id ← parsed (u.from_bytes uuid_buf)
  write (version_v1 ∷ res_success ∷ [])
  pure id

abbrev matched_stream : ℕ → Result Error (List ℕ) × Conn → Requests → Conn × Requests
matched_stream conn (err e, stream) r =
    ((close stream).1, record r { closed = r.closed ++ conn ∷ [] })
matched_stream conn (ok id, stream) r = (stream, take_request conn id r)

-- `handleV2Stream` of the stream that the table of requests knows as `conn`, up to its `select`, which
-- is `send`. Where there is no request the stream counts as closed in the table.
unfoldable pub handle_v2_stream : Uuid → ℕ → Conn → Requests → Conn × Requests
unfolding read_bind
handle_v2_stream u conn stream r = matched_stream conn (read_bind u stream) r
