-- ===== src/Proto/Client/Events.antt =====
-- proto/client.go: the commands that a registered client receives.
use revdial.Common.{
  ℕ, List, [], ◌∷◌, ◌++◌, length, Bool, true, false, not, ok, err, Result, if◌then◌else◌, ◌==◌, ltb,
  ◌>>=◌, fail, done, ◌&&◌, ◌||◌,
}
use revdial.Proto.Static.{version_v1, cmd_connect, cmd_ping, cmd_custom_event, res_success}
use revdial.Proto.Failure.{Error, unsupported_command, bad_uuid, unmarshal_failed, blocked}
use revdial.Proto.Conn.{M, read, read_full, write, read_msg}
use revdial.Proto.Commands.{Command, connect_command, custom_event, Json, or_error, uint16}
use revdial.Proto.Uuid.{Uuid}
use revdial.Proto.Client.Types.{Client, is_cancelled, max_cmds, on_conn}
use revdial.Proto.Client.Session.{cancel}

abbrev pub lift : {A : Type 0} → Result Error A → M Client A
lift r c = (r, c)

abbrev pub has_room : Client → Bool
has_room c = ltb (length c.cmds) max_cmds

-- `select { case <-ctx.Done(): …; case c.cmds <- cmd: }`: whether the command was sent. Where both
-- cases are ready, `pick` says that Go takes the first.
unfoldable pub offer : Bool → Command → M Client Bool
offer pick cmd c =
    if is_cancelled c.ctx && (pick || not (has_room c))
    then (ok false, c)
    else (if has_room c
        then (ok true, record c { cmds = c.cmds ++ cmd ∷ [] })
        else (err blocked, c))

abbrev pub reply_if : Bool → M Client (Unit {0})
reply_if true = on_conn (write (version_v1 ∷ res_success ∷ []))
reply_if false = done

unfoldable pub handle_ping : M Client (Unit {0})
handle_ping = on_conn (write (version_v1 ∷ res_success ∷ []))

module _ {V : Type 0} (u : Uuid) (json : Json V) where
  unfoldable pub handle_connect : Bool → M Client (Unit {0})
  handle_connect pick = do
    buf ← on_conn (read 16)
    id ← lift (or_error (u.from_bytes buf) bad_uuid)
    sent ← offer pick (connect_command id)
    reply_if sent

  unfoldable pub handle_custom_event : Bool → M Client (Unit {0})
  handle_custom_event pick = do
    len_buf ← on_conn (read_full 2)
    text ← on_conn (read_full (uint16 len_buf))
    event ← lift (or_error (json.unmarshal_event text) unmarshal_failed)
    sent ← offer pick (custom_event event)
    reply_if sent

  unfoldable pub dispatch : Bool → ℕ → M Client (Unit {0})
  dispatch pick msg =
      if msg == cmd_connect
      then handle_connect pick
      else (if msg == cmd_ping
          then handle_ping
          else (if msg == cmd_custom_event
              then handle_custom_event pick
              else fail (unsupported_command msg)))

  unfoldable pub handle_command : Bool → M Client (Unit {0})
  unfolding dispatch
  handle_command pick = do msg ← on_conn read_msg; dispatch pick msg

  -- The deferred calls of the goroutine.
  unfoldable pub finish : Client → Client
  finish c = cancel (record c { cmds_closed = true })

  abbrev pub after_command :
      Result Error (Unit {0}) × Client → (Client → Client × Bool) → Client × Bool
  after_command (ok r, c) next = next c
  after_command (err blocked, c) next = (c, false)
  after_command (err e, c) next = (finish c, true)

  -- The goroutine's loop, for as many rounds as the list has choices for `select`, and whether the
  -- goroutine has ended by then.
  unfoldable pub command_rounds : List Bool → Client → Client × Bool
  command_rounds [] c = (c, false)
  command_rounds (pick ∷ picks) c =
      let round = after_command (handle_command pick c) (command_rounds picks) in
      if is_cancelled c.ctx then (finish c, true) else round
