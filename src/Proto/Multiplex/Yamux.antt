-- ===== src/Proto/Multiplex/Yamux.antt =====
-- What version 2 uses of yamux, and the bytes of a configuration.
use revdial.Common.{ℕ, ◌/◌, ◌%◌, ◌^◌, List, [], ◌∷◌, ◌≡◌, true, ◌++◌, Option, none}
use revdial.Mux.{Config, YamuxConfig}
use revdial.Proto.Conn.{Conn}

-- The library is a parameter: sessions are of type S, and R is what else its configuration holds.
-- `none` is an error. A stream is a connection, as in net.Conn. `close_under` is what `Close` of a
-- session does to the connection that it runs over: it closes it. A session
-- that was closed accepts no stream. Both are documented.
pub record Yamux (S R : Type 0) : Type 0 where
  pub yamux_default : YamuxConfig R
  pub client_session : YamuxConfig R → Conn → Option S
  pub server_session : YamuxConfig R → Conn → Option S
  pub open_stream : S → Option Conn × S
  pub accept_stream : S → Option Conn × S
  pub close_session : S → S
  pub close_under : S → Conn → Conn
  pub close_under-closed : (s : S) (c : Conn) → (close_under s c).closed ≡ true
  pub accept_stream-close : (s : S) → (accept_stream (close_session s)).0 ≡ none

-- `binary.BigEndian.PutUint32`.
unfoldable pub put_uint32 : ℕ → List ℕ
put_uint32 n = n / 2 ^ 24 % 256 ∷ n / 2 ^ 16 % 256 ∷ n / 2 ^ 8 % 256 ∷ n % 256 ∷ []

-- The twelve bytes in which an end tells its configuration.
unfoldable pub sizes : Config → List ℕ
unfolding put_uint32
sizes c =
    put_uint32 c.max_streams
    ++ (put_uint32 c.stream_window_size ++ put_uint32 c.connection_window_size)
