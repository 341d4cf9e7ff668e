-- ===== src/Mux.antt =====
-- mux/config.go: the multiplexing configuration. Sizes are 32-bit words, durations nanoseconds.
use revdial.Common.{ℕ, ◌*◌, ◌≡◌, ◌≢◌, refl, ℤ, pos, is_zero, false, if◌then◌else◌, ◌==◌, arith}

pub record Config : Type 0 where
  pub max_streams : ℕ
  pub stream_window_size : ℕ
  pub connection_window_size : ℕ
  pub keep_alive_interval : ℤ
  pub keep_alive_timeout : ℤ

abbrev second : ℕ
second = 1000000000

abbrev pub default_config : Config
default_config = record {
  max_streams = 1024;
  stream_window_size = 256 * 1024;
  connection_window_size = 1024 * 1024;
  keep_alive_interval = pos (30 * second);
  keep_alive_timeout = pos (60 * second);
}

-- A size of 0 and a duration of 0 stand for the default.
abbrev size_or : ℕ → ℕ → ℕ
size_or d n = if n == 0 then d else n

abbrev duration_or : ℤ → ℤ → ℤ
duration_or d z = if is_zero z then d else z

-- `Validate`, which has no error to report.
unfoldable pub validate : Config → Config
validate c = record {
  max_streams = size_or default_config.max_streams c.max_streams;
  stream_window_size = size_or default_config.stream_window_size c.stream_window_size;
  connection_window_size = size_or default_config.connection_window_size c.connection_window_size;
  keep_alive_interval = duration_or default_config.keep_alive_interval c.keep_alive_interval;
  keep_alive_timeout = duration_or default_config.keep_alive_timeout c.keep_alive_timeout;
}

-- The fields of yamux's configuration that `ToYamux` sets, and its default configuration, a parameter.
pub record YamuxConfig (R : Type 0) : Type 0 where
  pub max_stream_window_size : ℕ
  pub keep_alive_interval : ℤ
  pub connection_write_timeout : ℤ
  pub others : R

module _ {R : Type 0} (yamux_default : YamuxConfig R) where
  unfoldable pub to_yamux : Config → YamuxConfig R
  to_yamux c = record yamux_default {
    max_stream_window_size = c.stream_window_size;
    keep_alive_interval = c.keep_alive_interval;
    connection_write_timeout = c.keep_alive_timeout;
  }

size_or_lem : (d n : ℕ) → d ≢ 0 → (size_or d n ≢ 0) × (size_or d (size_or d n) ≡ size_or d n)
size_or_lem d n h = ground arith

duration_or_lem :
    (d z : ℤ)
    → is_zero d ≡ false
    → (is_zero (duration_or d z) ≡ false) × (duration_or d (duration_or d z) ≡ duration_or d z)
duration_or_lem d z h = ground arith

-- After `Validate` no field is 0, and a second `Validate` changes nothing.
pub validate_lem :
    (c : Config)
    → ((validate c).max_streams ≢ 0)
      × ((validate c).stream_window_size ≢ 0)
      × ((validate c).connection_window_size ≢ 0)
      × (is_zero (validate c).keep_alive_interval ≡ false)
      × (is_zero (validate c).keep_alive_timeout ≡ false)
      × (validate (validate c) ≡ validate c)
unfolding validate
validate_lem c =
    let (a, a') = size_or_lem 1024 c.max_streams (omega arith) in
    let (b, b') = size_or_lem (256 * 1024) c.stream_window_size (omega arith) in
    let (d, d') = size_or_lem (1024 * 1024) c.connection_window_size (omega arith) in
    let (e, e') = duration_or_lem (pos (30 * second)) c.keep_alive_interval refl in
    let (f, f') = duration_or_lem (pos (60 * second)) c.keep_alive_timeout refl in
    (a, b, d, e, f, rw (a', b', d', e', f') refl)
