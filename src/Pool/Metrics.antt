-- ===== src/Pool/Metrics.antt =====
-- pool/metrics.go. A counter is a word of 64 or 32 bits, and each atomic call one step.
use revdial.Common.{ℕ, ◌+◌, ◌-◌, ◌^◌, ◌%◌, ℤ, pos, word, value, ◌/ℤ◌, ◌==◌, if◌then◌else◌}

pub record Metrics : Type 0 where
  pub active_streams : ℕ
  pub total_streams : ℕ
  pub connection_count : ℕ
  pub bytes_sent : ℕ
  pub bytes_received : ℕ
  pub latency_sum : ℕ
  pub latency_count : ℕ

abbrev pub new_metrics : Metrics
new_metrics = record {
  active_streams = 0;
  total_streams = 0;
  connection_count = 0;
  bytes_sent = 0;
  bytes_received = 0;
  latency_sum = 0;
  latency_count = 0;
}

abbrev add_word : ℕ → ℕ → ℕ → ℕ
add_word w a b = (a + b) % 2 ^ w

-- `Add(-1)`.
abbrev dec_word : ℕ → ℕ → ℕ
dec_word w a = add_word w a (2 ^ w - 1)

abbrev pub active_streams : Metrics → ℤ
active_streams m = value 64 m.active_streams

abbrev pub increment_active_streams : Metrics → Metrics
increment_active_streams m = record m {
  active_streams = add_word 64 m.active_streams 1;
  total_streams = add_word 64 m.total_streams 1;
}

abbrev pub decrement_active_streams : Metrics → Metrics
decrement_active_streams m = record m { active_streams = dec_word 64 m.active_streams }

abbrev pub total_streams : Metrics → ℤ
total_streams m = value 64 m.total_streams

abbrev pub connection_count : Metrics → ℤ
connection_count m = value 32 m.connection_count

abbrev pub set_connection_count : ℕ → Metrics → Metrics
set_connection_count count m = record m { connection_count = word 32 (pos count) }

abbrev pub bytes_sent : Metrics → ℕ
bytes_sent m = m.bytes_sent

abbrev pub bytes_received : Metrics → ℕ
bytes_received m = m.bytes_received

abbrev pub add_bytes_sent : ℕ → Metrics → Metrics
add_bytes_sent n m = record m { bytes_sent = add_word 64 m.bytes_sent n }

abbrev pub add_bytes_received : ℕ → Metrics → Metrics
add_bytes_received n m = record m { bytes_received = add_word 64 m.bytes_received n }

abbrev pub record_latency : ℤ → Metrics → Metrics
record_latency d m = record m {
  latency_sum = add_word 64 m.latency_sum (word 64 d);
  latency_count = add_word 64 m.latency_count 1;
}

abbrev pub avg_latency : Metrics → ℤ
avg_latency m =
    if m.latency_count == 0 then pos 0 else value 64 m.latency_sum /ℤ value 64 m.latency_count

abbrev pub reset_latency : Metrics → Metrics
reset_latency m = record m { latency_sum = 0; latency_count = 0 }

pub record ConnMetrics : Type 0 where
  pub created_at : ℤ
  pub total_streams : ℕ
  pub active_streams : ℕ

abbrev pub new_conn_metrics : ℤ → ConnMetrics
new_conn_metrics now = record { created_at = now; total_streams = 0; active_streams = 0 }

abbrev pub conn_active_streams : ConnMetrics → ℤ
conn_active_streams c = value 32 c.active_streams

abbrev pub conn_total_streams : ConnMetrics → ℤ
conn_total_streams c = value 64 c.total_streams

abbrev pub increment_conn_streams : ConnMetrics → ConnMetrics
increment_conn_streams c = record c {
  active_streams = add_word 32 c.active_streams 1;
  total_streams = add_word 64 c.total_streams 1;
}

abbrev pub decrement_conn_streams : ConnMetrics → ConnMetrics
decrement_conn_streams c = record c { active_streams = dec_word 32 c.active_streams }
