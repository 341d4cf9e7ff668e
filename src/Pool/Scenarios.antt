-- ===== src/Pool/Scenarios.antt =====
-- The theorems on the pool at concrete inputs, and short runs.
use mathlib.Core.List.{Mem}
use revdial.Common.{
  ℕ, ◌+◌, ◌≡◌, ◌↔◌, ◌⊎◌, refl, pos, leb_ℤ, true, false, List, [], ◌∷◌, length, some, none, ok, All,
  Ends, get_elem?, arith, if◌then◌else◌, ◌==◌,
}
use revdial.Pool.Config.{Config, default_config, validate, thresholds_crossed}
use revdial.Pool.Validated.{IsValid, validate-Ends}
use revdial.Pool.MuxConn.{Yamux, MuxConn, new_mux_conn}
use revdial.Pool.Selector.{select}
use revdial.Pool.Least.{AtMost, select_lem}
use revdial.Pool.Scaler.{evaluate, scale_down}
use revdial.Pool.Decisions.{IsIdle, evaluate_down}
use revdial.Pool.State.{Pool, new, initial, streams_of, add_connection, with_connections}
use revdial.Pool.Settling.{IsQuiet, monitor_and_scale-settles}
use revdial.Pool.Operations.{Tick, monitor_and_scale}
use revdial.Pool.Operations.{open_on, close_conn, remove_at, evaluate_scaling}
use revdial.Pool.Operations as Operations
use revdial.Pool.Steps.{Reaches, stays, goes, adds}
use revdial.Pool.Capacity.{IsWithin, reached-IsWithin}
use revdial.Pool.Shrinking.{scale_down-select}
use revdial.Pool.Streams.{Balanced, SameStreams, open_on-Balanced}

-- A session that numbers its streams.
abbrev some_yamux : Yamux ℕ
some_yamux = record {
  open_session_stream = λ s. (some s, s + 1);
  accept_session_stream = λ s. (some s, s + 1);
  close_session_stream = λ n s. (false, s);
  close_session = λ s. (false, s);
}

abbrev idle : MuxConn ℕ
idle = new_mux_conn 1 (pos 0)

-- Three streams are open on connection 1.
abbrev memory : ℕ → MuxConn ℕ
memory i =
    if i == 1
    then record {
      session = 4;
      metrics = record { created_at = pos 0; total_streams = 3; active_streams = 3 };
      closed = false;
    }
    else idle

abbrev crossed : Config
crossed = record default_config { scale_up_threshold = pos 100; min_connections = pos 0 }

validate-Ends_example :
    Ends
      (λ _ v. IsValid v × (validate v ≡ (ok tt, v)))
      (λ e v. (e ≡ thresholds_crossed) × (leb_ℤ v.scale_up_threshold v.scale_down_threshold ≡ true))
      (validate crossed)
validate-Ends_example = validate-Ends crossed

default-IsValid : IsValid default_config
default-IsValid = record {
  one_at_least = refl;
  ordered = refl;
  up_set = refl;
  down_set = refl;
  down_below_up = refl;
  cooldown_set = refl;
  interval_set = refl;
}

abbrev fresh : Pool ℕ
fresh = initial default_config 0 memory

abbrev pair : Pool ℕ
pair = with_connections (1 ∷ 2 ∷ []) fresh

two_added : Reaches some_yamux fresh (add_connection 2 (add_connection 1 fresh).1).1
two_added = goes (goes stays (adds 1 fresh)) (adds 2 (add_connection 1 fresh).1)

reached-IsWithin_example : IsWithin (add_connection 2 (add_connection 1 fresh).1).1
unfolding new validate
reached-IsWithin_example = reached-IsWithin some_yamux none 0 memory fresh _ refl two_added

-- A quiet pool of two has its second connection removed.
shrunk : (evaluate_scaling some_yamux none 40000000000 40000000001 pair).connections ≡ 1 ∷ []
unfolding evaluate_scaling evaluate Operations.scale_down Operations.find_target
shrunk = refl

scale_down-select_example :
    (conn i : ℕ) × (select (streams_of pair) (1 ∷ 2 ∷ []) ≡ some conn)
    × (get_elem? (1 ∷ 2 ∷ []) i ≡ some conn)
    × (Operations.scale_down some_yamux pair
        ≡ (ok tt, with_connections (remove_at i (1 ∷ 2 ∷ [])) (close_conn some_yamux conn pair)))
    × (length (remove_at i (1 ∷ 2 ∷ [])) + 1 ≡ 2)
    × (leb_ℤ (pos 1) (pos (length (remove_at i (1 ∷ 2 ∷ [])))) ≡ true)
scale_down-select_example =
    scale_down-select some_yamux pair default-IsValid (refl, (refl, tt)) refl

abbrev two : List ℕ
two = 1 ∷ 2 ∷ []

select_lem_example :
    (two ≡ []) × (select (streams_of pair) (1 ∷ 2 ∷ []) ≡ none)
    ⊎ ((best : ℕ) × (select (streams_of pair) (1 ∷ 2 ∷ []) ≡ some best)
        × Mem best (1 ∷ 2 ∷ [])
        × All (AtMost (streams_of pair) (streams_of pair best)) (1 ∷ 2 ∷ []))
select_lem_example = select_lem (streams_of pair) (1 ∷ 2 ∷ [])

evaluate_down_example :
    (evaluate 40000000000 pair.metrics pair.scaler ≡ scale_down)
    ↔ IsIdle 40000000000 pair.metrics pair.scaler
evaluate_down_example = evaluate_down 40000000000 pair.metrics pair.scaler default-IsValid

open_on-Balanced_example :
    Ends
      (Balanced some_yamux pair 1)
      (λ e q. SameStreams some_yamux pair 1 q)
      (open_on some_yamux 1 pair)
open_on-Balanced_example = open_on-Balanced some_yamux 1 pair (omega arith) (omega arith)

pair-IsQuiet : IsQuiet pair
pair-IsQuiet = record {
  valid = default-IsValid;
  same_config = refl;
  shrinkable = record { threshold = refl; unmeasured = refl };
  counted = refl;
  few = omega arith;
  no_streams = refl;
  no_latency = refl;
  counts = (refl, (refl, tt));
}

abbrev one_tick : List (Tick ℕ)
one_tick = record { made = none; now = 40000000000; later = 40000000001 } ∷ []

monitor_and_scale-settles_example :
    length (monitor_and_scale some_yamux one_tick pair).connections ≡ 1
monitor_and_scale-settles_example =
    monitor_and_scale-settles some_yamux 1 one_tick pair pair-IsQuiet refl refl (refl, tt)
