-- ===== src/Pool/Decisions.antt =====
-- When the scaler asks for a connection less.
use revdial.Common.{
  ℕ, zero, suc, ℤ, pos, negsuc, ◌≡◌, ◌↔◌, refl, subst, Bool, true, false, ltb_ℤ, is_zero, ◌/ℤ◌,
  ◌&&◌, ◌||◌, if◌then◌else◌, arith, leb_ℤ, ◌==◌, not, ap, ◌⊎◌, inl, inr, Bool-cases, ==_iff, ◌-◌,
}
use revdial.Pool.Config.{Config}
use revdial.Pool.Validated.{IsValid}
use revdial.Pool.Metrics.{Metrics, connection_count, avg_latency, active_streams}
use revdial.Pool.Scaler.{
  AutoScaler, evaluate, cooling, overloaded, underused, scale_up, scale_down, scale_none,
  avg_streams_per_conn,
}

ltb_ℤ-trans_false : (a b c : ℤ) → ltb_ℤ a b ≡ true → ltb_ℤ b c ≡ true → ltb_ℤ c a ≡ false
ltb_ℤ-trans_false (pos a) (pos b) (pos c) h k = ground arith
ltb_ℤ-trans_false (pos a) (pos b) (negsuc c) h k = ground arith
ltb_ℤ-trans_false (pos a) (negsuc b) c h k = ground arith
ltb_ℤ-trans_false (negsuc a) (pos b) (pos c) h k = ground arith
ltb_ℤ-trans_false (negsuc a) (pos b) (negsuc c) h k = ground arith
ltb_ℤ-trans_false (negsuc a) (negsuc b) (pos c) h k = ground arith
ltb_ℤ-trans_false (negsuc a) (negsuc b) (negsuc c) h k = ground arith

below_half : (l t : ℤ) → ltb_ℤ l (t /ℤ pos 2) ≡ true → (ltb_ℤ (pos 0) t && ltb_ℤ t l) ≡ false
below_half (pos l) (pos t) h = ground arith
below_half (negsuc l) (pos t) h = ground arith
below_half l (negsuc t) h = refl

latency_low :
    (l t : ℤ) → (is_zero t || ltb_ℤ l (t /ℤ pos 2)) ≡ true → (ltb_ℤ (pos 0) t && ltb_ℤ t l) ≡ false
latency_low l (negsuc t) h = refl
latency_low l (pos zero) h = ground arith
latency_low l (pos (suc t)) h =
    let n : (suc t == 0) ≡ false = ground arith in
    below_half l (pos (suc t)) (subst (λ z. (z || ltb_ℤ l (pos (suc t) /ℤ pos 2)) ≡ true) n h)

and_true : (a b : Bool) → (a && b) ≡ true → (a ≡ true) × (b ≡ true)
and_true true b h = (refl, h)
and_true false b h = ground arith

and_intro : {a b : Bool} → a ≡ true → b ≡ true → (a && b) ≡ true
and_intro h k = rw h k

-- The two tests on averages exclude each other.
not_both :
    (up down a l t : ℤ) (room : Bool)
    → ltb_ℤ down up ≡ true
    → (ltb_ℤ a down && (is_zero t || ltb_ℤ l (t /ℤ pos 2))) ≡ true
    → (room && (ltb_ℤ up a || (ltb_ℤ (pos 0) t && ltb_ℤ t l))) ≡ false
not_both up down a l t false d h = refl
not_both up down a l t true d h =
    let (p, q) = and_true (ltb_ℤ a down) _ h in
    rw (ltb_ℤ-trans_false a down up p d) (latency_low l t q)

underused-overloaded :
    (c : Config) (m : Metrics) → IsValid c → underused c m ≡ true → overloaded c m ≡ false
underused-overloaded c m v h =
    not_both c.scale_up_threshold c.scale_down_threshold (avg_streams_per_conn m) (avg_latency m)
      c.latency_threshold (ltb_ℤ (connection_count m) c.max_connections) v.down_below_up
      (and_true (ltb_ℤ c.min_connections (connection_count m)) _ h).1

-- Some connection, and more than asked for.
has_connections :
    (least n : ℤ) → leb_ℤ (pos 1) least ≡ true → ltb_ℤ least n ≡ true → is_zero n ≡ false
has_connections (pos a) (pos b) h k = ground arith
has_connections (pos a) (negsuc b) h k = refl
has_connections (negsuc a) n h k = ground arith

-- The tests of `Evaluate` in their order, for any outcome of each.
decide_down :
    (cool zero_count positive over under : Bool)
    → (if cool
        then scale_none
        else (if zero_count
            then (if positive then scale_up else scale_none)
            else (if over then scale_up else (if under then scale_down else scale_none))))
      ≡ scale_down
    → (cool ≡ false) × (under ≡ true)
decide_down true zero_count positive over under h = ground arith
decide_down false true true over under h = ground arith
decide_down false true false over under h = ground arith
decide_down false false positive true under h = ground arith
decide_down false false positive false true h = (refl, refl)
decide_down false false positive false false h = ground arith

-- In terms of the code's own tests.
pub evaluate-tests :
    (now : ℕ) (m : Metrics) (s : AutoScaler)
    → IsValid s.config
    → (evaluate now m s ≡ scale_down) ↔ ((cooling now s ≡ false) × (underused s.config m ≡ true))
unfolding evaluate
evaluate-tests now m s v = (
  decide_down (cooling now s) (is_zero (connection_count m))
      (ltb_ℤ (pos 0) s.config.min_connections) (overloaded s.config m) (underused s.config m),
  λ p.
      rw
        (
          p.0,
          has_connections s.config.min_connections (connection_count m) v.one_at_least
              (and_true (ltb_ℤ s.config.min_connections (connection_count m)) _ p.1).0,
          underused-overloaded s.config m v p.1,
          p.1,
        )
        refl,
)

-- What asks for a connection less, in numbers: the cooldown has passed since the last change, there
-- are more connections than the minimum, the streams among them are fewer on average than the lower
-- threshold, and the latency has no threshold or is below half of it.
pub record IsIdle (now : ℕ) (m : Metrics) (s : AutoScaler) : Type 0 where
  pub waited : leb_ℤ s.config.scale_cooldown (pos (now - s.last_scale_time)) ≡ true
  pub spare : ltb_ℤ s.config.min_connections (connection_count m) ≡ true
  pub few_streams :
      ltb_ℤ (active_streams m /ℤ connection_count m) s.config.scale_down_threshold ≡ true
  pub quick :
      (s.config.latency_threshold ≡ pos 0)
      ⊎ (ltb_ℤ (avg_latency m) (s.config.latency_threshold /ℤ pos 2) ≡ true)

or_cases : (a b : Bool) → (a || b) ≡ true → (a ≡ true) ⊎ (b ≡ true)
or_cases true b h = inl refl
or_cases false b h = inr h

is_zero-pos : (t : ℤ) → is_zero t ≡ true → t ≡ pos 0
is_zero-pos (pos n) h = ap pos ((==_iff n 0).0 h)
is_zero-pos (negsuc n) h = absurd cc

not_iff : (b : Bool) → (b ≡ false) ↔ (not b ≡ true)
not_iff true = (λ h. absurd cc, λ h. absurd cc)
not_iff false = (λ h. refl, λ h. refl)

quick-test :
    (t l : ℤ)
    → (t ≡ pos 0) ⊎ (ltb_ℤ l (t /ℤ pos 2) ≡ true)
    → (is_zero t || ltb_ℤ l (t /ℤ pos 2)) ≡ true
quick-test t l (inl e) = rw e refl
quick-test t l (inr e) = elim (Bool-cases (is_zero t)) [ inl z ↦ rw z refl | inr z ↦ rw z e ]

quick_of :
    (t l : ℤ)
    → (is_zero t || ltb_ℤ l (t /ℤ pos 2)) ≡ true
    → (t ≡ pos 0) ⊎ (ltb_ℤ l (t /ℤ pos 2) ≡ true)
quick_of t l h = elim (or_cases (is_zero t) _ h) [ inl z ↦ inl (is_zero-pos t z) | inr e ↦ inr e ]

tests-IsIdle :
    (now : ℕ) (m : Metrics) (s : AutoScaler)
    → cooling now s ≡ false
    → underused s.config m ≡ true
    → IsIdle now m s
tests-IsIdle now m s c h =
    let (spare, rest) = and_true (ltb_ℤ s.config.min_connections (connection_count m)) _ h in
    let (few, low) =
      and_true (ltb_ℤ (avg_streams_per_conn m) s.config.scale_down_threshold) _ rest in
    record {
      waited = (not_iff (cooling now s)).0 c;
      spare = spare;
      few_streams = few;
      quick = quick_of s.config.latency_threshold (avg_latency m) low;
    }

-- With a valid configuration `Evaluate` asks for a connection less exactly when the cooldown has
-- passed since the last change, there are more connections than the minimum, the streams among them
-- are fewer on average than the lower threshold, and the latency has no threshold or is below half of
-- it.
pub evaluate_down :
    (now : ℕ) (m : Metrics) (s : AutoScaler)
    → IsValid s.config
    → (evaluate now m s ≡ scale_down) ↔ IsIdle now m s
evaluate_down now m s v = (
  λ e. let t = (evaluate-tests now m s v).0 e in tests-IsIdle now m s t.0 t.1,
  λ i. (evaluate-tests now m s v).1 (
    (not_iff (cooling now s)).1 i.waited,
    and_intro i.spare
        (and_intro i.few_streams (quick-test s.config.latency_threshold (avg_latency m) i.quick)),
  ),
)
