-- ===== src/Pool/Validated.antt =====
-- What `Validate` makes sure of.
use revdial.Common.{
  ℤ, pos, negsuc, ◌≡◌, refl, Bool, true, false, not, ltb_ℤ, leb_ℤ, is_zero, ok, Ends, Ends-if,
  arith,
}
use revdial.Pool.Config.{
  Config, thresholds_crossed, validate, with_limits, with_intervals, at_least, or_default,
}

ltb_ℤ-asym : (a b : ℤ) → ltb_ℤ a b ≡ true → ltb_ℤ b a ≡ false
ltb_ℤ-asym (pos a) (pos b) h = ground arith
ltb_ℤ-asym (pos a) (negsuc b) h = ground arith
ltb_ℤ-asym (negsuc a) (pos b) h = ground arith
ltb_ℤ-asym (negsuc a) (negsuc b) h = ground arith

ltb_ℤ-irrefl : (a : ℤ) → ltb_ℤ a a ≡ false
ltb_ℤ-irrefl (pos a) = ground arith
ltb_ℤ-irrefl (negsuc a) = ground arith

at_least_lem : (low z : ℤ) → leb_ℤ low (at_least low z) ≡ true
at_least_lem low z = ground (arith, ltb_ℤ-irrefl low)

at_least_above : (low z : ℤ) → leb_ℤ low z ≡ true → at_least low z ≡ z
at_least_above low z h = ground arith

or_default_lem : (d z : ℤ) → is_zero d ≡ false → is_zero (or_default d z) ≡ false
or_default_lem d z h = ground arith

or_default_nonzero : (d z : ℤ) → is_zero z ≡ false → or_default d z ≡ z
or_default_nonzero d z h = simp h

-- What the pool and its scaler rely on.
pub record IsValid (c : Config) : Type 0 where
  pub one_at_least : leb_ℤ (pos 1) c.min_connections ≡ true
  pub ordered : leb_ℤ c.min_connections c.max_connections ≡ true
  pub up_set : is_zero c.scale_up_threshold ≡ false
  pub down_set : is_zero c.scale_down_threshold ≡ false
  pub down_below_up : ltb_ℤ c.scale_down_threshold c.scale_up_threshold ≡ true
  pub cooldown_set : is_zero c.scale_cooldown ≡ false
  pub interval_set : is_zero c.monitor_interval ≡ false

-- A valid configuration is left as it is.
validate_valid : (c : Config) → IsValid c → validate c ≡ (ok tt, c)
unfolding validate with_limits with_intervals
validate_valid c v = simp (
  at_least_above (pos 1) c.min_connections v.one_at_least,
  at_least_above c.min_connections c.max_connections v.ordered,
  or_default_nonzero (pos 800) c.scale_up_threshold v.up_set,
  or_default_nonzero (pos 200) c.scale_down_threshold v.down_set,
  v.down_below_up,
  or_default_nonzero (pos 30000000000) c.scale_cooldown v.cooldown_set,
  or_default_nonzero (pos 10000000000) c.monitor_interval v.interval_set,
)

not-false : (b : Bool) → not b ≡ false → b ≡ true
not-false b h = ground arith

limits-IsValid :
    (c : Config)
    → leb_ℤ (with_limits c).scale_up_threshold (with_limits c).scale_down_threshold ≡ false
    → IsValid (with_intervals (with_limits c))
unfolding with_limits with_intervals
limits-IsValid c h = record {
  one_at_least = at_least_lem (pos 1) c.min_connections;
  ordered = at_least_lem _ c.max_connections;
  up_set = or_default_lem _ c.scale_up_threshold refl;
  down_set = or_default_lem _ c.scale_down_threshold refl;
  down_below_up = not-false _ h;
  cooldown_set = or_default_lem _ c.scale_cooldown refl;
  interval_set = or_default_lem _ c.monitor_interval refl;
}

-- `Validate` either succeeds, and then 1 ≤ MinConnections ≤ MaxConnections, the thresholds are in
-- order, nothing that has a default is 0, and a second `Validate` changes nothing; or reports
-- that the thresholds are not in order, and then they are not.
pub validate-Ends :
    (c : Config)
    → Ends
        (λ _ v. IsValid v × (validate v ≡ (ok tt, v)))
        (λ e v.
          (e ≡ thresholds_crossed) × (leb_ℤ v.scale_up_threshold v.scale_down_threshold ≡ true))
        (validate c)
unfolding validate
validate-Ends c =
    Ends-if _ (λ h. record { holds = (refl, h) })
      (λ h. let v = limits-IsValid c h in record { holds = (v, validate_valid _ v) })
