-- ===== src/Listener/Options.antt =====
-- The network dialer that a listener's options make.
use mathlib.Core.Option.{some-injective}
use revdial.Common.{
  ℕ, ℤ, ◌+◌, ◌≤◌, ◌≡◌, refl, ap, sym, ◌∙◌, List, [], ◌∷◌, Option, none, some, arith, Bool, true,
  false, ◌++◌, if◌then◌else◌,
}
use revdial.Pool.MuxConn.{MuxConn}
use revdial.Pool.State.{Pool}
use revdial.Pool.State as Pools
use revdial.Proto.Client.Types.{disable_v2_fallback}
use revdial.Listener.Network.{
  ListenerDialer, net_dialer, tls_dialer, zero_dialer, with_tls_config, with_keep_alive,
}
use revdial.Listener.State.{
  World, Settings, ListenerOption, user_pass_option, event_handler, pool_config, mux_config,
  tls_config, keep_alive, disable_v2, enable_v2, apply_option, apply_options, if_some, no_settings,
  for_version, for_versions, configure,
}
use revdial.Listener.State as State

-- What an option does to the dialer.
abbrev turned : ListenerOption → ListenerDialer → ListenerDialer
turned (tls_config config) d = with_tls_config config d
turned (keep_alive interval) d = with_keep_alive interval d
turned _ d = d

abbrev turned_all : List ListenerOption → ListenerDialer → ListenerDialer
turned_all [] d = d
turned_all (opt ∷ opts) d = turned_all opts (turned opt d)

-- The TLS configuration and the interval that are given last.
abbrev pub last_tls : Option ℕ → List ListenerOption → Option ℕ
last_tls t [] = t
last_tls t (tls_config config ∷ opts) = last_tls (some config) opts
last_tls t (_ ∷ opts) = last_tls t opts

abbrev pub last_interval : ℤ → List ListenerOption → ℤ
last_interval k [] = k
last_interval k (keep_alive interval ∷ opts) = last_interval interval opts
last_interval k (_ ∷ opts) = last_interval k opts

abbrev pub tls_count : List ListenerOption → ℕ
tls_count [] = 0
tls_count (tls_config config ∷ opts) = 1 + tls_count opts
tls_count (_ ∷ opts) = tls_count opts

-- A dialer with this interval, under TLS where there is a configuration.
abbrev pub dialer_for : Option ℕ → ℤ → ListenerDialer
dialer_for none k = net_dialer (record zero_dialer { keep_alive = k })
dialer_for (some config) k = tls_dialer (some (record zero_dialer { keep_alive = k })) config

abbrev held : Option ℕ → ℕ
held none = 0
held (some config) = 1

keep_alive-for :
    (t : Option ℕ) (k interval : ℤ)
    → with_keep_alive interval (dialer_for t k) ≡ dialer_for t interval
keep_alive-for none k interval = refl
keep_alive-for (some config) k interval = refl

turned_all-for :
    (opts : List ListenerOption) (t : Option ℕ) (k : ℤ)
    → held t + tls_count opts ≤ 1
    → turned_all opts (dialer_for t k) ≡ dialer_for (last_tls t opts) (last_interval k opts)
turned_all-for [] t k h = refl
turned_all-for (tls_config config ∷ opts) none k h =
    turned_all-for opts (some config) k (omega (arith, h))
turned_all-for (tls_config config ∷ opts) (some t) k h = absurd (omega arith)
turned_all-for (keep_alive interval ∷ opts) t k h =
    ap (turned_all opts) (keep_alive-for t k interval) ∙ turned_all-for opts t interval h
turned_all-for (user_pass_option opt ∷ opts) t k h = turned_all-for opts t k h
turned_all-for (event_handler name handler ∷ opts) t k h = turned_all-for opts t k h
turned_all-for (pool_config config ∷ opts) t k h = turned_all-for opts t k h
turned_all-for (mux_config config ∷ opts) t k h = turned_all-for opts t k h
turned_all-for (disable_v2 ∷ opts) t k h = turned_all-for opts t k h
turned_all-for (enable_v2 ∷ opts) t k h = turned_all-for opts t k h

module _ {S R : Type 0} (w : World S R) (memory : ℕ → MuxConn S) where
  -- The settings have this dialer, where the options do not panic.
  abbrev HasDialer : ListenerDialer → Option (Settings S) → Type 0
  HasDialer d none = Unit {0}
  HasDialer d (some s) = s.dialer ≡ d

  pooled-HasDialer :
      (p : Option (Pool S)) (s : Settings S) → HasDialer s.dialer (State.with_pool w memory p s)
  pooled-HasDialer none s = tt
  pooled-HasDialer (some p) s = refl

  turned-HasDialer :
      (opt : ListenerOption) (s : Settings S)
      → HasDialer (turned opt s.dialer) (apply_option w memory opt s)
  turned-HasDialer (user_pass_option opt) s = refl
  turned-HasDialer (event_handler name handler) s = refl
  turned-HasDialer (pool_config config) s = pooled-HasDialer (Pools.new config w.now memory) s
  turned-HasDialer (mux_config config) s = refl
  turned-HasDialer (tls_config config) s = refl
  turned-HasDialer (keep_alive interval) s = refl
  turned-HasDialer disable_v2 s = refl
  turned-HasDialer enable_v2 s = refl

  next-HasDialer :
      (opts : List ListenerOption) (o : Option (Settings S)) (d : ListenerDialer)
      → HasDialer d o
      → ((s : Settings S) → HasDialer (turned_all opts s.dialer) (apply_options w memory opts s))
      → HasDialer (turned_all opts d) (if_some w memory o (apply_options w memory opts))
  next-HasDialer opts none d h k = tt
  next-HasDialer opts (some s) d h k = rw (sym h) (k s)

  all-HasDialer :
      (opts : List ListenerOption) (s : Settings S)
      → HasDialer (turned_all opts s.dialer) (apply_options w memory opts s)
  all-HasDialer [] s = refl
  all-HasDialer (opt ∷ opts) s =
      next-HasDialer opts (apply_option w memory opt s) (turned opt s.dialer)
        (turned-HasDialer opt s) (all-HasDialer opts)

  version-dialer :
      (b : Bool) (made : Settings S)
      → (if b
          then made
          else record made { client_opts = made.client_opts ++ disable_v2_fallback ∷ [] }).dialer
        ≡ made.dialer
  version-dialer true made = refl
  version-dialer false made = refl

  version-HasDialer :
      (o : Option (Settings S)) (d : ListenerDialer) (s : Settings S)
      → HasDialer d o
      → for_versions w memory o ≡ some s
      → s.dialer ≡ d
  version-HasDialer none d s h e = absurd cc
  version-HasDialer (some made) d s h e =
      let same : for_version w memory made ≡ s = some-injective _ _ e in
      ap (λ t. t.dialer) (sym same) ∙ version-dialer made.use_v2 made ∙ h

  -- Where the options of a listener make its settings and WithListenerTLSConfig is among them once at
  -- most, the listener dials with the interval that WithListenerKeepAlive gave last, or the default
  -- one, and under TLS with that configuration or without: the order of the two options does not
  -- matter, nor what other options stand between them.
  pub configure-dialer :
      (opts : List ListenerOption) (s : Settings S)
      → tls_count opts ≤ 1
      → configure w memory opts ≡ some s
      → s.dialer ≡ dialer_for (last_tls none opts) (last_interval (ℤ.pos 0) opts)
  unfolding configure
  configure-dialer opts s h e =
      version-HasDialer (apply_options w memory opts (no_settings w memory)) _ s
        (all-HasDialer opts (no_settings w memory)) e
      ∙ turned_all-for opts none (ℤ.pos 0) (omega (arith, h))
