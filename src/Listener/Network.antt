-- ===== src/Listener/Network.antt =====
-- listener.go: the network dialer and the options that configure it.
--
-- A TLS configuration is known by a number, and its clone is the same. What a dialer connects to is
-- the parameter of the calls that use it.
use revdial.Common.{ℕ, ℤ, Option, none, some}

-- net.Dialer, of which the code sets one field.
pub record NetDialer : Type 0 where
  pub keep_alive : ℤ

-- What the interface `dialer` stands for. A tls.Dialer has a pointer to a net.Dialer.
pub data ListenerDialer : Type 0 where
  net_dialer : NetDialer → ListenerDialer
  tls_dialer : Option NetDialer → ℕ → ListenerDialer

-- `&net.Dialer{}`.
abbrev pub zero_dialer : NetDialer
zero_dialer = record { keep_alive = ℤ.pos 0 }

-- The type assertion gives nil where the dialer is not a net.Dialer.
abbrev pub as_net_dialer : ListenerDialer → Option NetDialer
as_net_dialer (net_dialer d) = some d
as_net_dialer (tls_dialer d config) = none

-- `WithListenerTLSConfig`.
abbrev pub with_tls_config : ℕ → ListenerDialer → ListenerDialer
with_tls_config config d = tls_dialer (as_net_dialer d) config

-- `WithListenerKeepAlive`.
abbrev pub with_keep_alive : ℤ → ListenerDialer → ListenerDialer
with_keep_alive interval (net_dialer d) = net_dialer (record d { keep_alive = interval })
with_keep_alive interval (tls_dialer none config) =
    tls_dialer (some (record zero_dialer { keep_alive = interval })) config
with_keep_alive interval (tls_dialer (some d) config) =
    tls_dialer (some (record d { keep_alive = interval })) config
