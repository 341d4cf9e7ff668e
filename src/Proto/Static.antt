-- ===== src/Proto/Static.antt =====
-- proto/static.go: the bytes of the protocol. A byte is a number below 256.
use revdial.Common.{ℕ}

abbrev pub version_v1 : ℕ
version_v1 = 1

abbrev pub version_v2 : ℕ
version_v2 = 2

abbrev pub no_auth : ℕ
no_auth = 0

abbrev pub user_pass_auth : ℕ
user_pass_auth = 2

abbrev pub no_acceptable_auth_method : ℕ
no_acceptable_auth_method = 255

abbrev pub cmd_register : ℕ
cmd_register = 1

abbrev pub cmd_connect : ℕ
cmd_connect = 2

abbrev pub cmd_bind : ℕ
cmd_bind = 3

abbrev pub cmd_ping : ℕ
cmd_ping = 4

abbrev pub cmd_custom_event : ℕ
cmd_custom_event = 5

abbrev pub cmd_mux_init : ℕ
cmd_mux_init = 10

abbrev pub cmd_mux_ready : ℕ
cmd_mux_ready = 11

abbrev pub res_success : ℕ
res_success = 0

abbrev pub res_failure : ℕ
res_failure = 1
