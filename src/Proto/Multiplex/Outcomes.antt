-- ===== src/Proto/Multiplex/Outcomes.antt =====
-- The state in which `Register` of proto/client_v2.go leaves a client.
use mathlib.Core.Option.{some-injective}
use revdial.Common.{
  ℕ, ◌≡◌, refl, ◌∙◌, ap, sym, Bool, true, false, List, [], ◌∷◌, Option, none, some, ok, err, Result,
  Ends, Ends-all, and_then-Ends, ◌⊎◌, inl, inr, if◌then◌else◌, ◌==◌, ◌>>=◌, ◌>>◌, done, fail,
}
use revdial.Mux.{to_yamux}
use revdial.Proto.Static.{cmd_mux_init, cmd_mux_ready, cmd_register, res_success}
use revdial.Proto.Failure.{Error, mux_refused, unexpected_result}
use revdial.Proto.Conn.{Conn, M, read_full, send_request}
use revdial.Proto.Server.Outcomes.{close-closed}
use revdial.Proto.Client.Types.{
  Client, ClientOption, connected, processing, registered, disconnected, live, cancelled,
  client_state_eq, new_client, new_client-connected, on_conn, set_state,
}
use revdial.Proto.Client.Session.{establish, handle_register, cancel_on_error, cancel, close_client}
use revdial.Proto.Client.Frame.{Frame, on_conn-Frame, establish-Frame, handle_register-Frame}
use revdial.Proto.Multiplex.Yamux.{Yamux, sizes}
use revdial.Proto.Multiplex.ClientEnd.{
  ClientV2, ClientV2Option, new_client_v2, on_base, register, register_v1, try_v2_registration,
  start_session, open_control, on_control, take_control, with_control, taking, session_over, opened,
  open_on, with_options, over, with_mux_config_client, apply_options,
}

-- A client with a context, which `Close` still has to close.
abbrev pub IsOpen : Client → Type 0
IsOpen c = (client_state_eq c.state disconnected ≡ false) × ((c.ctx ≡ live) ⊎ (c.ctx ≡ cancelled))

pub close_client-IsOpen : (c : Client) → IsOpen c → (close_client c).1.conn.closed ≡ true
unfolding close_client
close_client-IsOpen c (s, inl e) = rw (s, e) (close-closed c.conn)
close_client-IsOpen c (s, inr e) = rw (s, e) (close-closed c.conn)

abbrev Going : Client → Type 0
Going c = (c.state ≡ processing) × (c.ctx ≡ live)

abbrev pub IsRegistered : Client → Type 0
IsRegistered c = (c.state ≡ registered) × (c.ctx ≡ live)

Going-IsOpen : (c : Client) → Going c → IsOpen c
Going-IsOpen c h = (rw h.0 refl, inl h.1)

Going-Frame : (c t : Client) → Frame c t → Going c → Going t
Going-Frame c t f h = (f.same_state ∙ h.0, f.same_ctx ∙ h.1)

-- A call that goes on where it succeeds, and leaves the client open where it fails.
abbrev GoesOn : {S A : Type 0} → Result Error A × ClientV2 S → Type 0
GoesOn r = Ends (λ _ c. Going c.base) (λ _ c. IsOpen c.base) r

module _ {S : Type 0} where
  on_base-GoesOn :
      {A : Type 0} (m : M Client A) (c : ClientV2 S)
      → Frame c.base (m c.base).1
      → Going c.base
      → GoesOn (on_base m c)
  on_base-GoesOn m c f h =
      let going = Going-Frame c.base (m c.base).1 f h in
      Ends-all (on_base m c) (λ _. going) (λ _. Going-IsOpen (m c.base).1 going)

  on_conn-GoesOn :
      {A : Type 0} (m : M Conn A) (c : ClientV2 S) → Going c.base → GoesOn (on_base (on_conn m) c)
  on_conn-GoesOn m c h = on_base-GoesOn (on_conn m) c (on_conn-Frame m c.base) h

  cancelling-GoesOn :
      (r : Result Error (Unit {0}) × Client) (c : ClientV2 S)
      → Frame c.base r.1
      → Going c.base
      → GoesOn ((cancel_on_error r).0, record c { base = (cancel_on_error r).1 })
  unfolding cancel
  cancelling-GoesOn (ok a, t) c f h = record { holds = Going-Frame c.base t f h }
  cancelling-GoesOn (err e, t) c f h = record {
    holds = (rw (Going-Frame c.base t f h).0 refl, inr refl);
  }

  -- What does not touch the client.
  test-GoesOn :
      (b : Bool) (e : Error) (c : ClientV2 S)
      → Going c.base
      → GoesOn ((if b then done else fail e) c)
  test-GoesOn true e c h = record { holds = h }
  test-GoesOn false e c h = record { holds = Going-IsOpen c.base h }

  control-GoesOn :
      {A : Type 0} (o : Option Conn) (m : M Conn A) (c : ClientV2 S)
      → Going c.base
      → GoesOn (with_control o m c)
  control-GoesOn none m c h = record { holds = Going-IsOpen c.base h }
  control-GoesOn (some stream) m c h =
      Ends-all (with_control (some stream) m c) (λ _. h) (λ _. Going-IsOpen c.base h)

  -- A client counts as registered before the goroutine puts the control stream in place.
  taking-Ends :
      (o : Option Conn) (c : ClientV2 S)
      → IsRegistered c.base
      → Ends (λ _ t. IsRegistered t.base) (λ _ t. IsOpen t.base) (taking o c)
  taking-Ends none c h = record { holds = (rw h.0 refl, inl h.1) }
  taking-Ends (some stream) c h = record { holds = h }

  register_v1-Ends :
      (id : List ℕ) (c : ClientV2 S)
      → Going c.base
      → Ends (λ _ t. IsRegistered t.base) (λ _ t. IsOpen t.base) (register_v1 id c)
  unfolding register_v1
  register_v1-Ends id c h =
      and_then-Ends _ (cancelling-GoesOn (establish c.base) _ (establish-Frame c.base) h) (λ _ t g.
        and_then-Ends _
          (cancelling-GoesOn (handle_register id t.base) t (handle_register-Frame id t.base) g)
          (λ _ v k. record { holds = (refl, k.1) }))

module _ {S R : Type 0} (y : Yamux S R) where
  session-GoesOn : (o : Option S) (c : ClientV2 S) → Going c.base → GoesOn (session_over y o c)
  session-GoesOn none c h = record { holds = Going-IsOpen c.base h }
  session-GoesOn (some s) c h = record { holds = h }

  opened-GoesOn : (o : Option Conn × S) (c : ClientV2 S) → Going c.base → GoesOn (opened y o c)
  opened-GoesOn (none, s) c h = record { holds = Going-IsOpen c.base h }
  opened-GoesOn (some stream, s) c h = record { holds = h }

  open_on-GoesOn : (o : Option S) (c : ClientV2 S) → Going c.base → GoesOn (open_on y o c)
  open_on-GoesOn none c h = record { holds = Going-IsOpen c.base h }
  open_on-GoesOn (some s) c h = opened-GoesOn (y.open_stream s) c h

  -- From the session on.
  after_sizes :
      (id : List ℕ) (c : ClientV2 S)
      → Going c.base
      → Ends
          (λ _ t. IsRegistered t.base)
          (λ _ t. IsOpen t.base)
          ((do
            start_session y
            open_control y
            result ← on_control (send_request (cmd_register ∷ id))
            if result == res_success then done else fail (unexpected_result result)
            on_base (set_state registered)
            take_control)
            c)
  after_sizes id c h =
      let session = y.client_session (to_yamux y.yamux_default c.mux_config) c.base.conn in
      and_then-Ends (start_session y c) (session-GoesOn session c h) (λ _ c1 h1.
        and_then-Ends (open_control y c1) (open_on-GoesOn c1.session c1 h1) (λ _ c2 h2.
          let asks = send_request (cmd_register ∷ id) in
          and_then-Ends (on_control asks c2) (control-GoesOn c2.control asks c2 h2) (λ result c3 h3.
            and_then-Ends
              ((if result == res_success then done else fail (unexpected_result result)) c3)
              (test-GoesOn (result == res_success) (unexpected_result result) c3 h3)
              (λ _ c4 h4.
                taking-Ends c4.control (on_base (set_state registered) c4).1 (refl, h4.1)))))

  try_v2-Ends :
      (id : List ℕ) (c : ClientV2 S)
      → Going c.base
      → Ends (λ _ t. IsRegistered t.base) (λ _ t. IsOpen t.base) (try_v2_registration y id c)
  unfolding try_v2_registration
  try_v2-Ends id c h =
      and_then-Ends _ (on_base-GoesOn establish c (establish-Frame c.base) h) (λ _ c1 h1.
        and_then-Ends _ (on_conn-GoesOn (send_request (cmd_mux_init ∷ sizes c1.mux_config)) c1 h1)
          (λ resp c2 h2.
            and_then-Ends _ (test-GoesOn (resp == cmd_mux_ready) (mux_refused resp) c2 h2)
              (λ _ c3 h3.
                and_then-Ends _ (on_conn-GoesOn (read_full 12) c3 h3) (λ _ c4. after_sizes id c4))))

  either-Ends :
      (b : Bool) (id : List ℕ) (c : ClientV2 S)
      → Going c.base
      → Ends
          (λ _ t. IsRegistered t.base)
          (λ _ t. IsOpen t.base)
          (if b then register_v1 id c else try_v2_registration y id c)
  either-Ends true id c h = register_v1-Ends id c h
  either-Ends false id c h = try_v2-Ends id c h

  -- On a client that is connected, Register of version 2 leaves it registered with its context live
  -- where it succeeds, and open for `Close` where it fails.
  pub register-Ends :
      (id : List ℕ) (c : ClientV2 S)
      → c.base.state ≡ connected
      → Ends (λ _ t. IsRegistered t.base) (λ _ t. IsOpen t.base) (register y id c)
  unfolding register
  register-Ends id c h =
      let started : ClientV2 S = record c {
        base = record c.base { state = processing; ctx = live };
      } in
      rw h (either-Ends c.base.disable_v2 id started (refl, refl))

module _ {S : Type 0} where
  apply_options-base :
      (opts : List ClientV2Option) (c : ClientV2 S) → (apply_options c opts).base ≡ c.base
  apply_options-base [] c = refl
  apply_options-base (with_mux_config_client config ∷ opts) c =
      apply_options-base opts (record c { mux_config = config })

  with_options-base :
      (o : Option Client) (opts : List ClientV2Option) (c : ClientV2 S)
      → with_options o opts ≡ some c
      → o ≡ some c.base
  with_options-base none opts c e = absurd cc
  with_options-base (some base) opts c e =
      ap some (sym (apply_options-base opts (over base)) ∙ ap (λ t. t.base) (some-injective _ _ e))

  pub new_client_v2-connected :
      (conn : Conn) (base_opts : List ClientOption) (opts : List ClientV2Option) (c : ClientV2 S)
      → new_client_v2 conn base_opts opts ≡ some c
      → c.base.state ≡ connected
  unfolding new_client_v2
  new_client_v2-connected conn base_opts opts c e =
      new_client-connected conn base_opts c.base
        (with_options-base (new_client conn base_opts) opts c e)
