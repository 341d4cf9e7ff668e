-- ===== src/Dialer/Serving.antt =====
-- The goroutines of the connections that a dialer's manager holds.
use mathlib.Core.Option.{some-injective}
use revdial.Common.{
  ℕ, ◌≡◌, refl, ap, sym, ◌∙◌, Bool, true, false, List, [], ◌∷◌, ◌++◌, Option, none, some, Result,
  ok, err, ◌==◌, ◌||◌, ◌⊎◌, inl, inr, if◌then◌else◌, bytes_eq, ==_refl, arith,
}
use revdial.Connmng.Manager.{ServerConn, get_conn}
use revdial.Connmng.Manager as Manager
use revdial.Connmng.Lookup.{find, add_connection_lem}
use revdial.Proto.Failure.{Error}
use revdial.Proto.Conn.{Conn}
use revdial.Proto.Uuid.{Uuid}
use revdial.Proto.Server.Types.{
  State, connected, processing, registered, bound, disconnected, state_eq, with_user_pass_auth,
}
use revdial.Proto.Multiplex.Yamux.{Yamux}
use revdial.Proto.Multiplex.ServerEnd.{ServerV2, new_server_v2, process, accept_stream}
use revdial.Proto.Multiplex.Frames.{accept_stream-base}
use revdial.Dialer.State.{
  Dialer, DialerOption, with_user_pass_auth_option, apply_options, new_dialer, with_server,
  add_server, remove_server, by_state, processed, handle_connection, streaming, handle_session,
}
use revdial.Dialer.Managed.{IsManaged, flip}
use revdial.Dialer.Lifecycle.{Service, without, registers, is_error}
use revdial.Dialer.Ending.{has, IsManaged-IsNamed, remove_server-Removes, found_left, other_handle}
use revdial.Dialer.Shrinking.{Shrinks, IsSettled}

module _ {S : Type 0} where
  -- The connections that are held have goroutines.
  abbrev pub HaveGoroutines : List ℕ → Dialer S → Type 0
  HaveGoroutines hs d =
      (id : List ℕ) (conn : ServerConn)
      → find id d.manager.connections ≡ some conn
      → has conn.handle hs ≡ true

  pub record IsServing (s : Service S) : Type 0 where
    pub managed : IsManaged false s.dialer
    pub served : HaveGoroutines s.running s.dialer

  apply_options-manager :
      (d : Dialer S) (opts : List DialerOption) → (apply_options d opts).manager ≡ d.manager
  apply_options-manager d [] = refl
  apply_options-manager d (with_user_pass_auth_option auth ∷ opts) =
      apply_options-manager
        (record d { server_opts = d.server_opts ++ with_user_pass_auth auth ∷ [] }) opts

  pub new_dialer-empty :
      (servers : ℕ → ServerV2 S) (opts : List DialerOption) (id : List ℕ)
      → find id (new_dialer servers opts).manager.connections ≡ none
  unfolding new_dialer Manager.new find
  new_dialer-empty servers opts id = ap (λ m. find id m.connections) (apply_options-manager _ opts)

  pub shrunk-HaveGoroutines :
      (hs : List ℕ) (d after : Dialer S)
      → HaveGoroutines hs d
      → Shrinks d after
      → HaveGoroutines hs after
  shrunk-HaveGoroutines hs d after h s id conn e = h id conn (s.before id conn e)

  pub settled : {live : Bool} (d : Dialer S) → IsManaged live d → IsSettled d
  settled d m = record { distinct = m.distinct; closes_none = m.closes_none }

has-without :
    (k h : ℕ) (hs : List ℕ) → (k == h) ≡ false → has k hs ≡ true → has k (without h hs) ≡ true
has-without k h [] n e = e
has-without k h (x ∷ xs) n e = ground (arith, has-without k h xs n)

or_true : (a : Bool) → (a || true) ≡ true
or_true true = refl
or_true false = refl

module _ {S R : Type 0} (u : Uuid) (y : Yamux S R) where
  -- What a new connection adds.
  abbrev AddedOr : Bool → ℕ → Dialer S → List ℕ → ServerConn → Type 0
  AddedOr b h d id conn =
      ((b ≡ true) × (conn.handle ≡ h)) ⊎ (find id d.manager.connections ≡ some conn)

  found_new :
      (b : Bool) (h : ℕ) (d : Dialer S) (id : List ℕ) (new : ServerConn) (o : Option ServerConn)
      (conn : ServerConn)
      → new.handle ≡ h
      → o ≡ find id d.manager.connections
      → (if b then some new else o) ≡ some conn
      → AddedOr true h d id conn
  found_new true h d id new o conn k f e =
      inl (refl, ap (λ c. c.handle) (sym (some-injective new conn e)) ∙ k)
  found_new false h d id new o conn k f e = inr (sym f ∙ e)

  added_server :
      (h : ℕ) (d : Dialer S) (id : List ℕ) (conn : ServerConn)
      → IsSettled d
      → find id (add_server u y h d).manager.connections ≡ some conn
      → AddedOr true h d id conn
  unfolding add_server
  added_server h d id conn n e =
      let own = (d.servers h).base.id in
      let serv : ServerConn = record { id = own; handle = h; close_fails = false } in
      found_new (bytes_eq own id) h d id serv (find id d.manager.connections) conn refl refl
        (sym (add_connection_lem serv d.manager id n.distinct).1 ∙ e)

  by_state-adds :
      (state : State) (h : ℕ) (d : Dialer S) (id : List ℕ) (conn : ServerConn)
      → IsSettled d
      → find id (by_state u y state h d).manager.connections ≡ some conn
      → AddedOr (state_eq state registered) h d id conn
  by_state-adds registered h d id conn n e = added_server h d id conn n e
  by_state-adds bound h d id conn n e = inr e
  by_state-adds connected h d id conn n e = inr e
  by_state-adds processing h d id conn n e = inr e
  by_state-adds disconnected h d id conn n e = inr e

  processed-adds :
      (h : ℕ) (r : Result Error (Unit {0}) × ServerV2 S) (d : Dialer S) (id : List ℕ)
      (conn : ServerConn)
      → IsSettled d
      → find id (processed u y h r d).manager.connections ≡ some conn
      → AddedOr (registers u y r) h d id conn
  processed-adds h (ok a, s) d id conn n e =
      by_state-adds s.base.state h (with_server h s d) id conn
        (record { distinct = n.distinct; closes_none = n.closes_none }) e
  processed-adds h (err x, s) d id conn n e = inr e

  either_list :
      (b : Bool) (h : ℕ) (hs : List ℕ) (d : Dialer S) (id : List ℕ) (conn : ServerConn)
      → HaveGoroutines hs d
      → AddedOr b h d id conn
      → has conn.handle (if b then h ∷ hs else hs) ≡ true
  either_list b h hs d id conn k (inl (e, same)) = rw (e, same, ==_refl h) refl
  either_list true h hs d id conn k (inr e) = rw (k id conn e) (or_true (h == conn.handle))
  either_list false h hs d id conn k (inr e) = k id conn e

  pub connects-HaveGoroutines :
      (h : ℕ) (conn : Conn) (hs : List ℕ) (d : Dialer S)
      → IsSettled d
      → HaveGoroutines hs d
      → let r = process u y (new_server_v2 conn d.server_opts []) in
        HaveGoroutines (if registers u y r then h ∷ hs else hs) (handle_connection u y h conn d)
  unfolding handle_connection
  connects-HaveGoroutines h conn hs d n k id held e =
      let r = process u y (new_server_v2 conn d.server_opts []) in
      either_list (registers u y r) h hs d id held k (processed-adds h r d id held n e)

  -- A connection whose goroutine ends is not held any more.
  pub removed-HaveGoroutines :
      (h : ℕ) (hs : List ℕ) (d ended : Dialer S)
      → ended.manager ≡ d.manager
      → (ended.servers h).base.id ≡ (d.servers h).base.id
      → IsManaged false d
      → HaveGoroutines hs d
      → HaveGoroutines (without h hs) (remove_server u y h ended)
  removed-HaveGoroutines h hs d ended manager own m k id conn e =
      let r =
        remove_server-Removes u y h ended (rw manager m.distinct) (rw manager m.closes_none) in
      let f = found_left u y _ _ conn (sym (r.left id) ∙ e) in
      let found = ap (λ g. find id g.connections) (sym manager) ∙ f.1 in
      has-without conn.handle h hs
        (flip h conn.handle (
          other_handle u y h id conn d (IsManaged-IsNamed d m) found
            (ap (λ i. bytes_eq i id) (sym own) ∙ f.0)))
        (k id conn found)

  streaming-HaveGoroutines :
      (h n : ℕ) (r : Result Error Conn × ServerV2 S) (hs : List ℕ) (d : Dialer S)
      → r.1.base.id ≡ (d.servers h).base.id
      → IsManaged false d
      → HaveGoroutines hs d
      → HaveGoroutines (if is_error u y r.0 then without h hs else hs) (streaming u y h n r d)
  streaming-HaveGoroutines h n (ok stream, s) hs d same m k id conn e = k id conn e
  streaming-HaveGoroutines h n (err x, s) hs d same m k id conn e =
      removed-HaveGoroutines h hs d (with_server h s d) refl (rw (==_refl h) same) m k id conn e

  pub streams-HaveGoroutines :
      (h n : ℕ) (hs : List ℕ) (d : Dialer S)
      → IsManaged false d
      → HaveGoroutines hs d
      → HaveGoroutines
          (if is_error u y (accept_stream u y (d.servers h)).0 then without h hs else hs)
          (handle_session u y h n d)
  unfolding handle_session
  streams-HaveGoroutines h n hs d m k =
      streaming-HaveGoroutines h n (accept_stream u y (d.servers h)) hs d
        (ap (λ s. s.id) (accept_stream-base u y (d.servers h))) m k
