-- ===== src/Dialer/Life.antt =====
-- What each call of a dialer does to the connections that its manager holds.
use revdial.Common.{Bool, ℕ, ◌≡◌, refl, ap, sym, ◌∙◌, List, [], ◌∷◌, ◌++◌, ok, err, Result, ==_refl}
use revdial.Connmng.Manager.{
  ConnManager, ServerConn, Got, nothing, out_of_range, got, get_conn, indexed,
}
use revdial.Connmng.Manager as Manager
use revdial.Connmng.Lookup.{find}
use revdial.Proto.Failure.{Error}
use revdial.Proto.Conn.{Conn}
use revdial.Proto.Uuid.{Uuid}
use revdial.Proto.Server.Types.{
  with_user_pass_auth, State, connected, processing, registered, bound, disconnected,
}
use revdial.Proto.Server.Frame.{Frame}
use revdial.Proto.Multiplex.Yamux.{Yamux}
use revdial.Proto.Multiplex.ServerEnd.{ServerV2}
use revdial.Dialer.Requests.{Requests}
use revdial.Dialer.State.{
  Dialer, DialerOption, new_dialer, apply_options, with_user_pass_auth_option, with_manager,
  with_server, asked_by, sent_by, processed, by_state, streaming,
}
use revdial.Dialer.Managed.{
  IsManaged, IsNew, with_server-IsManaged, new_server-IsManaged, remove_server-IsManaged,
  add_server-IsManaged,
}

module _ {S : Type 0} where
  -- The manager's connections and the servers are all that counts.
  pub with_manager-IsManaged :
      {live : Bool}
      → (m : ConnManager) (d : Dialer S) → m.connections ≡ d.manager.connections
      → m.closed ≡ d.manager.closed
      → IsManaged live d
      → IsManaged live (with_manager m d)
  with_manager-IsManaged m d e f h = record {
    distinct = rw e h.distinct;
    closes_none = f ∙ h.closes_none;
    holds = λ id serv g. h.holds id serv (ap (find id) (sym e) ∙ g);
  }

  pub with_requests-IsManaged :
      {live : Bool}
      → (r : Requests) (d : Dialer S) → IsManaged live d
      → IsManaged live (record d { requests = r })
  with_requests-IsManaged r d h = record {
    distinct = h.distinct;
    closes_none = h.closes_none;
    holds = h.holds;
  }

  apply_options-IsManaged :
      {live : Bool}
      → (d : Dialer S) (opts : List DialerOption) → IsManaged live d
      → IsManaged live (apply_options d opts)
  apply_options-IsManaged d [] h = h
  apply_options-IsManaged d (with_user_pass_auth_option auth ∷ opts) h =
      apply_options-IsManaged
        (record d { server_opts = d.server_opts ++ with_user_pass_auth auth ∷ [] }) opts
        (record { distinct = h.distinct; closes_none = h.closes_none; holds = h.holds })

  pub new_dialer-IsManaged :
      {live : Bool}
      → (servers : ℕ → ServerV2 S) (opts : List DialerOption)
      → IsManaged live (new_dialer servers opts)
  unfolding new_dialer Manager.new find
  new_dialer-IsManaged servers opts =
      apply_options-IsManaged _ opts
        (record { distinct = tt; closes_none = refl; holds = λ id serv e. absurd cc })

module _ {S R : Type 0} (u : Uuid) (y : Yamux S R) where
  by_state-IsManaged :
      {live : Bool}
      → (state : State) (h : ℕ) (d : Dialer S) → (d.servers h).base.state ≡ state
      → IsNew h d
      → IsManaged live d
      → IsManaged live (by_state u y state h d)
  by_state-IsManaged registered h d e n m = add_server-IsManaged u y h d e n m
  by_state-IsManaged bound h d e n m = with_requests-IsManaged _ d m
  by_state-IsManaged connected h d e n m = new_server-IsManaged h _ d n m
  by_state-IsManaged processing h d e n m = new_server-IsManaged h _ d n m
  by_state-IsManaged disconnected h d e n m = new_server-IsManaged h _ d n m

  pub processed-IsManaged :
      {live : Bool}
      → (h : ℕ) (r : Result Error (Unit {0}) × ServerV2 S) (d : Dialer S) → IsNew h d
      → IsManaged live d
      → IsManaged live (processed u y h r d)
  processed-IsManaged h (err e, s) d n m = new_server-IsManaged h _ d n m
  processed-IsManaged h (ok a, s) d n m =
      by_state-IsManaged s.base.state h (with_server h s d) (rw (==_refl h)) n
        (new_server-IsManaged h s d n m)

  pub streaming-IsManaged :
      {live : Bool}
      → (h n : ℕ) (r : Result Error Conn × ServerV2 S) (d : Dialer S)
      → Frame (d.servers h).base r.1.base
      → IsManaged live d
      → IsManaged live (streaming u y h n r d)
  streaming-IsManaged h n (err e, s) d f m =
      remove_server-IsManaged u y h _ (with_server-IsManaged h s d f m)
  streaming-IsManaged h n (ok stream, s) d f m =
      with_requests-IsManaged _ _ (with_server-IsManaged h s d f m)

  pub asked-IsManaged :
      {live : Bool}
      → (h : ℕ) (id : List ℕ) (n : ℕ) (r : Result Error (Unit {0}) × ServerV2 S) (d : Dialer S)
      → Frame (d.servers h).base r.1.base
      → IsManaged live d
      → IsManaged live (asked_by u y h id n r d).1
  asked-IsManaged h id n (ok a, s) d f m = with_server-IsManaged h s d f m
  asked-IsManaged h id n (err e, s) d f m =
      with_requests-IsManaged _ _
        (remove_server-IsManaged u y h _ (with_server-IsManaged h s d f m))

  pub sent-IsManaged :
      {live : Bool}
      → (h : ℕ) (r : Result Error (Unit {0}) × ServerV2 S) (d : Dialer S)
      → Frame (d.servers h).base r.1.base
      → IsManaged live d
      → IsManaged live (sent_by u y h r d).1
  sent-IsManaged h (ok a, s) d f m = with_server-IsManaged h s d f m
  sent-IsManaged h (err e, s) d f m =
      remove_server-IsManaged u y h _ (with_server-IsManaged h s d f m)
