-- ===== src/Dialer/Served.antt =====
-- All that happens to a dialer from `Start` to `Stop` and after: every connection under its manager has
-- a goroutine.
use Prim.Native.String.{String}
use revdial.Common.{ℕ, ◌≡◌, refl, Bool, true, false, List, Option, none, some, inl, inr, Bool-cases}
use revdial.Connmng.Lookup.{find}
use revdial.Proto.Conn.{Conn}
use revdial.Proto.Uuid.{Uuid}
use revdial.Proto.Commands.{Json}
use revdial.Proto.Client.Types.{Ctx, unset, live, cancelled}
use revdial.Proto.Multiplex.Yamux.{Yamux}
use revdial.Proto.Multiplex.ServerEnd.{ServerV2}
use revdial.Dialer.Requests.{Requests}
use revdial.Dialer.State.{Dialer, remove_server, request_connection, send_event}
use revdial.Dialer.Managed.{IsNew, remove_server-IsManaged}
use revdial.Dialer.Reached.{
  connects-IsManaged, closing-IsManaged, streams-IsManaged, dials-IsManaged, sends-IsManaged,
}
use revdial.Dialer.Life.{new_dialer-IsManaged, with_requests-IsManaged}
use revdial.Dialer.Lifecycle.{
  handle_accepted, handle_taken, begin_stop, closing, without, Service, ServiceOption, is_open,
  new_service, dialer_options, start, serve, serve_session, end_servers, stopped, stop,
}
use revdial.Dialer.Ending.{has, IsManaged-IsNamed}
use revdial.Dialer.Emptying.{end_servers-IsNamed, end_servers-none}
use revdial.Dialer.Serving.{
  IsServing, HaveGoroutines, removed-HaveGoroutines, connects-HaveGoroutines,
  streams-HaveGoroutines, new_dialer-empty, shrunk-HaveGoroutines, settled,
}
use revdial.Dialer.Shrinking.{request_connection-Shrinks, send_event-Shrinks}

module _ {S R V : Type 0} (u : Uuid) (y : Yamux S R) (json : Json V) where
  -- The order names every one of these goroutines.
  abbrev pub Includes : List ℕ → List ℕ → Type 0
  Includes order hs = (k : ℕ) → has k hs ≡ true → has k order ≡ true

  -- All that happens to a service. A network listener is opened where none is open. The handler of a
  -- connection runs at any time after it was accepted, after `Stop` too. `cancels` is the first part of
  -- `Stop`, after which sessions are closed and goroutines of version 1 end, one by one; `stops` is a
  -- `Stop` whose wait nothing else disturbs, where `order` is the one in which the goroutines end.
  pub data Served : Service S → Type 0 where
    begins :
        (servers : ℕ → ServerV2 S) (listen : String) (opts : List ServiceOption)
        → Served (new_service servers listen opts)
    starts :
        {s : Service S} (opens : Option ℕ → String → Bool)
        → is_open s.listener ≡ false
        → Served s
        → Served (start opens s).1
    accepts : {s : Service S} (h : ℕ) (conn : Conn) → Served s → Served (serve u y h conn s)
    handles :
        {s : Service S} (h : ℕ) → IsNew h s.dialer → Served s → Served (handle_accepted u y h s)
    streams : {s : Service S} (h n : ℕ) → Served s → Served (serve_session u y h n s)
    dials :
        {s : Service S} (id : List ℕ)
        → Served s
        → Served (record s { dialer = (request_connection u y id s.dialer).1 })
    sends :
        {s : Service S} (name : String) (v : V)
        → Served s
        → Served (record s { dialer = (send_event u y json name v s.dialer).1 })
    requests :
        {s : Service S} (r : Requests)
        → Served s
        → Served (record s { dialer = record s.dialer { requests = r } })
    cancels : {s : Service S} → Served s → Served (begin_stop u y s)
    closes :
        {s : Service S} (h : ℕ)
        → s.ctx ≡ cancelled
        → Served s
        → Served (record s { dialer = closing u y (s.dialer.servers h).is_v2 h s.dialer })
    leaves :
        {s : Service S} (h : ℕ)
        → s.ctx ≡ cancelled
        → (s.dialer.servers h).is_v2 ≡ false
        → Served s
        → Served (record s { dialer = remove_server u y h s.dialer; running = without h s.running })
    stops :
        {s : Service S} (order : List ℕ)
        → Includes order s.running
        → Served s
        → Served (stop u y order s)

  start-IsServing :
      (opens : Option ℕ → String → Bool) (s : Service S) → IsServing s → IsServing (start opens s).1
  unfolding start
  start-IsServing opens s h = elim (Bool-cases (opens s.tls_config s.listen_address)) [
    | inl e ↦ rw e (record { managed = h.managed; served = h.served })
    | inr e ↦ rw e (record { managed = h.managed; served = h.served })
  ]

  serve-IsServing :
      (h : ℕ) (conn : Conn) (s : Service S) → IsServing s → IsServing (serve u y h conn s)
  unfolding serve
  serve-IsServing h conn s k = elim (Bool-cases (is_open s.listener)) [
    | inl e ↦ rw e (record { managed = k.managed; served = k.served })
    | inr e ↦ rw e k
  ]

  handled-IsServing :
      (h : ℕ) (o : Option Conn) (s : Service S)
      → IsNew h s.dialer
      → IsServing s
      → IsServing (handle_taken u y h o s)
  handled-IsServing h none s n k = k
  handled-IsServing h (some conn) s n k = record {
    managed = connects-IsManaged u y json h conn s.dialer n k.managed;
    served =
        connects-HaveGoroutines u y h conn s.running s.dialer (settled s.dialer k.managed) k.served;
  }

  closing-HaveGoroutines :
      (b : Bool) (h : ℕ) (hs : List ℕ) (d : Dialer S)
      → HaveGoroutines hs d
      → HaveGoroutines hs (closing u y b h d)
  closing-HaveGoroutines true h hs d k id conn e = k id conn e
  closing-HaveGoroutines false h hs d k id conn e = k id conn e

  pub ends-none :
      (order : List ℕ) (s : Service S) (id : List ℕ)
      → IsServing s
      → Includes order s.running
      → find id ((end_servers u y order (s.dialer, s.running)).0).manager.connections ≡ none
  ends-none order s id k c =
      end_servers-none u y order id s.dialer s.running (IsManaged-IsNamed s.dialer k.managed)
        (λ conn e. c conn.handle (k.served id conn e))

  ended-IsServing :
      (order : List ℕ) (s : Service S)
      → IsServing s
      → Includes order s.running
      → IsServing (stopped u y live order s)
  unfolding begin_stop
  ended-IsServing order s k c =
      let n =
        end_servers-IsNamed u y order s.dialer s.running (IsManaged-IsNamed s.dialer k.managed) in
      record {
        managed = record {
          distinct = n.distinct;
          closes_none = n.closes_none;
          holds = λ id conn e. absurd (let none_held = ends-none order s id k c in cc);
        };
        served = λ id conn e. absurd (let none_held = ends-none order s id k c in cc);
      }

  stopped-IsServing :
      (ctx : Ctx) (order : List ℕ) (s : Service S)
      → IsServing s
      → Includes order s.running
      → IsServing (stopped u y ctx order s)
  stopped-IsServing unset order s k c = k
  stopped-IsServing live order s k c = ended-IsServing order s k c
  stopped-IsServing cancelled order s k c = ended-IsServing order s k c

  pub Served-IsServing : {s : Service S} → Served s → IsServing s
  unfolding new_service serve_session stop begin_stop handle_accepted
  Served-IsServing (begins servers listen opts) = record {
    managed = new_dialer-IsManaged servers (dialer_options opts);
    served = λ id conn e.
        absurd (let held_none = new_dialer-empty servers (dialer_options opts) id in cc);
  }
  Served-IsServing (starts opens e r) = start-IsServing opens _ (Served-IsServing r)
  Served-IsServing (accepts h conn r) = serve-IsServing h conn _ (Served-IsServing r)
  Served-IsServing (handles h n r) = handled-IsServing h _ _ n (Served-IsServing r)
  Served-IsServing (cancels r) =
      let k = Served-IsServing r in record { managed = k.managed; served = k.served }
  Served-IsServing (closes h e r) =
      let k = Served-IsServing r in
      record {
        managed = closing-IsManaged u y json _ h _ k.managed;
        served = closing-HaveGoroutines _ h _ _ k.served;
      }
  Served-IsServing (leaves h c e r) =
      let k = Served-IsServing r in
      record {
        managed = remove_server-IsManaged u y h _ k.managed;
        served = removed-HaveGoroutines u y h _ _ _ refl refl k.managed k.served;
      }
  Served-IsServing (streams h n r) =
      let k = Served-IsServing r in
      record {
        managed = streams-IsManaged u y json h n _ k.managed;
        served = streams-HaveGoroutines u y h n _ _ k.managed k.served;
      }
  Served-IsServing (dials id r) =
      let k = Served-IsServing r in
      record {
        managed = dials-IsManaged u y json id _ k.managed;
        served =
            shrunk-HaveGoroutines _ _ _ k.served
              (request_connection-Shrinks u y id _ (settled _ k.managed));
      }
  Served-IsServing (sends name v r) =
      let k = Served-IsServing r in
      record {
        managed = sends-IsManaged u y json name v _ k.managed;
        served =
            shrunk-HaveGoroutines _ _ _ k.served
              (send_event-Shrinks u y json name v _ (settled _ k.managed));
      }
  Served-IsServing (requests q r) =
      let k = Served-IsServing r in
      record { managed = with_requests-IsManaged q _ k.managed; served = k.served }
  Served-IsServing (stops order c r) = stopped-IsServing _ order _ (Served-IsServing r) c
