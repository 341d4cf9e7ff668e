-- ===== src/Dialer/Emptying.antt =====
-- The ends of the goroutines of all registered connections, one after the other.
use revdial.Common.{
  arith, ◌==◌, ◌||◌, ==_refl, refl, false, ℕ, ◌≡◌, ap, sym, ◌∙◌, true, List, [], ◌∷◌, none, some,
  Option-cases, bytes_eq, bytes_eq_sound, Bool-cases, inl, inr,
}
use revdial.Connmng.Manager.{ServerConn}
use revdial.Connmng.Lookup.{find}
use revdial.Proto.Uuid.{Uuid}
use revdial.Proto.Multiplex.Yamux.{Yamux}
use revdial.Dialer.State.{Dialer}
use revdial.Dialer.Lifecycle.{end_server, end_servers, without}
use revdial.Dialer.Rounds.{end_server-Removes, end_server-running}
use revdial.Dialer.Ending.{has, IsShut, IsNamed, Removes-IsNamed, found_left, other_server}

module _ {S R : Type 0} (u : Uuid) (y : Yamux S R) where
  abbrev pub Covers : List ℕ → List ℕ → Dialer S → Type 0
  Covers hs id d =
      (conn : ServerConn) → find id d.manager.connections ≡ some conn → has conn.handle hs ≡ true

  -- The goroutines of all connections end: nothing is held under the id.
  pub end_servers-none :
      (hs : List ℕ) (id : List ℕ) (d : Dialer S) (running : List ℕ)
      → IsNamed d
      → Covers hs id d
      → find id (end_servers u y hs (d, running)).0.manager.connections ≡ none
  end_servers-none [] id d running n c = elim (Option-cases (find id d.manager.connections)) [
    | inl e ↦ e
    | inr (conn, e) ↦ absurd (let m = c conn e in cc)
  ]
  end_servers-none (h ∷ hs) id d running n c =
      let gone = (d.servers h).base.id in
      let r = end_server-Removes u y h d running n in
      let after = end_server u y h (d, running) in
      end_servers-none hs id after.0 after.1 (Removes-IsNamed u y gone d _ n r) (λ conn e.
        let f =
          found_left u y (bytes_eq gone id) (find id d.manager.connections) conn
            (sym (r.left id) ∙ e) in
        other_server u y h hs id conn d n f.1 f.0 (c conn f.1))

  end_servers-stays-IsShut :
      (hs : List ℕ) (k : ℕ) (d : Dialer S) (running : List ℕ)
      → IsNamed d
      → IsShut (d.servers k)
      → IsShut ((end_servers u y hs (d, running)).0.servers k)
  end_servers-stays-IsShut [] k d running n s = s
  end_servers-stays-IsShut (h ∷ hs) k d running n s =
      let r = end_server-Removes u y h d running n in
      let after = end_server u y h (d, running) in
      end_servers-stays-IsShut hs k after.0 after.1
        (Removes-IsNamed u y (d.servers h).base.id d _ n r) (r.stays_shut k s)

  -- And the server that was held there is closed.
  pub end_servers-IsShut :
      (hs : List ℕ) (id : List ℕ) (conn : ServerConn) (d : Dialer S) (running : List ℕ)
      → IsNamed d
      → find id d.manager.connections ≡ some conn
      → has conn.handle hs ≡ true
      → IsShut ((end_servers u y hs (d, running)).0.servers conn.handle)
  end_servers-IsShut [] id conn d running n e m = absurd cc
  end_servers-IsShut (h ∷ hs) id conn d running n e m =
      let gone = (d.servers h).base.id in
      let r = end_server-Removes u y h d running n in
      let after = end_server u y h (d, running) in
      let named = Removes-IsNamed u y gone d after.0 n r in
      elim (Bool-cases (bytes_eq gone id)) [
        | inl same ↦
            end_servers-stays-IsShut hs conn.handle after.0 after.1 named
              (r.shuts conn (ap (λ i. find i d.manager.connections) (bytes_eq_sound _ _ same) ∙ e))
        | inr other ↦
            end_servers-IsShut hs id conn after.0 after.1 named (r.left id ∙ rw other e)
              (other_server u y h hs id conn d n e other m)
      ]

  pub end_servers-IsNamed :
      (hs : List ℕ) (d : Dialer S) (running : List ℕ)
      → IsNamed d
      → IsNamed (end_servers u y hs (d, running)).0
  end_servers-IsNamed [] d running n = n
  end_servers-IsNamed (h ∷ hs) d running n =
      let after = end_server u y h (d, running) in
      end_servers-IsNamed hs after.0 after.1
        (Removes-IsNamed u y (d.servers h).base.id d _ n (end_server-Removes u y h d running n))

  has-without :
      (k h : ℕ) (hs : List ℕ) → has k (without h hs) ≡ true → ((h == k) ≡ false) × (has k hs ≡ true)
  has-without k h [] e = absurd cc
  has-without k h (x ∷ xs) e = ground (arith, has-without k h xs)

  has-none : (hs : List ℕ) → ((k : ℕ) → has k hs ≡ true → has k [] ≡ true) → hs ≡ []
  has-none [] c = refl
  has-none (h ∷ hs) c = absurd (let first = c h (rw (==_refl h) refl) in cc)

  -- When all of the goroutines have ended, none runs.
  pub end_servers-running :
      (hs : List ℕ) (d : Dialer S) (running : List ℕ)
      → ((k : ℕ) → has k running ≡ true → has k hs ≡ true)
      → (end_servers u y hs (d, running)).1 ≡ []
  end_servers-running [] d running c = has-none running c
  end_servers-running (h ∷ hs) d running c =
      let after = end_server u y h (d, running) in
      end_servers-running hs after.0 after.1 (λ k e.
        let w =
          has-without k h running (ap (has k) (sym (end_server-running u y h d running)) ∙ e) in
        ap (λ b. b || has k hs) (sym w.0) ∙ c k w.1)
