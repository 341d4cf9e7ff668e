-- ===== src/Proto/Multiplex/Wires.antt =====
-- Two programs that talk over a connection and over the first stream of a session on it, each as a
-- function of what it reads, as in Handshake/Exchange.
use revdial.Common.{refl, ℕ, zero, suc, ◌≡◌, List, [], ap, sym, subst, ◌∙◌}

-- What goes one way: over the connection before it becomes a session, and over the control stream.
pub record Wires : Type 0 where
  pub plain : List (List ℕ)
  pub control : List (List ℕ)

abbrev pub silence : Wires
silence = record { plain = []; control = [] }

module _ {C D : Type 0} (client_run : Wires → C) (requests_of : C → Wires) (server_run : Wires → D)
    (replies_of : D → Wires) where
  abbrev pub replies_after : Wires → Wires
  replies_after replies = replies_of (server_run (requests_of (client_run replies)))

  -- What the server has replied after so many round trips.
  abbrev pub replies_in : ℕ → Wires
  replies_in zero = silence
  replies_in (suc n) = replies_after (replies_in n)

  -- The conversation is over after n round trips, and the two calls have ended so.
  pub record Settles (n : ℕ) (P : C → Type 0) (Q : D → Type 0) : Type 0 where
    pub settled : replies_in (suc n) ≡ replies_in n
    pub client_ends : P (client_run (replies_in n))
    pub server_ends : Q (server_run (requests_of (client_run (replies_in n))))

  -- The round trips, one by one, where the requests and the replies of each are known.
  pub round :
      (n : ℕ) {known asked more : Wires}
      → replies_in n ≡ known
      → requests_of (client_run known) ≡ asked
      → replies_of (server_run asked) ≡ more
      → replies_in (suc n) ≡ more
  round n e f g = ap replies_after e ∙ ap (λ q. replies_of (server_run q)) f ∙ g

  pub settles :
      (n : ℕ) {P : C → Type 0} {Q : D → Type 0} {known asked : Wires}
      → replies_in n ≡ known
      → requests_of (client_run known) ≡ asked
      → replies_of (server_run asked) ≡ known
      → P (client_run known)
      → Q (server_run asked)
      → Settles n P Q
  settles n {P} {Q} e f g p q = record {
    settled = round n e f g ∙ sym e;
    client_ends = subst (λ r. P (client_run r)) (sym e) p;
    server_ends =
        subst (λ r. Q (server_run (requests_of (client_run r)))) (sym e)
          (subst (λ r. Q (server_run r)) (sym f) q);
  }

-- Another program in the client's place that sends the same, and ends so wherever the first does.
module _ {C C' D : Type 0} (client_run : Wires → C) (requests_of : C → Wires)
    (client_run' : Wires → C') (requests_of' : C' → Wires) (server_run : Wires → D)
    (replies_of : D → Wires) where
  same_replies :
      ((w : Wires) → requests_of' (client_run' w) ≡ requests_of (client_run w))
      → (n : ℕ)
      → replies_in client_run' requests_of' server_run replies_of n
        ≡ replies_in client_run requests_of server_run replies_of n
  same_replies e zero = refl
  same_replies e (suc n) =
      ap (λ w. replies_of (server_run (requests_of' (client_run' w)))) (same_replies e n)
      ∙ ap (λ q. replies_of (server_run q))
          (e (replies_in client_run requests_of server_run replies_of n))

  pub Settles-instead :
      (n : ℕ) {P : C → Type 0} {P' : C' → Type 0} {Q : D → Type 0}
      → ((w : Wires) → requests_of' (client_run' w) ≡ requests_of (client_run w))
      → ((w : Wires) → P (client_run w) → P' (client_run' w))
      → Settles client_run requests_of server_run replies_of n P Q
      → Settles client_run' requests_of' server_run replies_of n P' Q
  Settles-instead n {P} {P'} {Q} e k h =
      let known = replies_in client_run requests_of server_run replies_of n in
      let same = same_replies e n in
      record {
        settled = same_replies e (suc n) ∙ h.settled ∙ sym same;
        client_ends = subst (λ w. P' (client_run' w)) (sym same) (k known h.client_ends);
        server_ends =
            subst (λ w. Q (server_run (requests_of' (client_run' w)))) (sym same)
              (subst (λ q. Q (server_run q)) (sym (e known)) h.server_ends);
      }
