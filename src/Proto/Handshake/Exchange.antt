-- ===== src/Proto/Handshake/Exchange.antt =====
-- Two programs that talk over one connection, each as a function of what it reads.
--
-- Neither end looks at what has not come: given the first part of its input it writes the first
-- part of its output, and stops at the first read that finds nothing. So the conversation is built
-- up from no input at all, one round trip after the other, until a round adds nothing.
use revdial.Common.{ℕ, zero, suc, ◌≡◌, List, [], Result, ap, sym, subst, ◌∙◌}
use revdial.Proto.Failure.{Error}
use revdial.Proto.Conn.{Conn, M}
use revdial.Proto.Conn.Laws.{healthy}
use revdial.Proto.Client.Types.{Client}
use revdial.Proto.Server.Types.{Server}

abbrev pub Outcome : Type 0 → Type 0
Outcome S = Result Error (Unit {0}) × S

-- Each end starts on an open connection; what one end writes is what the other reads.
module _ (call : M Client (Unit {0})) (client : Conn → Client) (serve : M Server (Unit {0}))
    (server : Conn → Server) where
  abbrev pub client_run : List (List ℕ) → Outcome Client
  client_run replies = call (client (healthy replies []))

  abbrev pub requests_after : List (List ℕ) → List (List ℕ)
  requests_after replies = (client_run replies).1.conn.outbound

  abbrev pub server_run : List (List ℕ) → Outcome Server
  server_run requests = serve (server (healthy requests []))

  abbrev pub replies_after : List (List ℕ) → List (List ℕ)
  replies_after replies = (server_run (requests_after replies)).1.conn.outbound

  -- What the server has replied after so many round trips.
  abbrev pub replies_in : ℕ → List (List ℕ)
  replies_in zero = []
  replies_in (suc n) = replies_after (replies_in n)

  -- The conversation is over after n round trips, and the two calls have ended so.
  pub record Settles (n : ℕ) (P : Outcome Client → Type 0) (Q : Outcome Server → Type 0)
      : Type 0 where
    pub settled : replies_in (suc n) ≡ replies_in n
    pub client_ends : P (client_run (replies_in n))
    pub server_ends : Q (server_run (requests_after (replies_in n)))

  -- One more round trip.
  one_more :
      (n : ℕ) {known more : List (List ℕ)}
      → replies_in n ≡ known
      → replies_after known ≡ more
      → replies_in (suc n) ≡ more
  one_more n e f = ap replies_after e ∙ f

  module _ {P : Outcome Client → Type 0} {Q : Outcome Server → Type 0} where
    settle :
        (n : ℕ) (known : List (List ℕ))
        → replies_in n ≡ known
        → replies_after known ≡ known
        → P (client_run known)
        → Q (server_run (requests_after known))
        → Settles n P Q
    settle n known e f p q = record {
      settled = one_more n e f ∙ sym e;
      client_ends = subst (λ r. P (client_run r)) (sym e) p;
      server_ends = subst (λ r. Q (server_run (requests_after r))) (sym e) q;
    }

    -- Conversations of one, two and three round trips.
    pub settle_one :
        (one : List (List ℕ))
        → replies_after [] ≡ one
        → replies_after one ≡ one
        → P (client_run one)
        → Q (server_run (requests_after one))
        → Settles 1 P Q
    settle_one one e f p q = settle 1 one e f p q

    pub settle_two :
        (one two : List (List ℕ))
        → replies_after [] ≡ one
        → replies_after one ≡ two
        → replies_after two ≡ two
        → P (client_run two)
        → Q (server_run (requests_after two))
        → Settles 2 P Q
    settle_two one two e f g p q = settle 2 two (one_more 1 e f) g p q

    pub settle_three :
        (one two three : List (List ℕ))
        → replies_after [] ≡ one
        → replies_after one ≡ two
        → replies_after two ≡ three
        → replies_after three ≡ three
        → P (client_run three)
        → Q (server_run (requests_after three))
        → Settles 3 P Q
    settle_three one two three e f g h p q = settle 3 three (one_more 2 (one_more 1 e f) g) h p q
