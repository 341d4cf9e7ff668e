-- ===== src/Common/Outcome.antt =====
-- The outcome of a Go call with an error result, over a state that the call may change.
use mathlib.Core.Path.{◌≡◌, subst}
use mathlib.Core.Bool.{Bool, true, false}
use revdial.Common.Tests.{if◌then◌else◌}

pub data Result {ℓ κ} (E : Type κ) (A : Type ℓ) : Type (ℓ ⊔ κ) where
  ok : A → Result E A
  err : E → Result E A

module _ {E S : Type 0} where
  abbrev pub and_then : {A B : Type 0} → Result E A × S → (A → S → Result E B × S) → Result E B × S
  and_then (ok a, s) f = f a s
  and_then (err e, s) f = (err e, s)

  infixl 5 ◌>>=◌ ◌>>◌
  abbrev pub ◌>>=◌ :
      {A B : Type 0} → (S → Result E A × S) → (A → S → Result E B × S) → S → Result E B × S
  ◌>>=◌ m f s = and_then (m s) f

  abbrev pub ◌>>◌ :
      {B : Type 0} → (S → Result E (Unit {0}) × S) → (S → Result E B × S) → S → Result E B × S
  ◌>>◌ m k s = and_then (m s) (λ _. k)

  abbrev pub pure : {A : Type 0} → A → S → Result E A × S
  pure a s = (ok a, s)

  abbrev pub fail : {A : Type 0} → E → S → Result E A × S
  fail e s = (err e, s)

  abbrev pub done : S → Result E (Unit {0}) × S
  done s = (ok tt, s)

-- What holds of a call's outcome: P where it succeeds, Q where it fails.
module _ {E S : Type 0} {A : Type 0} where
  abbrev pub Holds : (A → S → Type 0) → (E → S → Type 0) → Result E A × S → Type 0
  Holds P Q (ok a, s) = P a s
  Holds P Q (err e, s) = Q e s

  -- A record, so that the rules below find their arguments.
  pub record Ends (P : A → S → Type 0) (Q : E → S → Type 0) (r : Result E A × S) : Type 0 where
    pub holds : Holds P Q r

module _ {E S A : Type 0} {P : A → S → Type 0} {Q : E → S → Type 0} where
  pub Ends_of_ok : {a : A} {s : S} {r : Result E A × S} → Ends P Q r → r ≡ (ok a, s) → P a s
  Ends_of_ok h e = subst (Holds P Q) e h.holds

  pub Ends_of_err : {x : E} {s : S} {r : Result E A × S} → Ends P Q r → r ≡ (err x, s) → Q x s
  Ends_of_err h e = subst (Holds P Q) e h.holds

  -- The rule for a call that may end in any way.
  pub Ends-all : (r : Result E A × S) → ((a : A) → P a r.1) → ((e : E) → Q e r.1) → Ends P Q r
  Ends-all (ok a, s) h k = record { holds = h a }
  Ends-all (err e, s) h k = record { holds = k e }

  pub Ends-map :
      {P' : A → S → Type 0} {Q' : E → S → Type 0} (r : Result E A × S)
      → ((a : A) (s : S) → P a s → P' a s)
      → ((e : E) (s : S) → Q e s → Q' e s)
      → Ends P Q r
      → Ends P' Q' r
  Ends-map (ok a, s) h k x = record { holds = h a s x.holds }
  Ends-map (err e, s) h k x = record { holds = k e s x.holds }

  pub Ends-both :
      {P' : A → S → Type 0} {Q' : E → S → Type 0} (r : Result E A × S)
      → Ends P Q r
      → Ends P' Q' r
      → Ends (λ a s. P a s × P' a s) (λ e s. Q e s × Q' e s) r
  Ends-both (ok a, s) h k = record { holds = (h.holds, k.holds) }
  Ends-both (err e, s) h k = record { holds = (h.holds, k.holds) }

  pub Ends-if :
      (b : Bool) {r t : Result E A × S}
      → (b ≡ true → Ends P Q r)
      → (b ≡ false → Ends P Q t)
      → Ends P Q (if b then r else t)
  Ends-if true h k = h (λ _. true)
  Ends-if false h k = k (λ _. false)

  -- The rule for a sequence.
  pub and_then-Ends :
      {B : Type 0} {R : B → S → Type 0} (r : Result E A × S) {f : A → S → Result E B × S}
      → Ends P Q r
      → ((a : A) (s : S) → P a s → Ends R Q (f a s))
      → Ends R Q (and_then r f)
  and_then-Ends (ok a, s) h k = k a s h.holds
  and_then-Ends (err e, s) h k = record { holds = h.holds }
