-- ===== src/Prelude/Keeps.antt =====
-- What an action keeps true of the state, whether it returns or throws.
use mathlib.Core.Bool.{Bool, true, false}
use mathlib.Core.Option.{Option, none, some}
use ticash.Prelude.Results.{Result, ok, err}
use ticash.Prelude.Actions.{
  Action, after, rescue, attempt, pure, throw, lift, or_raise, raise_if, when, ◌>>=◌,
}
use ticash.Prelude.Tests.{if◌then◌else◌}

-- From a state with `P` the action ends in one with `Q`.
pub record Leads {S E A : Type 0} (P : S → Type 0) (m : Action S E A) (Q : S → Type 0)
    : Type 0 where
  pub run : (s : S) → P s → Q (m s).1

abbrev pub Keeps : {S E A : Type 0} → (S → Type 0) → Action S E A → Type 0
Keeps P m = Leads P m P

module _ {S E A : Type 0} where
  pub pure-Keeps : (P : S → Type 0) (a : A) → Keeps {E = E} P (pure a)
  pure-Keeps P a = record { run = λ s p. p }

  pub throw-Keeps : (P : S → Type 0) (e : E) → Keeps {A = A} P (throw e)
  throw-Keeps P e = record { run = λ s p. p }

  pub lift-Keeps : (P : S → Type 0) (r : Result E A) → Keeps P (lift r)
  lift-Keeps P r = record { run = λ s p. p }

  pub or_raise-Keeps : (P : S → Type 0) (o : Option A) (e : E) → Keeps P (or_raise o e)
  or_raise-Keeps P none e = record { run = λ s p. p }
  or_raise-Keeps P (some a) e = record { run = λ s p. p }

  pub if_leads :
      (b : Bool) {P Q : S → Type 0} {m n : Action S E A}
      → Leads P m Q
      → Leads P n Q
      → Leads P (if b then m else n) Q
  if_leads true k l = k
  if_leads false k l = l

  rescue_leads :
      (x : Result E A × S) (h : E → Action S E A) (P Q : S → Type 0)
      → P x.1
      → ((s : S) → P s → Q s)
      → ((e : E) → Leads P (h e) Q)
      → Q (rescue x h).1
  rescue_leads (ok a, s) h P Q p w k = w s p
  rescue_leads (err e, s) h P Q p w k = (k e).run s p

  pub attempt_leads :
      {P Q : S → Type 0} {m : Action S E A} {h : E → Action S E A}
      → Leads P m Q
      → ((e : E) → Keeps Q (h e))
      → Leads P (attempt m h) Q
  attempt_leads {Q} {m} {h} k l = record {
    run = λ s p. rescue_leads (m s) h Q Q (k.run s p) (λ _ q. q) l;
  }

module _ {S E : Type 0} where
  pub raise_if-Keeps : (P : S → Type 0) (b : Bool) (e : E) → Keeps P (raise_if b e)
  raise_if-Keeps P true e = record { run = λ s p. p }
  raise_if-Keeps P false e = record { run = λ s p. p }

  pub when-Keeps :
      (b : Bool) {P : S → Type 0} {m : Action S E (Unit {0})} → Keeps P m → Keeps P (when b m)
  when-Keeps true k = k
  when-Keeps false k = record { run = λ s p. p }

module _ {S E A B : Type 0} where
  after_leads :
      (x : Result E A × S) (f : A → Action S E B) (P Q : S → Type 0)
      → P x.1
      → ((s : S) → P s → Q s)
      → ((a : A) → Leads P (f a) Q)
      → Q (after x f).1
  after_leads (ok a, s) f P Q p w k = (k a).run s p
  after_leads (err e, s) f P Q p w k = w s p

  -- The first action leads on, and the rest keeps what it led to.
  pub bind_leads :
      {P Q : S → Type 0} {m : Action S E A} {f : A → Action S E B}
      → Leads P m Q
      → ((a : A) → Keeps Q (f a))
      → Leads P (m >>= f) Q
  bind_leads {Q} {m} {f} k l = record {
    run = λ s p. after_leads (m s) f Q Q (k.run s p) (λ _ q. q) l;
  }

  -- The first action keeps the precondition, which is enough where it throws.
  pub bind_keeps :
      {P Q : S → Type 0} {m : Action S E A} {f : A → Action S E B}
      → ((s : S) → P s → Q s)
      → Keeps P m
      → ((a : A) → Leads P (f a) Q)
      → Leads P (m >>= f) Q
  bind_keeps {P} {Q} {m} {f} w k l = record { run = λ s p. after_leads (m s) f P Q (k.run s p) w l }
