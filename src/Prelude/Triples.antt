-- ===== src/Prelude/Triples.antt =====
-- Hoare triples for actions, about the runs that return: what holds before, and what then holds of the
-- value and the state. A run that throws is the concern of its own lemmas.
use mathlib.Core.Path.{◌≡◌, refl}
use mathlib.Core.Bool.{Bool, true, false}
use mathlib.Core.Option.{Option, none, some}
use native.Mathlib.Omega.{arith}
use ticash.Prelude.Results.{Result, ok, err}
use ticash.Prelude.Actions.{
  Action, after, pure, lift, or_raise, raise_if, current, modify, when, ◌>>=◌,
}
use ticash.Prelude.Tests.{if◌then◌else◌}

pub record Triple {S E A : Type 0} (P : S → Type 0) (m : Action S E A) (Q : A → S → Type 0)
    : Type 0 where
  pub run : (s : S) (a : A) → P s → (m s).0 ≡ ok a → Q a (m s).1

module _ {S E A : Type 0} where
  pub pure_rule : (P : S → Type 0) (b : A) → Triple {E = E} P (pure b) (λ a s. P s × (b ≡ a))
  pure_rule P b = record { run = λ s a p e. (p, ground arith) }

  pub lift_rule : (P : S → Type 0) (r : Result E A) → Triple P (lift r) (λ a s. P s × (r ≡ ok a))
  lift_rule P r = record { run = λ s a p e. (p, e) }

  pub or_raise_rule :
      (P : S → Type 0) (o : Option A) (e : E) → Triple P (or_raise o e) (λ a s. P s × (o ≡ some a))
  or_raise_rule P none e = record { run = λ s a p h. absurd (cc) }
  or_raise_rule P (some b) e = record { run = λ s a p h. (p, ground arith) }

  or_raise-ok :
      (o : Option A) (x : E) (s : S) (a : A)
      → (or_raise o x s).0 ≡ ok a
      → ((or_raise o x s).1 ≡ s) × (o ≡ some a)
  or_raise-ok none x s a h = absurd (cc)
  or_raise-ok (some b) x s a h = (refl, ground arith)

  -- A row that is read, or its absence thrown.
  pub read_rule :
      (P : S → Type 0) (f : S → Option A) (x : E)
      → Triple P (λ s. or_raise (f s) x s) (λ a s. P s × (f s ≡ some a))
  read_rule P f x = record {
    run = λ s a p h. let (q, e) = or_raise-ok (f s) x s a h in (rw q p, rw q e);
  }

  pub weaken :
      {P : S → Type 0} {m : Action S E A} {Q R : A → S → Type 0}
      → Triple P m Q
      → ((a : A) (s : S) → Q a s → R a s)
      → Triple P m R
  weaken {m} t w = record { run = λ s a p e. w a (m s).1 (t.run s a p e) }

  pub strengthen :
      {P R : S → Type 0} {m : Action S E A} {Q : A → S → Type 0}
      → ((s : S) → R s → P s)
      → Triple P m Q
      → Triple R m Q
  strengthen w t = record { run = λ s a p e. t.run s a (w s p) e }

  -- The state before may be named.
  pub named_rule :
      {P : S → Type 0} {m : Action S E A} {Q : A → S → Type 0}
      → ((s₀ : S) → P s₀ → Triple (λ s. s ≡ s₀) m Q)
      → Triple P m Q
  named_rule t = record { run = λ s a p e. (t s p).run s a refl e }

  pub if_rule :
      (b : Bool) {P : S → Type 0} {m n : Action S E A} {Q : A → S → Type 0}
      → Triple (λ s. P s × (b ≡ true)) m Q
      → Triple (λ s. P s × (b ≡ false)) n Q
      → Triple P (if b then m else n) Q
  if_rule true t u = record { run = λ s a p e. t.run s a (p, refl) e }
  if_rule false t u = record { run = λ s a p e. u.run s a (p, refl) e }

module _ {S E : Type 0} where
  pub current_rule : (P : S → Type 0) → Triple {E = E} P current (λ a s. P s × (s ≡ a))
  current_rule P = record { run = λ s a p e. (p, ground arith) }

  pub raise_if_rule :
      (P : S → Type 0) (c : Bool) (e : E) → Triple P (raise_if c e) (λ _ s. P s × (c ≡ false))
  raise_if_rule P true e = record { run = λ s a p h. absurd (cc) }
  raise_if_rule P false e = record { run = λ s a p h. (p, refl) }

  pub modify_rule :
      (P Q : S → Type 0) (f : S → S)
      → ((s : S) → P s → Q (f s))
      → Triple {E = E} P (modify f) (λ _ s. Q s)
  modify_rule P Q f w = record { run = λ s a p e. w s p }

  pub when_rule :
      (b : Bool) {P Q : S → Type 0} {m : Action S E (Unit {0})}
      → Triple (λ s. P s × (b ≡ true)) m (λ _ s. Q s)
      → ((s : S) → P s → b ≡ false → Q s)
      → Triple P (when b m) (λ _ s. Q s)
  when_rule true t w = record { run = λ s a p e. t.run s a (p, refl) e }
  when_rule false t w = record { run = λ s a p e. w s p refl }

module _ {S E A B : Type 0} where
  after_ok :
      (x : Result E A × S) (f : A → Action S E B) (Q : A → S → Type 0) (R : B → S → Type 0) (b : B)
      → ((a : A) → x.0 ≡ ok a → Q a x.1)
      → ((a : A) → Triple (Q a) (f a) R)
      → (after x f).0 ≡ ok b
      → R b (after x f).1
  after_ok (ok a, s) f Q R b t u e = (u a).run s b (t a refl) e
  after_ok (err x, s) f Q R b t u e = absurd (cc)

  pub bind_rule :
      {P : S → Type 0} {m : Action S E A} {Q : A → S → Type 0} {f : A → Action S E B}
      {R : B → S → Type 0}
      → Triple P m Q
      → ((a : A) → Triple (Q a) (f a) R)
      → Triple P (m >>= f) R
  bind_rule {m} {Q} {f} {R} t u = record {
    run = λ s b p e. after_ok (m s) f Q R b (λ a. t.run s a p) u e;
  }
