-- ===== src/Stores/Transactions.antt =====
-- What a transaction of apps/api/src/flupflap/stores.ts keeps: one that throws leaves the state as it was.
use ticash.Prelude.{◌≡◌, refl, Bool, true, false, ok, err, Result}
use ticash.Prelude.Actions.{raise_if, ◌>>◌}
use ticash.Prelude.Triples.{Triple}
use ticash.Stores.Types.{Database, Method, Failure}
use ticash.Stores.Ledger.{atomic, rollback}

pub atomic_rule :
    {A : Type 0} (P : Database → Type 0) (m : Method A)
    → Triple P m (λ _. P)
    → (s : Database) → P s
    → P (atomic m s).1
atomic_rule {A} P m t s p = go (m s) (λ a. t.run s a p)
  where
    go : (x : Result Failure A × Database) → ((a : A) → x.0 ≡ ok a → P x.1) → P (rollback s x).1
    go (ok a, s') h = h a refl
    go (err e, s') h = p

pub guard_keeps :
    {A : Type 0} (P : Database → Type 0) (c : Bool) (x : Failure) (m : Method A) (s : Database)
    → P s
    → P (m s).1
    → P ((raise_if c x >> m) s).1
guard_keeps P true x m s p q = p
guard_keeps P false x m s p q = q

rollback-ok :
    {A : Type 0} (a : A) (s s' : Database) (x : Result Failure A × Database)
    → rollback s x ≡ (ok a, s')
    → x ≡ (ok a, s')
rollback-ok a s s' (ok b, t) h = h
rollback-ok a s s' (err e, t) h = absurd (cc)

-- A guarded transaction that returned: the guard passed, and the transaction returned the same.
pub committed :
    {A : Type 0} (c : Bool) (x : Failure) (m : Method A) (a : A) (s s' : Database)
    → (raise_if c x >> atomic m) s ≡ (ok a, s')
    → (c ≡ false) × (m s ≡ (ok a, s'))
committed true x m a s s' h = absurd (cc)
committed false x m a s s' h = (refl, rollback-ok a s s' (m s) h)

pub commits :
    {A : Type 0} (c : Bool) (x : Failure) (m : Method A) (a : A) (s s' : Database)
    → c ≡ false
    → m s ≡ (ok a, s')
    → (raise_if c x >> atomic m) s ≡ (ok a, s')
commits c x m a s s' e h = rw (e, h)
