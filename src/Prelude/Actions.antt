-- ===== src/Prelude/Actions.antt =====
-- A method of a stateful object: it returns or throws, and leaves a state behind either way, since
-- what was written before a throw stays written.
use mathlib.Core.Bool.{Bool, true, false}
use mathlib.Core.Option.{Option, none, some}
use ticash.Prelude.Results.{Result, ok, err}

abbrev pub Action : Type 0 → Type 0 → Type 0 → Type 0
Action S E A = S → Result E A × S

module _ {S E A : Type 0} where
  abbrev pub pure : A → Action S E A
  pure a s = (ok a, s)

  abbrev pub throw : E → Action S E A
  throw e s = (err e, s)

  abbrev pub gets : (S → A) → Action S E A
  gets f s = (ok (f s), s)

  -- A call whose outcome is already known, such as a provider's reply.
  abbrev pub lift : Result E A → Action S E A
  lift r s = (r, s)

  abbrev pub or_raise : Option A → E → Action S E A
  or_raise none e s = (err e, s)
  or_raise (some a) e s = (ok a, s)

-- What follows a call, by how the call ended.
abbrev pub after : {S E A B : Type 0} → Result E A × S → (A → Action S E B) → Result E B × S
after (ok a, s) f = f a s
after (err e, s) f = (err e, s)

infixl 5 ◌>>=◌ ◌>>◌
abbrev pub ◌>>=◌ : {S E A B : Type 0} → Action S E A → (A → Action S E B) → Action S E B
◌>>=◌ m f s = after (m s) f

abbrev pub ◌>>◌ : {S E B : Type 0} → Action S E (Unit {0}) → Action S E B → Action S E B
m >> k = m >>= λ _. k

module _ {S E : Type 0} where
  abbrev pub raise_if : Bool → E → Action S E (Unit {0})
  raise_if true e s = (err e, s)
  raise_if false e s = (ok tt, s)

  -- What the action reads before it writes.
  abbrev pub current : Action S E S
  current s = (ok s, s)

  abbrev pub modify : (S → S) → Action S E (Unit {0})
  modify f s = (ok tt, f s)

  -- `if (c) await m;`
  abbrev pub when : Bool → Action S E (Unit {0}) → Action S E (Unit {0})
  when true m s = m s
  when false m s = (ok tt, s)

-- `try { m } catch (error) { h(error) }`
abbrev pub rescue : {S E A : Type 0} → Result E A × S → (E → Action S E A) → Result E A × S
rescue (ok a, s) h = (ok a, s)
rescue (err e, s) h = h e s

abbrev pub attempt : {S E A : Type 0} → Action S E A → (E → Action S E A) → Action S E A
attempt m h s = rescue (m s) h
