-- ===== src/Prelude/Maps.antt =====
-- JavaScript's `Map` with numeric keys, in insertion order: setting a key that is there keeps its
-- place, and a new key goes to the end.
use Prim.Native.Nat.{ℕ}
use mathlib.Core.Path.{◌≡◌, refl, sym, ◌∙◌, subst}
use mathlib.Core.Logic.{◌≢◌, inl, inr}
use mathlib.Core.Bool.{Bool, true, false}
use mathlib.Core.Option.{Option, none, some}
use mathlib.Core.List.{List, [], ◌∷◌}
use native.Mathlib.Omega.{arith}
use ticash.Prelude.Tests.{◌==◌, if◌then◌else◌, Bool-cases}

abbrev pub Map {ℓ} : Type ℓ → Type ℓ
Map V = List (ℕ × V)

module _ {ℓ} {V : Type ℓ} where
  -- `m.get(k)`
  abbrev pub get : ℕ → Map V → Option V
  get k [] = none
  get k ((j, v) ∷ m) = if k == j then some v else get k m

  -- `m.has(k)`
  abbrev pub has : ℕ → Map V → Bool
  has k m = elim (get k m) [ none ↦ false | some _ ↦ true ]

  pub has-none : (k : ℕ) (m : Map V) → has k m ≡ false → get k m ≡ none
  has-none k m h = ground (arith, h)

  -- `m.set(k, v)`
  abbrev pub put : ℕ → V → Map V → Map V
  put k v [] = (k, v) ∷ []
  put k v ((j, w) ∷ m) = if k == j then (k, v) ∷ m else (j, w) ∷ put k v m

  -- `m.delete(k)`
  abbrev pub delete : ℕ → Map V → Map V
  delete k [] = []
  delete k ((j, v) ∷ m) = if k == j then m else (j, v) ∷ delete k m

  -- `[...m.values()]`
  abbrev pub values : Map V → List V
  values [] = []
  values ((_, v) ∷ m) = v ∷ values m

  pub get-put :
      (j k : ℕ) (v : V) (m : Map V) → get j (put k v m) ≡ (if j == k then some v else get j m)
  get-put j k v [] = refl
  get-put j k v ((i, w) ∷ m) = ground (arith, get-put j k v m)

  pub get-put_self : (k : ℕ) (v : V) (m : Map V) → get k (put k v m) ≡ some v
  get-put_self k v m = ground (arith, get-put k k v m)

  pub get-put_ne : (j k : ℕ) (v : V) (m : Map V) → j ≢ k → get j (put k v m) ≡ get j m
  get-put_ne j k v m h = ground (arith, get-put j k v m)

  pub get-delete_ne : (j k : ℕ) (m : Map V) → j ≢ k → get j (delete k m) ≡ get j m
  get-delete_ne j k [] h = refl
  get-delete_ne j k ((i, w) ∷ m) h = ground (arith, get-delete_ne j k m h)

  -- What holds of every entry still does, where it holds of the one that is set.
  pub get-put_all {κ} :
      (R : ℕ → V → Type κ) (k : ℕ) (v : V) (m : Map V)
      → ((j : ℕ) (w : V) → get j m ≡ some w → R j w)
      → R k v
      → (j : ℕ) (w : V) → get j (put k v m) ≡ some w
      → R j w
  get-put_all R k v m h r j w e =
      let p = get-put j k v m in
      elim (Bool-cases (j == k)) [
        | inl here_ ↦
            let q : v ≡ w = (ground (arith, p)) in
            let i : k ≡ j = (ground arith) in subst (R j) q (subst (λ i. R i v) i r)
        | inr there ↦ h j w (sym (rw there at p) ∙ e)
      ]

  -- The key is not in the map.
  abbrev pub IsAbsent : ℕ → Map V → Type 0
  IsAbsent k [] = Unit
  IsAbsent k ((j, v) ∷ m) = (j ≢ k) × IsAbsent k m

  -- No key occurs twice; every map that `set` builds is such.
  abbrev pub IsDistinct : Map V → Type 0
  IsDistinct [] = Unit
  IsDistinct ((j, v) ∷ m) = IsAbsent j m × IsDistinct m

  pub put-IsAbsent : (j k : ℕ) (v : V) (m : Map V) → j ≢ k → IsAbsent j m → IsAbsent j (put k v m)
  put-IsAbsent j k v [] h a = ground arith
  put-IsAbsent j k v ((i, w) ∷ m) h a = ground (arith, put-IsAbsent j k v m h a.1)

  pub put-IsDistinct : (k : ℕ) (v : V) (m : Map V) → IsDistinct m → IsDistinct (put k v m)
  put-IsDistinct k v [] d = (tt, tt)
  put-IsDistinct k v ((i, w) ∷ m) d = ground (arith, put-IsDistinct k v m d.1, put-IsAbsent i k v m)
