-- ===== src/Prelude/Maps.antt =====
-- A hash map or set with identities for keys, as the list of its entries in some order. The code
-- iterates over maps in an order that it does not know, so statements hold for every list.
use Prim.Native.Nat.{ℕ}
use mathlib.Core.Path.{◌≡◌, refl}
use mathlib.Core.Logic.{inl, inr}
use mathlib.Core.Bool.{Bool, true, not, ◌&&◌}
use mathlib.Core.Option.{Option, none, some}
use mathlib.Core.List.{List, [], ◌∷◌}
use native.Mathlib.Omega.{arith}
use ditch.Prelude.Tests.{◌==◌, if◌then◌else◌, Bool-cases, is_some}
use ditch.Prelude.Lists.{any, In}

module _ {V : Type 0} where
  unfoldable pub lookup : ℕ → List (ℕ × V) → Option V
  lookup wanted [] = none
  lookup wanted ((key, value) ∷ more) =
      let rest = lookup wanted more in if key == wanted then some value else rest

  -- `contains_key`.
  unfoldable pub has_key : ℕ → List (ℕ × V) → Bool
  has_key wanted entries = is_some (lookup wanted entries)

  -- `insert`: the old value goes.
  unfoldable pub insert : ℕ → V → List (ℕ × V) → List (ℕ × V)
  insert key new [] = (key, new) ∷ []
  insert key new ((at, old) ∷ more) =
      let rest = insert key new more in if at == key then (key, new) ∷ more else (at, old) ∷ rest

  unfoldable pub remove : ℕ → List (ℕ × V) → List (ℕ × V)
  remove key [] = []
  remove key ((at, old) ∷ more) =
      let rest = remove key more in if at == key then rest else (at, old) ∷ rest

  -- `values()`.
  unfoldable pub values : List (ℕ × V) → List V
  values [] = []
  values ((key, value) ∷ more) = value ∷ values more

  pub has_key-remove :
      (gone key : ℕ) (entries : List (ℕ × V))
      → has_key key (remove gone entries) ≡ (not (gone == key) && has_key key entries)
  unfolding has_key lookup remove
  has_key-remove gone key [] = ground arith
  has_key-remove gone key ((at, value) ∷ more) = ground (arith, has_key-remove gone key more)

  pub lookup-remove :
      (gone key : ℕ) (entries : List (ℕ × V))
      → lookup key (remove gone entries) ≡ (if gone == key then none else lookup key entries)
  unfolding lookup remove
  lookup-remove gone key [] = ground arith
  lookup-remove gone key ((at, value) ∷ more) = ground (arith, lookup-remove gone key more)

  pub lookup-insert :
      (new key : ℕ) (v : V) (entries : List (ℕ × V))
      → lookup key (insert new v entries) ≡ (if new == key then some v else lookup key entries)
  unfolding lookup insert
  lookup-insert new key v [] = ground arith
  lookup-insert new key v ((at, value) ∷ more) = ground (arith, lookup-insert new key v more)

  -- A value just written is among the values.
  pub In-values-insert : (k : ℕ) (v : V) (m : List (ℕ × V)) → In v (values (insert k v m))
  unfolding values insert
  In-values-insert k v [] = inl refl
  In-values-insert k v ((j, w) ∷ m) = elim (Bool-cases (j == k)) [
    | inl e ↦ rw e (inl refl)
    | inr n ↦ rw n (inr (In-values-insert k v m))
  ]

-- Sets of identities.
unfoldable pub member : ℕ → List ℕ → Bool
member k s = any (λ j. j == k) s

unfoldable pub delete : ℕ → List ℕ → List ℕ
delete k [] = []
delete k (j ∷ s) = let rest = delete k s in if j == k then rest else j ∷ rest

pub any_of_In :
    {A : Type 0} (p : A → Bool) (xs : List A) (a : A) → In a xs → p a ≡ true → any p xs ≡ true
any_of_In p [] a m h = elim m [ ]
any_of_In p (x ∷ xs) a m h = ground (arith, any_of_In p xs a)
