-- ===== src/Runtime/Admission/Leases.antt =====
-- Leases that do not conflict, and how a table of them stays that way.
use ditch.Prelude.{
  ℕ, ◌==◌, ◌≡◌, refl, sym, subst, ◌∙◌, inl, inr, Bool, true, false, Option, none, some, List, [],
  ◌∷◌, In, lookup, insert, remove, values, opt_eq, lookup-insert, lookup-remove, Text, text_eq,
  opt_eq→eq, if◌then◌else◌, arith,
}
use ditch.Core.{AgentId, WorkspaceLease}
use ditch.Runtime.Admission.{conflicts}

abbrev pub Leases : Type 0
Leases = List (AgentId × WorkspaceLease)

-- The leases of different agents do not conflict.
abbrev pub LeasesApart : Leases → Type 0
LeasesApart leases =
    (a b : AgentId) (x y : WorkspaceLease)
    → lookup a leases ≡ some x
    → lookup b leases ≡ some y
    → (a == b) ≡ false
    → conflicts x y ≡ false

pub LeasesApart-remove : (gone : AgentId) (m : Leases) → LeasesApart m → LeasesApart (remove gone m)
LeasesApart-remove gone m apart a b x y ha hb other =
    ground (arith, lookup-remove gone a m, lookup-remove gone b m, apart a b x y)

text_eq_sym : (a b : Text) → text_eq a b ≡ text_eq b a
unfolding text_eq
text_eq_sym [] [] = refl
text_eq_sym [] (b ∷ bs) = refl
text_eq_sym (a ∷ as') [] = refl
text_eq_sym (a ∷ as') (b ∷ bs) = ground (arith, text_eq_sym as' bs)

opt_eq_sym : (a b : Option ℕ) → opt_eq a b ≡ opt_eq b a
opt_eq_sym none none = refl
opt_eq_sym none (some b) = refl
opt_eq_sym (some a) none = refl
opt_eq_sym (some a) (some b) = ground arith

pub conflicts_sym : (x y : WorkspaceLease) → conflicts x y ≡ false → conflicts y x ≡ false
unfolding conflicts
conflicts_sym x y h = ground (
  arith,
  opt_eq_sym x.coordinator_group y.coordinator_group,
  opt_eq→eq x.coordinator_group y.coordinator_group,
  text_eq_sym x.target y.target,
  text_eq_sym x.root y.root,
)

pub In-lookup :
    (a : AgentId) (x : WorkspaceLease) (m : Leases) → lookup a m ≡ some x → In x (values m)
unfolding lookup values
In-lookup a x [] h = absurd (cc)
In-lookup a x ((k, y) ∷ m) h = by_test (k == a) (In-lookup a x m) h
  where
    by_test :
        (b : Bool)
        → (lookup a m ≡ some x → In x (values m))
        → (if b then some y else lookup a m) ≡ some x
        → In x (y ∷ values m)
    by_test true rest k = inl (cc)
    by_test false rest k = inr (rest k)

pub LeasesApart-insert :
    (id : AgentId) (lease : WorkspaceLease) (m : Leases)
    → ((c : AgentId) (z : WorkspaceLease)
        → (id == c) ≡ false
        → lookup c m ≡ some z
        → conflicts lease z ≡ false)
    → LeasesApart m
    → LeasesApart (insert id lease m)
LeasesApart-insert id lease m clear apart a b x y ha hb other =
    by_tests (id == a) (id == b) refl refl (sym (lookup-insert id a lease m) ∙ ha)
      (sym (lookup-insert id b lease m) ∙ hb)
  where
    by_tests :
        (p q : Bool)
        → (id == a) ≡ p
        → (id == b) ≡ q
        → (if p then some lease else lookup a m) ≡ some x
        → (if q then some lease else lookup b m) ≡ some y
        → conflicts x y ≡ false
    by_tests true true ea eb ka kb = ground arith
    by_tests true false ea eb ka kb =
        let same : lease ≡ x = cc in
        subst (λ (z : WorkspaceLease). conflicts z y ≡ false) same (clear b y eb kb)
    by_tests false true ea eb ka kb =
        let same : lease ≡ y = cc in
        subst (λ (z : WorkspaceLease). conflicts x z ≡ false) same
          (conflicts_sym lease x (clear a x ea ka))
    by_tests false false ea eb ka kb = apart a b x y ka kb other
