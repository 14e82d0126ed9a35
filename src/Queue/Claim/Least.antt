-- ===== src/Queue/Claim/Least.antt =====
-- Lemmas on `min_by_key` over the positions of the queue.
use ditch.Prelude.{
  ◌≤◌, ltb, ◌≡◌, refl, sym, subst, inl, inr, ◌⊎◌, Bool, true, false, Option, none, some, List, [],
  ◌∷◌, In, arith, if◌then◌else◌,
}
use ditch.Core.{Task}
use ditch.Queue.Claim.{position, earlier, min_by_position}

-- The least position comes first.
unfoldable pub IsLeast : Task → List Task → Type 0
IsLeast t ts = In t ts × ((u : Task) → In u ts → position t ≤ position u)

IsLeast-later :
    (u : Task) (us : List Task) (w : Task)
    → ltb (position w) (position u) ≡ true
    → IsLeast w us
    → IsLeast w (u ∷ us)
unfolding IsLeast
IsLeast-later u us w h (m, below) = (
  inr m,
  λ v n. elim n [
    | inl e ↦ subst (λ (x : Task). position w ≤ position x) e (ground arith)
    | inr k ↦ below v k
  ],
)

IsLeast-first :
    (u : Task) (us : List Task) (w : Task)
    → ltb (position w) (position u) ≡ false
    → IsLeast w us
    → IsLeast u (u ∷ us)
unfolding IsLeast
IsLeast-first u us w h (m, below) = (
  inl refl,
  λ v n. elim n [
    | inl e ↦ subst (λ (x : Task). position u ≤ position x) e (ground arith)
    | inr k ↦ ground (arith, below v k)
  ],
)

IsLeast-only : (u : Task) → IsLeast u (u ∷ [])
unfolding IsLeast
IsLeast-only u = (
  inl refl,
  λ v n. elim n [
    | inl e ↦ subst (λ (x : Task). position u ≤ position x) e (ground arith)
    | inr k ↦ absurd k
  ],
)

earlier-cases :
    (u w t : Task)
    → earlier u (some w) ≡ some t
    → ((ltb (position w) (position u) ≡ true) × (w ≡ t))
      ⊎ ((ltb (position w) (position u) ≡ false) × (u ≡ t))
unfolding earlier
earlier-cases u w t h = by_test (ltb (position w) (position u)) h
  where
    by_test :
        (b : Bool)
        → (if b then some w else some u) ≡ some t
        → ((b ≡ true) × (w ≡ t)) ⊎ ((b ≡ false) × (u ≡ t))
    by_test true k = inl (refl, cc)
    by_test false k = inr (refl, cc)

earlier-IsLeast :
    (u : Task) (us : List Task) (m : Option Task) (t : Task)
    → (m ≡ none → us ≡ [])
    → ((v : Task) → m ≡ some v → IsLeast v us)
    → earlier u m ≡ some t
    → IsLeast t (u ∷ us)
unfolding earlier
earlier-IsLeast u us none t empty least h =
    let e : u ≡ t = cc in
    subst (λ (x : Task). IsLeast x (u ∷ us)) e
      (subst (λ (l : List Task). IsLeast u (u ∷ l)) (sym (empty refl)) (IsLeast-only u))
earlier-IsLeast u us (some w) t empty least h = elim (earlier-cases u w t h) [
  | inl (lower, e) ↦
      subst (λ (x : Task). IsLeast x (u ∷ us)) e (IsLeast-later u us w lower (least w refl))
  | inr (later, e) ↦
      subst (λ (x : Task). IsLeast x (u ∷ us)) e (IsLeast-first u us w later (least w refl))
]

earlier-none : (u : Task) (m : Option Task) → earlier u m ≡ none → ⊥
unfolding earlier
earlier-none u none h = cc
earlier-none u (some w) h = by_test (ltb (position w) (position u)) h
  where
    by_test : (b : Bool) → (if b then some w else some u) ≡ none → ⊥
    by_test true k = cc
    by_test false k = cc

min-none : (ts : List Task) → min_by_position ts ≡ none → ts ≡ []
unfolding min_by_position
min-none [] h = refl
min-none (u ∷ us) h = absurd (earlier-none u (min_by_position us) h)

pub min-IsLeast : (ts : List Task) (t : Task) → min_by_position ts ≡ some t → IsLeast t ts
unfolding min_by_position
min-IsLeast [] t h = cc
min-IsLeast (u ∷ us) t h =
    earlier-IsLeast u us (min_by_position us) t (min-none us) (λ v e. min-IsLeast us v e) h
