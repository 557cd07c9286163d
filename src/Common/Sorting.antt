-- ===== src/Common/Sorting.antt =====
-- A stable insertion sort keeps the elements of a list; predicates over lists.
use mathlib.Core.Path.{◌≡◌, refl}
use mathlib.Core.Logic.{◌⊎◌, inl, inr}
use mathlib.Core.Bool.{Bool, true, false}
use mathlib.Core.List.{List, [], ◌∷◌}
use lodgiva.Common.Tests.{Bool-cases}
use lodgiva.Common.Lists.{All, Any, insert_by, sort_by}

module _ {A : Type 0} (P : A → Type 0) where
  pub All-map : {Q : A → Type 0} → ((x : A) → P x → Q x) → (xs : List A) → All P xs → All Q xs
  All-map f [] h = tt
  All-map f (x ∷ xs) (p, h) = (f x p, All-map f xs h)

  pub All-intro : ((x : A) → P x) → (xs : List A) → All P xs
  All-intro f [] = tt
  All-intro f (x ∷ xs) = (f x, All-intro f xs)

-- Each element of a list is one of its elements.
pub All-self : {A : Type 0} (xs : List A) → All (λ x. Any (λ y. y ≡ x) xs) xs
All-self [] = tt
All-self (x ∷ xs) = (inl refl, All-map (λ z. Any (λ y. y ≡ z) xs) (λ z h. inr h) xs (All-self xs))

module _ {A : Type 0} (before : A → A → Bool) (P : A → Type 0) where
  pub All-insert_by : (x : A) (xs : List A) → P x → All P xs → All P (insert_by before x xs)
  All-insert_by x [] p h = (p, tt)
  All-insert_by x (y ∷ ys) p h = elim (Bool-cases (before y x)) [
    | inl e ↦ rw e (h.0, All-insert_by x ys p h.1)
    | inr e ↦ rw e (p, h)
  ]

  pub All-sort_by : (xs : List A) → All P xs → All P (sort_by before xs)
  unfolding sort_by
  All-sort_by [] h = tt
  All-sort_by (x ∷ xs) h = All-insert_by x (sort_by before xs) h.0 (All-sort_by xs h.1)

  pub All-of_insert_by : (x : A) (xs : List A) → All P (insert_by before x xs) → P x × All P xs
  All-of_insert_by x [] h = h
  All-of_insert_by x (y ∷ ys) h = elim (Bool-cases (before y x)) [
    | inl e ↦ let (q, g) = (rw e at h) in let (p, t) = All-of_insert_by x ys g in (p, (q, t))
    | inr e ↦ rw e at h
  ]

  pub All-of_sort_by : (xs : List A) → All P (sort_by before xs) → All P xs
  unfolding sort_by
  All-of_sort_by [] h = tt
  All-of_sort_by (x ∷ xs) h =
      let (p, t) = All-of_insert_by x (sort_by before xs) h in (p, All-of_sort_by xs t)

  pub Any-insert_by : (x : A) (xs : List A) → P x ⊎ Any P xs → Any P (insert_by before x xs)
  Any-insert_by x [] h = h
  Any-insert_by x (y ∷ ys) h = elim (Bool-cases (before y x)) [
    | inl e ↦ rw e (elim h [
      | inl p ↦ inr (Any-insert_by x ys (inl p))
      | inr (inl q) ↦ inl q
      | inr (inr t) ↦ inr (Any-insert_by x ys (inr t))
    ])
    | inr e ↦ rw e h
  ]

  pub Any-sort_by : (xs : List A) → Any P xs → Any P (sort_by before xs)
  unfolding sort_by
  Any-sort_by [] h = h
  Any-sort_by (x ∷ xs) (inl p) = Any-insert_by x (sort_by before xs) (inl p)
  Any-sort_by (x ∷ xs) (inr t) = Any-insert_by x (sort_by before xs) (inr (Any-sort_by xs t))

-- Every pair of elements, the earlier one first.
abbrev pub Pairs : {A : Type 0} → (A → A → Type 0) → List A → Type 0
Pairs R [] = Unit
Pairs R (x ∷ xs) = All (R x) xs × Pairs R xs

module _ {A : Type 0} (before : A → A → Bool) (R : A → A → Type 0)
    (symmetric : (x y : A) → R x y → R y x) where
  pub Pairs-insert_by :
      (x : A) (xs : List A) → All (R x) xs → Pairs R xs → Pairs R (insert_by before x xs)
  Pairs-insert_by x [] h k = (tt, tt)
  Pairs-insert_by x (y ∷ ys) h k = elim (Bool-cases (before y x)) [
    | inl e ↦
        rw e (All-insert_by before (R y) x ys (symmetric x y h.0) k.0, Pairs-insert_by x ys h.1 k.1)
    | inr e ↦ rw e (h, k)
  ]

  pub Pairs-sort_by : (xs : List A) → Pairs R xs → Pairs R (sort_by before xs)
  unfolding sort_by
  Pairs-sort_by [] k = tt
  Pairs-sort_by (x ∷ xs) k =
      Pairs-insert_by x (sort_by before xs) (All-sort_by before (R x) xs k.0) (Pairs-sort_by xs k.1)

-- A sort puts its list in order, for a test that is total in this sense.
module _ {A : Type 0} (before : A → A → Bool) (R : A → A → Type 0)
    (goes_first : (x y : A) → before x y ≡ true → R x y)
    (stays : (x y : A) → before y x ≡ false → R x y)
    (transitive : (x y z : A) → R x y → R y z → R x z) where
  pub insert_by-IsSorted : (x : A) (xs : List A) → Pairs R xs → Pairs R (insert_by before x xs)
  insert_by-IsSorted x [] k = (tt, tt)
  insert_by-IsSorted x (y ∷ ys) k = elim (Bool-cases (before y x)) [
    | inl e ↦
        rw e (All-insert_by before (R y) x ys (goes_first y x e) k.0, insert_by-IsSorted x ys k.1)
    | inr e ↦
        let first = stays x y e in
        rw e ((first, All-map (R y) (λ z r. transitive x y z first r) ys k.0), k)
  ]

  pub sort_by-IsSorted : (xs : List A) → Pairs R (sort_by before xs)
  unfolding sort_by
  sort_by-IsSorted [] = tt
  sort_by-IsSorted (x ∷ xs) = insert_by-IsSorted x (sort_by before xs) (sort_by-IsSorted xs)
