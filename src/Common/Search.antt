-- ===== src/Common/Search.antt =====
-- What `find`, `filter`, `any` and `count` say of a table.
use mathlib.Core.Path.{◌≡◌, subst}
use mathlib.Core.Logic.{inl, inr}
use mathlib.Core.Bool.{Bool, true}
use Prim.Native.Nat.{ℕ}
use mathlib.Core.Option.{some}
use mathlib.Core.List.{List, [], ◌∷◌}
use native.Mathlib.Omega.{arith}
use lodgiva.Common.Tests.{Bool-cases, ◌==◌}
use lodgiva.Common.Lists.{find, filter, update_where, All}

module _ {A : Type 0} (p : A → Bool) where
  -- What `find` returns passes the test.
  pub find-eq-some : (l : List A) (x : A) → find p l ≡ some x → p x ≡ true
  find-eq-some [] x h = cc
  find-eq-some (y ∷ l) x h = ground (arith, find-eq-some l x)

  pub All-filter : (l : List A) → All (λ x. p x ≡ true) (filter p l)
  All-filter [] = tt
  All-filter (y ∷ l) = ground (arith, All-filter l)

-- What `find` returns has what every element has.
pub find-All :
    {A : Type 0} (P : A → Type 0) (p : A → Bool) (l : List A) (x : A)
    → All P l
    → find p l ≡ some x
    → P x
find-All P p [] x h e = absurd (ground arith)
find-All P p (y ∷ l) x h e = elim (Bool-cases (p y)) [
  | inl hit ↦ let same : y ≡ x = ground arith in subst P same h.0
  | inr miss ↦ find-All P p l x h.1 (ground (arith, miss))
]

-- Of a look-up by what an update keeps, the row that it finds is the updated one.
pub find-update_where :
    {A : Type 0} (key : A → ℕ) (p : A → Bool) (f : A → A) (l : List A) (h : A)
    → ((x : A) → p (f x) ≡ p x)
    → find p l ≡ some h
    → find p (update_where (λ x. key x == key h) f l) ≡ some (f h)
find-update_where key p f [] h keeps e = cc
find-update_where key p f (x ∷ l) h keeps e = elim (Bool-cases (p x)) [
  | inl hit ↦
      let same : x ≡ h = ground (arith, hit) in
      let here : (key h == key h) ≡ true = ground arith in
      let hits : p h ≡ true = subst (λ y. p y ≡ true) same hit in
      rw same (ground (arith, here, keeps h, hits))
  | inr miss ↦
      let rest = find-update_where key p f l h keeps (ground (arith, miss)) in
      ground (arith, keeps x, miss, rest)
]
