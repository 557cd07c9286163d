-- ===== src/Common/Members.antt =====
-- Membership in a table: rows that a query finds, rows told apart by a key, and updates of rows.
use mathlib.Core.Path.{◌≡◌, refl, sym, ap, ◌∙◌, subst}
use mathlib.Core.Logic.{◌≢◌, inl, inr}
use mathlib.Core.Bool.{Bool, true, false}
use mathlib.Core.Option.{some}
use mathlib.Core.List.{List, [], ◌∷◌}
use Prim.Native.Nat.{ℕ, ◌≤◌}
use native.Mathlib.Omega.{arith}
use lodgiva.Common.Tests.{◌==◌, Bool-cases, if◌then◌else◌}
use lodgiva.Common.Lists.{find, filter, last?, count, any, update_where, All, Any}
use lodgiva.Common.Sorting.{Pairs, All-map}

module _ {A : Type 0} where
  abbrev pub Member : A → List A → Type 0
  Member x = Any (λ y. y ≡ x)

  pub All-Member : (P : A → Type 0) (l : List A) (x : A) → All P l → Member x l → P x
  All-Member P [] x h m = absurd m
  All-Member P (y ∷ l) x h (inl e) = subst P e h.0
  All-Member P (y ∷ l) x h (inr m) = All-Member P l x h.1 m

  pub All-zip : (P Q : A → Type 0) (l : List A) → All P l → All Q l → All (λ x. P x × Q x) l
  All-zip P Q [] h k = tt
  All-zip P Q (x ∷ l) h k = ((h.0, k.0), All-zip P Q l h.1 k.1)

  pub find-Member : (p : A → Bool) (l : List A) (x : A) → find p l ≡ some x → Member x l
  find-Member p [] x h = cc
  find-Member p (y ∷ l) x h = elim (Bool-cases (p y)) [
    | inl hit ↦ inl (ground (arith, hit))
    | inr miss ↦ inr (find-Member p l x (ground (arith, miss)))
  ]

  pub last-Member : (l : List A) (x : A) → last? l ≡ some x → Member x l
  last-Member [] x h = cc
  last-Member (y ∷ []) x h = inl (ground (arith))
  last-Member (y ∷ z ∷ l) x h = inr (last-Member (z ∷ l) x h)

  pub filter-Member :
      (p : A → Bool) (l : List A) (x : A) → Member x (filter p l) → Member x l × (p x ≡ true)
  filter-Member p [] x m = absurd m
  filter-Member p (y ∷ l) x m = elim (Bool-cases (p y)) [
    | inl hit ↦
        let k : Member x (y ∷ filter p l) = rw hit at m in
        elim k [
          | inl e ↦ (inl e, subst (λ z. p z ≡ true) e hit)
          | inr k ↦ let (here, passes) = filter-Member p l x k in (inr here, passes)
        ]
    | inr miss ↦
        let k : Member x (filter p l) = rw miss at m in
        let (here, passes) = filter-Member p l x k in (inr here, passes)
  ]

  -- The rows of a table have different keys.
  abbrev pub UniqueBy : (A → ℕ) → List A → Type 0
  UniqueBy key = Pairs (λ a b. key a ≢ key b)

  pub unique-Member :
      (key : A → ℕ) (l : List A) (x : A)
      → UniqueBy key l
      → Member x l
      → All (λ y. key y ≡ key x → y ≡ x) l
  unique-Member key [] x u m = tt
  unique-Member key (y ∷ l) x u (inl e) =
      (λ k. e, All-map (λ z. key y ≢ key z) (λ z n k. absurd (n (ap key e ∙ sym k))) l u.0)
  unique-Member key (y ∷ l) x u (inr m) =
      (λ k. absurd (All-Member (λ z. key y ≢ key z) l x u.0 m k), unique-Member key l x u.1 m)

  module _ (q : A → Bool) (f : A → A) where
    pub All-update_where :
        (P Q : A → Type 0)
        → ((x : A) → P x → q x ≡ true → Q (f x))
        → ((x : A) → P x → q x ≡ false → Q x)
        → (l : List A) → All P l
        → All Q (update_where q f l)
    All-update_where P Q hit miss [] h = tt
    All-update_where P Q hit miss (x ∷ l) h = elim (Bool-cases (q x)) [
      | inl e ↦ (rw e (hit x h.0 e), All-update_where P Q hit miss l h.1)
      | inr e ↦ (rw e (miss x h.0 e), All-update_where P Q hit miss l h.1)
    ]

    pub UniqueBy-update_where :
        (key : A → ℕ)
        → ((x : A) → key (f x) ≡ key x)
        → (l : List A) → UniqueBy key l
        → UniqueBy key (update_where q f l)
    UniqueBy-update_where key keeps [] u = tt
    UniqueBy-update_where key keeps (x ∷ l) u = (
      All-update_where (λ y. key x ≢ key y) (λ y. key (if q x then f x else x) ≢ key y)
          (λ y n e k. n (sym (same x) ∙ k ∙ keeps y)) (λ y n e k. n (sym (same x) ∙ k)) l u.0,
      UniqueBy-update_where key keeps l u.1,
    )
      where
        same : (x : A) → key (if q x then f x else x) ≡ key x
        same x = elim (Bool-cases (q x)) [ inl e ↦ rw e (keeps x) | inr e ↦ rw e refl ]

    -- Rewriting rows to rows that a test picks only where it picked them before.
    pub count-update_where_mono :
        (p : A → Bool) (l : List A)
        → All (λ x. q x ≡ true → p (f x) ≡ true → p x ≡ true) l
        → count p (update_where q f l) ≤ count p l
    count-update_where_mono p [] h = ground arith
    count-update_where_mono p (x ∷ l) h = ground (arith, count-update_where_mono p l h.1, h.0)

  none_of_count : (p : A → Bool) (l : List A) → count p l ≡ 0 → All (λ x. p x ≡ false) l
  none_of_count p [] h = tt
  none_of_count p (x ∷ l) h = (ground arith, none_of_count p l (ground arith))

  -- Rewriting the one row of a key, in a table where a test picks none.
  pub count-update_where_one :
      (key : A → ℕ) (k : ℕ) (f : A → A) (p : A → Bool) (l : List A)
      → UniqueBy key l
      → count p l ≡ 0
      → count p (update_where (λ x. key x == k) f l) ≤ 1
  count-update_where_one key k f p [] u h = ground arith
  count-update_where_one key k f p (x ∷ l) u h = elim (Bool-cases (key x == k)) [
    | inl hit ↦
        let kept =
          count-absent key k f p l
            (All-map (λ y. key x ≢ key y) (λ y n e. n (ground (arith, hit, e))) l u.0) in
        ground (arith, hit, kept)
    | inr miss ↦
        let rest = count-update_where_one key k f p l u.1 (ground arith) in
        ground (arith, miss, rest)
  ]
    where
      count-absent :
          (key : A → ℕ) (k : ℕ) (f : A → A) (p : A → Bool) (l : List A)
          → All (λ y. key y ≢ k) l
          → count p (update_where (λ x. key x == k) f l) ≡ count p l
      count-absent key k f p [] h = refl
      count-absent key k f p (x ∷ l) h = ground (arith, count-absent key k f p l h.1, h.0)

pub none_of_any : {A : Type 0} (p : A → Bool) (l : List A) → any p l ≡ false → count p l ≡ 0
none_of_any p [] h = ground arith
none_of_any p (x ∷ l) h = ground (arith, none_of_any p l)
