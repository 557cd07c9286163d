-- ===== src/ConfirmationCode/RoundTrip.antt =====
-- What is generated is read back, and what is read back is canonical.
use lodgiva.Common.{
  ℕ, zero, suc, ◌<◌, true, false, some, List, [], ◌∷◌, ◌++◌, map, ◌≡◌, refl, sym, ap, ◌∙◌, subst,
  arith, all, length, ◌==◌,
}
use lodgiva.ConfirmationCode.{
  code_alphabet, take, drop, glyph_at, draw_glyphs, canonical, generate_confirmation_code, fold,
  to_upper, is_separator, is_glyph, strip_prefix, squeeze, accept, normalise_confirmation_code,
}

-- A glyph of the alphabet is upper case, no separator, stands for itself, and is not the first
-- letter of the prefix.
record Plain (c : ℕ) : Type 0 where
  upper : to_upper c ≡ c
  kept : is_separator c ≡ false
  itself : fold c ≡ c
  not_l : (c == b'L') ≡ false

is_glyph-Plain : (c : ℕ) → is_glyph c ≡ true → Plain c
unfolding is_glyph to_upper is_separator fold
is_glyph-Plain c h = ground arith

-- A code without the prefix is not changed on the way.
squeeze-glyphs : (s : List ℕ) → all is_glyph s ≡ true → squeeze s ≡ s
unfolding squeeze
squeeze-glyphs [] h = refl
squeeze-glyphs (c ∷ s) h =
    let p = is_glyph-Plain c (ground arith) in ground (arith, squeeze-glyphs s, p.upper, p.kept)

map-fold : (s : List ℕ) → all is_glyph s ≡ true → map fold s ≡ s
map-fold [] h = refl
map-fold (c ∷ s) h = let p = is_glyph-Plain c (ground arith) in ground (arith, map-fold s, p.itself)

squeeze-append : (s t : List ℕ) → squeeze (s ++ t) ≡ squeeze s ++ squeeze t
unfolding squeeze
squeeze-append [] t = refl
squeeze-append (c ∷ s) t = ground (arith, squeeze-append s t)

take-drop : (n : ℕ) (s : List ℕ) → take n s ++ drop n s ≡ s
take-drop zero s = refl
take-drop (suc n) [] = refl
take-drop (suc n) (c ∷ s) = ap (λ r. c ∷ r) (take-drop n s)

all-take : (n : ℕ) (s : List ℕ) → all is_glyph s ≡ true → all is_glyph (take n s) ≡ true
all-take zero s h = refl
all-take (suc n) [] h = refl
all-take (suc n) (c ∷ s) h = ground (arith, all-take n s)

all-drop : (n : ℕ) (s : List ℕ) → all is_glyph s ≡ true → all is_glyph (drop n s) ≡ true
all-drop zero s h = h
all-drop (suc n) [] h = refl
all-drop (suc n) (c ∷ s) h = ground (arith, all-drop n s)

squeeze-canonical :
    (body : List ℕ)
    → all is_glyph body ≡ true
    → squeeze (canonical body) ≡ b'L' ∷ b'D' ∷ b'G' ∷ body
unfolding canonical
squeeze-canonical body h =
    squeeze-append (b'L' ∷ b'D' ∷ b'G' ∷ b'-' ∷ take 4 body) (b'-' ∷ drop 4 body)
    ∙ rw
        (
          squeeze-dashed (take 4 body),
          squeeze-dash (drop 4 body),
          squeeze-glyphs (take 4 body) (all-take 4 body h),
          squeeze-glyphs (drop 4 body) (all-drop 4 body h),
          take-drop 4 body,
        )
        refl
  where
    squeeze-dash : (s : List ℕ) → squeeze (b'-' ∷ s) ≡ squeeze s
    squeeze-dash s = unfold squeeze in refl

    squeeze-dashed :
        (s : List ℕ) → squeeze (b'L' ∷ b'D' ∷ b'G' ∷ b'-' ∷ s) ≡ b'L' ∷ b'D' ∷ b'G' ∷ squeeze s
    squeeze-dashed s = unfold squeeze in refl

normalise-canonical :
    (body : List ℕ)
    → all is_glyph body ≡ true
    → length body ≡ 8
    → normalise_confirmation_code (canonical body) ≡ some (canonical body)
normalise-canonical body h n =
    unstep ∙ rw (squeeze-canonical body h, strip body, map-fold body h) (accepted body h n)
  where
    unstep :
        normalise_confirmation_code (canonical body)
        ≡ accept (map fold (strip_prefix (squeeze (canonical body))))
    unstep = unfold normalise_confirmation_code canonical in refl

    strip : (s : List ℕ) → strip_prefix (b'L' ∷ b'D' ∷ b'G' ∷ s) ≡ s
    strip s = unfold strip_prefix in refl

    accepted : (s : List ℕ) → all is_glyph s ≡ true → length s ≡ 8 → accept s ≡ some (canonical s)
    accepted s g k = unfold accept in ground (arith, g, k)

glyph_at-is_glyph :
    (n : ℕ) → n < 25 → (c : ℕ) × (glyph_at n code_alphabet ≡ c ∷ []) × (is_glyph c ≡ true)
unfolding is_glyph
glyph_at-is_glyph n h = nth n code_alphabet h refl
  where
    nth :
        (n : ℕ) (l : List ℕ)
        → n < length l
        → all is_glyph l ≡ true
        → (c : ℕ) × (glyph_at n l ≡ c ∷ []) × (is_glyph c ≡ true)
    nth n [] k g = absurd (omega arith)
    nth zero (c ∷ l) k g = (c, refl, ground arith)
    nth (suc n) (c ∷ l) k g = nth n l (ground arith) (ground arith)

all-draw_glyphs :
    (rand : ℕ → ℕ)
    → ((i : ℕ) → rand i < 25)
    → (left i : ℕ)
    → (all is_glyph (draw_glyphs rand i left) ≡ true) × (length (draw_glyphs rand i left) ≡ left)
unfolding draw_glyphs
all-draw_glyphs rand below zero i = (refl, refl)
all-draw_glyphs rand below (suc left) i =
    let (c, drawn, good) = glyph_at-is_glyph (rand i) (below i) in
    let (rest, long) = all-draw_glyphs rand below left (suc i) in
    (rw drawn (ground (arith, good, rest)), rw drawn (ap suc long))

-- A code that is generated, with random numbers below 25, is read back as it is.
pub normalise-generate :
    (rand : ℕ → ℕ)
    → ((i : ℕ) → rand i < 25)
    → normalise_confirmation_code (generate_confirmation_code rand)
      ≡ some (generate_confirmation_code rand)
unfolding generate_confirmation_code
normalise-generate rand below =
    let (good, long) = all-draw_glyphs rand below 8 0 in
    normalise-canonical (draw_glyphs rand 0 8) good long

-- Whatever a guest types, what it is read as is a code of eight glyphs in its canonical form, which
-- is read as itself.
pub normalise_canonical_form :
    (s t : List ℕ)
    → normalise_confirmation_code s ≡ some t
    → ((body : List ℕ) × (all is_glyph body ≡ true) × (length body ≡ 8) × (t ≡ canonical body))
      × (normalise_confirmation_code t ≡ some t)
normalise_canonical_form [] t h = absurd (unfold normalise_confirmation_code in ground arith)
normalise_canonical_form (c ∷ s) t h =
    let body = map fold (strip_prefix (squeeze (c ∷ s))) in
    let (good, long, same) = accepted body (unfold normalise_confirmation_code in h) in
    (
      (body, good, long, same),
      subst (λ x. normalise_confirmation_code x ≡ some x) (sym same)
          (normalise-canonical body good long),
    )
  where
    accepted :
        (b : List ℕ)
        → accept b ≡ some t
        → (all is_glyph b ≡ true) × (length b ≡ 8) × (t ≡ canonical b)
    accepted b e = unfold accept in ground (arith, e)
