-- ===== src/ConfirmationCode.antt =====
-- Codes that a guest reads back: apps/api/src/common/confirmation-code.ts. A text is the list of its
-- code points, and what a guest types is ASCII.
pub mod RoundTrip
mod Tests
use Prim.Native.Char.{code}
use lodgiva.Common.{
  ℕ, zero, suc, ◌-◌, Bool, true, false, ◌&&◌, ◌||◌, not, Option, none, some, List, [], ◌∷◌, ◌++◌,
  String, map, ◌==◌, leb, filter, all, contains, length, is_some, if◌then◌else◌,
}

abbrev pub codes : String → List ℕ
codes String.[] = []
codes (String.◌∷◌ c s) = code c ∷ codes s

-- `CODE_ALPHABET`
abbrev pub code_alphabet : List ℕ
code_alphabet = codes "ACDEFGHJKMNPQRTWXY2346789"

-- `CODE_PREFIX` and the dash that follows it
abbrev pub code_prefix : List ℕ
code_prefix = codes "LDG"

-- `slice(0, n)` and `slice(n)`
abbrev pub take : ℕ → List ℕ → List ℕ
take zero s = []
take (suc n) [] = []
take (suc n) (c ∷ s) = c ∷ take n s

abbrev pub drop : ℕ → List ℕ → List ℕ
drop zero s = s
drop (suc n) [] = []
drop (suc n) (c ∷ s) = drop n s

-- `CODE_ALPHABET[n]` as `join` prints it: nothing out of range
abbrev pub glyph_at : ℕ → List ℕ → List ℕ
glyph_at n [] = []
glyph_at zero (c ∷ s) = c ∷ []
glyph_at (suc n) (c ∷ s) = glyph_at n s

-- The loop over the glyphs: the numbers that `rand` gives, from the i-th call on.
unfoldable pub draw_glyphs : (ℕ → ℕ) → ℕ → ℕ → List ℕ
draw_glyphs rand i zero = []
draw_glyphs rand i (suc left) = glyph_at (rand i) code_alphabet ++ draw_glyphs rand (suc i) left

-- The text of a body.
unfoldable pub canonical : List ℕ → List ℕ
canonical body = code_prefix ++ (b'-' ∷ (take 4 body ++ (b'-' ∷ drop 4 body)))

unfoldable pub generate_confirmation_code : (ℕ → ℕ) → List ℕ
unfolding draw_glyphs canonical
generate_confirmation_code rand = canonical (draw_glyphs rand 0 8)

-- `FOLD[c] ?? c`
unfoldable pub fold : ℕ → ℕ
fold c =
    if c == b'B'
    then b'8'
    else if c == b'O'
    then b'Q'
    else if c == b'0'
    then b'Q'
    else if c == b'U'
    then b'W'
    else if c == b'V'
    then b'W'
    else if c == b'Z'
    then b'2'
    else c

-- `toUpperCase`
unfoldable pub to_upper : ℕ → ℕ
to_upper c = if leb b'a' c && leb c b'z' then c - 32 else c

-- `/[\s\-_.]/`
unfoldable pub is_separator : ℕ → Bool
is_separator c = (leb 9 c && leb c 13) || (c == b' ' || (c == b'-' || (c == b'_' || c == b'.')))

-- `CODE_ALPHABET.includes(c)`
unfoldable pub is_glyph : ℕ → Bool
is_glyph c = contains c code_alphabet

-- `if (s.startsWith(CODE_PREFIX)) s = s.slice(CODE_PREFIX.length)`
unfoldable pub strip_prefix : List ℕ → List ℕ
strip_prefix (a ∷ b ∷ c ∷ s) = if a == b'L' && (b == b'D' && c == b'G') then s else a ∷ b ∷ c ∷ s
strip_prefix s = s

-- The letters that count: upper case, no separators.
unfoldable pub squeeze : List ℕ → List ℕ
unfolding to_upper is_separator
squeeze s = filter (λ c. not (is_separator c)) (map to_upper s)

-- The two refusals, and the text of what is left.
unfoldable pub accept : List ℕ → Option (List ℕ)
accept body =
    if not (length body == 8)
    then none
    else if not (all is_glyph body)
    then none
    else some (canonical body)

unfoldable pub normalise_confirmation_code : List ℕ → Option (List ℕ)
unfolding squeeze strip_prefix fold accept is_glyph canonical
normalise_confirmation_code [] = none
normalise_confirmation_code (c ∷ s) = accept (map fold (strip_prefix (squeeze (c ∷ s))))

unfoldable pub is_valid_confirmation_code : List ℕ → Bool
unfolding normalise_confirmation_code
is_valid_confirmation_code input = is_some (normalise_confirmation_code input)
