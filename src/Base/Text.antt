-- ===== src/Base/Text.antt =====
-- Operations on texts that the services use: slices, and the tests on text.
use Prim.Native.Nat.{ℕ, zero, suc, ◌≤◌, ◌/◌, ◌%◌}
use Prim.Native.String.{String}
use Prim.Native.Char.{code}
use mathlib.Core.Bool.{Bool, true, false, ◌&&◌, ◌||◌}
use mathlib.Core.Option.{Option, none, some}
use dimax_ops_backend.Base.Tests.{leb, ◌==◌, if◌then◌else◌}
use mathlib.Core.List.{List, [], ◌∷◌}
use text.Mathlib.Text.{◌==◌ as same_text}
use native.Mathlib.Omega.{arith}

-- `a + b`
unfoldable pub concat : String → String → String
concat String.[] t = t
concat (String.◌∷◌ c s) t = String.◌∷◌ c (concat s t)

-- The number of characters.
abbrev pub chars : String → ℕ
chars String.[] = 0
chars (String.◌∷◌ c s) = suc (chars s)

-- `s[:n]`
unfoldable pub clip : ℕ → String → String
clip zero s = String.[]
clip (suc n) String.[] = String.[]
clip (suc n) (String.◌∷◌ c s) = String.◌∷◌ c (clip n s)

pub chars-clip : (n : ℕ) (s : String) → chars (clip n s) ≤ n
unfolding clip
chars-clip zero s = omega arith
chars-clip (suc n) String.[] = omega arith
chars-clip (suc n) (String.◌∷◌ c s) = omega (arith, chars-clip n s)

abbrev pub codes : String → List ℕ
codes String.[] = []
codes (String.◌∷◌ c s) = code c ∷ codes s

-- `if text:` on an optional text: `None` and the empty text are false.
abbrev pub is_given : Option String → Bool
is_given none = false
is_given (some String.[]) = false
is_given (some (String.◌∷◌ c s)) = true

-- The white space of `str.strip`.
unfoldable pub is_space : ℕ → Bool
is_space c =
    leb 9 c && leb c 13
    || leb 28 c && leb c 32
    || c == 133
    || c == 160
    || c == 5760
    || leb 8192 c && leb c 8202
    || c == 8232
    || c == 8233
    || c == 8239
    || c == 8287
    || c == 12288

abbrev pub is_blank_text : String → Bool
is_blank_text String.[] = true
is_blank_text (String.◌∷◌ c s) = false

unfoldable pub strip_right : String → String
strip_right String.[] = String.[]
strip_right (String.◌∷◌ c s) =
    let rest = strip_right s in
    if is_space (code c) && is_blank_text rest then String.[] else String.◌∷◌ c rest

unfoldable pub strip_left : String → String
strip_left String.[] = String.[]
strip_left (String.◌∷◌ c s) = if is_space (code c) then strip_left s else String.◌∷◌ c s

-- `text.strip()`
unfoldable pub strip : String → String
unfolding strip_right strip_left is_space
strip s = strip_right (strip_left s)

-- `text.strip(chars)`, by the test that a character is one of `chars`.
unfoldable pub strip_right_of : (ℕ → Bool) → String → String
strip_right_of p String.[] = String.[]
strip_right_of p (String.◌∷◌ c s) =
    let rest = strip_right_of p s in
    if p (code c) && is_blank_text rest then String.[] else String.◌∷◌ c rest

unfoldable pub strip_left_of : (ℕ → Bool) → String → String
strip_left_of p String.[] = String.[]
strip_left_of p (String.◌∷◌ c s) = if p (code c) then strip_left_of p s else String.◌∷◌ c s

unfoldable pub strip_of : (ℕ → Bool) → String → String
unfolding strip_right_of strip_left_of
strip_of p s = strip_right_of p (strip_left_of p s)

-- `a in texts`
abbrev pub mem_text : String → List String → Bool
mem_text a [] = false
mem_text a (b ∷ bs) = same_text a b || mem_text a bs

-- `separator.join(texts)`
unfoldable pub join : String → List String → String
unfolding concat
join sep [] = String.[]
join sep (a ∷ []) = a
join sep (a ∷ b ∷ bs) = concat a (concat sep (join sep (b ∷ bs)))

-- The digit of a number below ten.
abbrev digit_from : List String → ℕ → String
digit_from [] n = "9"
digit_from (d ∷ ds) zero = d
digit_from (d ∷ ds) (suc n) = digit_from ds n

abbrev digit : ℕ → String
digit = digit_from ("0" ∷ "1" ∷ "2" ∷ "3" ∷ "4" ∷ "5" ∷ "6" ∷ "7" ∷ "8" ∷ [])

-- `str(n)`, the decimal digits; the fuel bounds their number, which is at most `n + 1`.
unfoldable pub digits : (fuel : ℕ) → ℕ → String → String
unfolding concat
digits zero n acc = acc
digits (suc fuel) n acc =
    let next = concat (digit (n % 10)) acc in if leb 10 n then digits fuel (n / 10) next else next

unfoldable pub str : ℕ → String
unfolding digits
str n = digits (suc n) n String.[]

-- `text or None`
abbrev pub text_or_none : String → Option String
text_or_none String.[] = none
text_or_none (String.◌∷◌ c s) = some (String.◌∷◌ c s)
