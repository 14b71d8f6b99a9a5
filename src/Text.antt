-- ===== src/Text.antt =====
-- Texts: Rust's `str` as the list of its code points (its bytes, where the text is ASCII), with the
-- operations of the standard library that the sources use.
use Prim.Native.Char.{code}
use Prim.Native.String.{String}
use mercury_cortex_core.Common.{
  not, ltb, keep, zero, ◌%◌, ◌+◌, ◌/◌, suc, ℕ, ◌≡◌, refl, ◌↔◌, Bool, true, false, ◌&&◌, ◌||◌, List,
  [], ◌∷◌, ◌++◌, arith, leb, ◌==◌, if◌then◌else◌,
}

abbrev pub Text : Type 0
Text = List ℕ

abbrev pub codes : String → Text
codes String.[] = []
codes (String.◌∷◌ c s) = code c ∷ codes s

-- Equality of texts.
unfoldable pub text_eq : Text → Text → Bool
text_eq [] [] = true
text_eq (x ∷ xs) (y ∷ ys) = x == y && text_eq xs ys
text_eq _ _ = false

eq_of_text_eq : (s t : Text) → text_eq s t ≡ true → s ≡ t
unfolding text_eq
eq_of_text_eq [] [] h = refl
eq_of_text_eq (x ∷ xs) (y ∷ ys) h = ground (arith, eq_of_text_eq xs ys)
eq_of_text_eq [] (y ∷ ys) h = cc
eq_of_text_eq (x ∷ xs) [] h = cc

pub text_eq_refl : (s : Text) → text_eq s s ≡ true
unfolding text_eq
text_eq_refl [] = refl
text_eq_refl (x ∷ xs) = ground (arith, text_eq_refl xs)

pub text_eq_iff : (s t : Text) → (text_eq s t ≡ true) ↔ (s ≡ t)
text_eq_iff s t = (eq_of_text_eq s t, λ e. rw e (text_eq_refl t))

-- `str::starts_with`, `str::ends_with`, `str::contains` with a text, and with a character.
unfoldable pub starts_with : Text → Text → Bool
starts_with s [] = true
starts_with [] (p ∷ ps) = false
starts_with (x ∷ xs) (p ∷ ps) = x == p && starts_with xs ps

unfoldable pub ends_with : Text → Text → Bool
unfolding text_eq
ends_with [] p = text_eq [] p
ends_with (x ∷ xs) p = text_eq (x ∷ xs) p || ends_with xs p

unfoldable pub contains : Text → Text → Bool
unfolding starts_with
contains [] p = starts_with [] p
contains (x ∷ xs) p = starts_with (x ∷ xs) p || contains xs p

unfoldable pub has_char : Text → ℕ → Bool
has_char [] c = false
has_char (x ∷ xs) c = x == c || has_char xs c

-- `str::is_empty`.
abbrev pub is_empty {ℓ} : {A : Type ℓ} → List A → Bool
is_empty [] = true
is_empty (_ ∷ _) = false

-- `str::trim_start_matches` and `trim_end_matches` with one character.
unfoldable pub trim_start_char : ℕ → Text → Text
trim_start_char c [] = []
trim_start_char c (x ∷ xs) = if x == c then trim_start_char c xs else x ∷ xs

unfoldable pub trim_end_char : ℕ → Text → Text
trim_end_char c [] = []
trim_end_char c (x ∷ xs) = elim (trim_end_char c xs) [
  | [] ↦ if x == c then [] else x ∷ []
  | y ∷ ys ↦ x ∷ y ∷ ys
]

-- `str::split` at a character: one part more than there are separators.
abbrev pub cons_head : ℕ → List Text → List Text
cons_head x [] = (x ∷ []) ∷ []
cons_head x (p ∷ ps) = (x ∷ p) ∷ ps

unfoldable pub split : ℕ → Text → List Text
split c [] = [] ∷ []
split c (x ∷ xs) = if x == c then [] ∷ split c xs else cons_head x (split c xs)

-- `[…].join(sep)`.
unfoldable pub join : Text → List Text → Text
join sep [] = []
join sep (p ∷ []) = p
join sep (p ∷ q ∷ ps) = p ++ (sep ++ join sep (q ∷ ps))

-- `char::is_whitespace`, `str::trim` and `str::split_whitespace`.
unfoldable pub is_whitespace : ℕ → Bool
is_whitespace c =
    (leb 9 c && leb c 13)
    || c == 32
    || c == 0x85
    || c == 0xa0
    || c == 0x1680
    || (leb 0x2000 c && leb c 0x200a)
    || c == 0x2028
    || c == 0x2029
    || c == 0x202f
    || c == 0x205f
    || c == 0x3000

unfoldable pub trim_start : Text → Text
unfolding is_whitespace
trim_start [] = []
trim_start (x ∷ xs) = if is_whitespace x then trim_start xs else x ∷ xs

unfoldable pub trim_end : Text → Text
unfolding is_whitespace
trim_end [] = []
trim_end (x ∷ xs) = elim (trim_end xs) [
  | [] ↦ if is_whitespace x then [] else x ∷ []
  | y ∷ ys ↦ x ∷ y ∷ ys
]

unfoldable pub trim : Text → Text
unfolding trim_start trim_end
trim s = trim_end (trim_start s)

-- `str::lines`: the parts between line feeds, without the carriage return before one; the last
-- part counts only if it is not empty.
unfoldable pub strip_cr : Text → Text
strip_cr [] = []
strip_cr (x ∷ []) = if x == 13 then [] else x ∷ []
strip_cr (x ∷ y ∷ ys) = x ∷ strip_cr (y ∷ ys)

unfoldable pub line_parts : List Text → List Text
line_parts [] = []
line_parts (p ∷ []) = if is_empty p then [] else p ∷ []
line_parts (p ∷ q ∷ ps) = strip_cr p ∷ line_parts (q ∷ ps)

unfoldable pub lines : Text → List Text
unfolding split strip_cr line_parts
lines s = line_parts (split 10 s)

-- The pieces of `format!` put together, and a number in decimal.
unfoldable pub concat : List Text → Text
concat [] = []
concat (p ∷ ps) = p ++ concat ps

decimal_from : ℕ → ℕ → Text
decimal_from zero n = []
decimal_from (suc fuel) n =
    let rest = decimal_from fuel (n / 10) in (if leb 10 n then rest else []) ++ (48 + n % 10) ∷ []

-- The fuel is one more than the number, which has fewer digits.
unfoldable pub decimal : ℕ → Text
unfolding decimal_from
decimal n = decimal_from (suc n) n

-- The length in bytes of UTF-8, which `str::len` is.
len_utf8 : ℕ → ℕ
len_utf8 c = if ltb c 0x80 then 1 else if ltb c 0x800 then 2 else if ltb c 0x10000 then 3 else 4

unfoldable pub byte_len : Text → ℕ
unfolding len_utf8
byte_len [] = 0
byte_len (c ∷ s) = len_utf8 c + byte_len s

-- `char::is_control`.
unfoldable pub is_control : ℕ → Bool
is_control c = ltb c 0x20 || (leb 0x7f c && leb c 0x9f)

-- `str::split_whitespace`: the parts between blanks that are not empty.
blank_parts : Text → List Text
unfolding is_whitespace
blank_parts [] = [] ∷ []
blank_parts (x ∷ xs) = if is_whitespace x then [] ∷ blank_parts xs else cons_head x (blank_parts xs)

unfoldable pub split_whitespace : Text → List Text
unfolding blank_parts
split_whitespace s = keep (λ p. not (is_empty p)) (blank_parts s)

-- The order of texts, by code points as by the bytes of UTF-8.
unfoldable pub text_le : Text → Text → Bool
text_le [] t = true
text_le (x ∷ xs) [] = false
text_le (x ∷ xs) (y ∷ ys) = ltb x y || (x == y && text_le xs ys)

pub text_le_total : (s t : Text) → text_le s t ≡ false → text_le t s ≡ true
unfolding text_le
text_le_total [] t h = cc h
text_le_total (x ∷ xs) [] h = refl
text_le_total (x ∷ xs) (y ∷ ys) h = ground (arith, text_le_total xs ys)

pub text_le_trans : (s t u : Text) → text_le s t ≡ true → text_le t u ≡ true → text_le s u ≡ true
unfolding text_le
text_le_trans [] t u h k = refl
text_le_trans (x ∷ xs) [] u h k = cc h
text_le_trans (x ∷ xs) (y ∷ ys) [] h k = cc k
text_le_trans (x ∷ xs) (y ∷ ys) (z ∷ zs) h k = ground (arith, text_le_trans xs ys zs)
