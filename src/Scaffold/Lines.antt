-- ===== src/Scaffold/Lines.antt =====
-- The lines of a text that grows by whole lines, as `create_or_update_mcignore` of
-- src/service/scaffold.rs reads and writes them.
use mercury_cortex_core.Common.{
  ℕ, ◌≡◌, refl, ap, sym, ◌∙◌, subst, Bool, true, false, not, ◌&&◌, ◌||◌, inl, inr, Bool-cases, List,
  [], ◌∷◌, ◌++◌, arith, ◌==◌, if◌then◌else◌, map, any, all, any-keep, any-map, ==_iff, append_assoc,
  ap₂, append-nil,
}
use mercury_cortex_core.Text.{
  Text, codes, text_eq, text_eq_iff, starts_with, ends_with, is_empty, has_char, is_whitespace,
  trim, trim_start, trim_end, strip_cr, line_parts, lines, split,
}
use mercury_cortex_core.Paths.Parts.{split-append, split_free, split-ne-nil}
use mercury_cortex_core.Scaffold.{newline, end_line, existing_lines, entry_lines}

return_is_blank : (x : ℕ) → (x == 13) ≡ true → is_whitespace x ≡ true
unfolding is_whitespace
return_is_blank x e = subst (λ y. is_whitespace y ≡ true) (sym ((==_iff x 13).0 e)) refl

trim_end-strip_cr : (p : Text) → trim_end (strip_cr p) ≡ trim_end p
unfolding trim_end strip_cr is_whitespace
trim_end-strip_cr [] = refl
trim_end-strip_cr (x ∷ []) = elim (Bool-cases (x == 13)) [
  | inl e ↦ let w = return_is_blank x e in rw (e, w) refl
  | inr n ↦ rw n refl
]
trim_end-strip_cr (x ∷ y ∷ ys) =
    ap (λ (r : Text). elim r [ [] ↦ if is_whitespace x then [] else x ∷ [] | z ∷ zs ↦ x ∷ z ∷ zs ])
      (trim_end-strip_cr (y ∷ ys))

trim-strip_cr : (p : Text) → trim (strip_cr p) ≡ trim p
unfolding trim trim_start strip_cr is_whitespace
trim-strip_cr [] = refl
trim-strip_cr (x ∷ []) = elim (Bool-cases (x == 13)) [
  | inl e ↦ let w = return_is_blank x e in rw (e, w) refl
  | inr n ↦ rw n refl
]
trim-strip_cr (x ∷ y ∷ ys) = elim (Bool-cases (is_whitespace x)) [
  | inl w ↦ rw w (trim-strip_cr (y ∷ ys))
  | inr n ↦ rw n (trim_end-strip_cr (x ∷ y ∷ ys))
]

-- A line that stands for an entry.
abbrev pub names : Text → Text → Bool
names entry line =
    (not (is_empty (trim line)) && not (starts_with (trim line) (codes "#")))
    && text_eq (trim line) entry

pub existing_lines-any :
    (d s : Text) → any (λ l. text_eq l d) (existing_lines s) ≡ any (names d) (lines s)
unfolding existing_lines
existing_lines-any d s =
    any-keep (λ l. text_eq l d) (λ l. not (is_empty l) && not (starts_with l (codes "#")))
      (map trim (lines s))
    ∙ any-map (λ l. (not (is_empty l) && not (starts_with l (codes "#"))) && text_eq l d) trim
        (lines s)

line_parts-append :
    (ps : List Text) (q : Text) (qs : List Text)
    → line_parts (ps ++ q ∷ qs) ≡ map strip_cr ps ++ line_parts (q ∷ qs)
unfolding line_parts
line_parts-append [] q qs = refl
line_parts-append (p ∷ []) q qs = refl
line_parts-append (p ∷ r ∷ ps) q qs = ap (λ x. strip_cr p ∷ x) (line_parts-append (r ∷ ps) q qs)

line_parts-ne-nil :
    (ps qs : List Text)
    → (q : Text) × (rs : List Text) × (qs ≡ q ∷ rs)
    → line_parts (ps ++ qs) ≡ map strip_cr ps ++ line_parts qs
line_parts-ne-nil ps qs (q, rs, e) =
    subst (λ x. line_parts (ps ++ x) ≡ map strip_cr ps ++ line_parts x) (sym e)
      (line_parts-append ps q rs)

-- A text that ends in a line feed, with more behind it.
pub lines-line : (b t : Text) → lines ((b ++ newline) ++ t) ≡ map strip_cr (split 10 b) ++ lines t
unfolding lines
lines-line b t =
    ap lines (append_assoc b newline t)
    ∙ ap line_parts (split-append 10 b t)
    ∙ line_parts-ne-nil (split 10 b) (split 10 t) (split-ne-nil 10 t)

-- Entries that are lines as they stand.
abbrev pub is_line : Text → Bool
is_line e = not (has_char e 10) && text_eq (strip_cr e) e

pub lines-entry_lines : (es : List Text) → all is_line es ≡ true → lines (entry_lines es) ≡ es
unfolding lines split line_parts entry_lines
lines-entry_lines [] h = refl
lines-entry_lines (e ∷ es) h =
    let free : has_char e 10 ≡ false = ground arith in
    let same : strip_cr e ≡ e = (text_eq_iff (strip_cr e) e).0 (ground arith) in
    ap lines (sym (append_assoc e newline (entry_lines es)))
    ∙ lines-line e (entry_lines es)
    ∙ ap (λ ps. map strip_cr ps ++ lines (entry_lines es)) (split_free 10 e free)
    ∙ ap₂ (λ x xs. x ∷ xs) same (lines-entry_lines es (ground arith))

names-strip_cr : (d p : Text) → names d (strip_cr p) ≡ names d p
names-strip_cr d p =
    ap (λ t. (not (is_empty t) && not (starts_with t (codes "#"))) && text_eq t d) (trim-strip_cr p)

any-line_parts :
    (d : Text) (ps : List Text)
    → any (names d) (line_parts ps) ≡ true
    → any (names d) (map strip_cr ps) ≡ true
unfolding line_parts
any-line_parts d [] h = h
any-line_parts d ([] ∷ []) h = cc h
any-line_parts d ((x ∷ p) ∷ []) h =
    subst (λ b. (b || false) ≡ true) (sym (names-strip_cr d (x ∷ p))) h
any-line_parts d (p ∷ q ∷ ps) h = ground (arith, any-line_parts d (q ∷ ps))

ends_with-newline : (s : Text) → ends_with s newline ≡ true → (b : Text) × (s ≡ b ++ newline)
unfolding ends_with text_eq
ends_with-newline [] h = cc h
ends_with-newline (x ∷ xs) h = elim (Bool-cases (text_eq (x ∷ xs) newline)) [
  | inl e ↦ ([], (text_eq_iff (x ∷ xs) newline).0 e)
  | inr n ↦ let (b, e) = ends_with-newline xs (ground arith) in (x ∷ b, ap (λ t. x ∷ t) e)
]

-- The text before the entries.
pub record Ended (existing : Text) : Type 0 where
  pub body : Text
  pub ended : end_line existing ≡ body ++ newline
  pub extends : (t : Text) × (end_line existing ≡ existing ++ t)
  pub keeps :
      (d : Text)
      → any (names d) (lines existing) ≡ true
      → any (names d) (map strip_cr (split 10 body)) ≡ true

lines-ended : (s b : Text) → s ≡ b ++ newline → lines s ≡ map strip_cr (split 10 b)
unfolding lines split line_parts
lines-ended s b e =
    ap lines (e ∙ sym (append-nil (b ++ newline)))
    ∙ lines-line b []
    ∙ append-nil (map strip_cr (split 10 b))

pub end_line-Ended : (existing : Text) → Ended existing
unfolding end_line lines
end_line-Ended existing = elim (Bool-cases (ends_with existing newline)) [
  | inl h ↦
      let (b, e) = ends_with-newline existing h in
      record {
        body = b;
        ended = rw h e;
        extends = ([], rw h (sym (append-nil existing)));
        keeps = λ d. subst (λ ls. any (names d) ls ≡ true) (lines-ended existing b e);
      }
  | inr n ↦ record {
    body = existing;
    ended = rw n refl;
    extends = (newline, rw n refl);
    keeps = λ d. any-line_parts d (split 10 existing);
  }
]
