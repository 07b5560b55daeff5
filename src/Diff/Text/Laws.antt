-- ===== src/Diff/Text/Laws.antt =====
-- Splitting a text that was put together.
use mathlib.Core.List.{append-nil}
use blindfold.Prelude.{
  ℕ, ◌≡◌, ◌≢◌, refl, ap, ◌∙◌, arith, false, Option, none, some, List, [], ◌∷◌, ◌++◌, ◌==◌, All,
}
use blindfold.Prelude.Splitting.{unlines}
use blindfold.Core.SafeRef.{Text, strip_prefix}
use blindfold.Core.SafeRef.Pieces.{strip_prefix-append}
use blindfold.Diff.Text.{split_once, after_char, first_char, lines, replace_pair}

-- No character of the text is `c`.
abbrev pub Without : ℕ → Text → Type 0
Without c = All (λ d. d ≢ c)

abbrev pub IsLine : Text → Type 0
IsLine = All (λ d. (d ≢ 10) × (d ≢ 13))

abbrev pub behind : Text → Option (Text × Text) → Option (Text × Text)
behind [] parts = parts
behind (c ∷ text) parts = after_char c (behind text parts)

-- Where the pattern's first character is not in the first part, the first part is skipped.
pub split_once-skip :
    (front text : Text) (p : ℕ) (ps : Text)
    → Without p front
    → split_once (front ++ text) (p ∷ ps) ≡ behind front (split_once text (p ∷ ps))
unfolding split_once
split_once-skip [] text p ps h = refl
split_once-skip (c ∷ front) text p ps h =
    let other : (c == p) ≡ false = ground (arith, h.0) in
    rw other (ap (after_char c) (split_once-skip front text p ps h.1))

pub behind-some :
    (front before after : Text)
    → behind front (some (before, after)) ≡ some (front ++ before, after)
behind-some [] before after = refl
behind-some (c ∷ front) before after = ap (after_char c) (behind-some front before after)

pub behind-none : (front : Text) → behind front none ≡ none
behind-none [] = refl
behind-none (c ∷ front) = ap (after_char c) (behind-none front)

-- A text that is one line, with what follows the line feed.
pub lines-line : (line rest : Text) → IsLine line → lines (line ++ (10 ∷ rest)) ≡ line ∷ lines rest
unfolding lines
lines-line [] rest h = refl
lines-line (c ∷ line) rest h =
    let feed : (c == 10) ≡ false = ground (arith, h.0.0) in
    let return : (c == 13) ≡ false = ground (arith, h.0.1) in
    rw (feed, return) (ap (first_char c) (lines-line line rest h.1))

pub lines-unlines : (texts : List Text) → All IsLine texts → lines (unlines texts) ≡ texts
unfolding unlines lines
lines-unlines [] h = refl
lines-unlines (line ∷ rest) h =
    lines-line line (unlines rest) h.0 ∙ ap (◌∷◌ line) (lines-unlines rest h.1)

-- A replacement changes nothing where the pattern's first character does not occur.
pub replace_pair-Without :
    (a b to : ℕ) (text : Text) → Without a text → replace_pair a b to text ≡ text
unfolding replace_pair
replace_pair-Without a b to [] h = refl
replace_pair-Without a b to (c ∷ []) h = refl
replace_pair-Without a b to (c ∷ d ∷ text) h =
    let other : (c == a) ≡ false = ground (arith, h.0) in
    rw other (ap (◌∷◌ c) (replace_pair-Without a b to (d ∷ text) h.1))

-- The first occurrence of a pattern.
pub split_once-at :
    (front text : Text) (p : ℕ) (ps : Text)
    → Without p front
    → split_once (front ++ ((p ∷ ps) ++ text)) (p ∷ ps) ≡ some (front, text)
split_once-at front text p ps h =
    split_once-skip front ((p ∷ ps) ++ text) p ps h
    ∙ ap (behind front) (here (strip_prefix-append (p ∷ ps) text))
    ∙ behind-some front [] text
    ∙ ap (λ f. some (f, text)) (append-nil front)
  where
    here :
        strip_prefix ((p ∷ ps) ++ text) (p ∷ ps) ≡ some text
        → split_once ((p ∷ ps) ++ text) (p ∷ ps) ≡ some ([], text)
    here e = unfold split_once in rw e refl

-- A pattern whose first character does not occur.
pub split_once-absent :
    (text : Text) (p : ℕ) (ps : Text) → Without p text → split_once text (p ∷ ps) ≡ none
unfolding split_once
split_once-absent [] p ps h = refl
split_once-absent (c ∷ text) p ps h =
    let other : (c == p) ≡ false = ground (arith, h.0) in
    rw other (ap (after_char c) (split_once-absent text p ps h.1))
