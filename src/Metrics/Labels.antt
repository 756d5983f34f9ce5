-- ===== src/Metrics/Labels.antt =====
-- The labels of a metric's line: `_split_labels` and `_parse_labels` of
-- backend/src/argus/supervisor/metrics_probe.py. A text is the list of its characters' codes.
pub mod Split
pub mod Print
use vision.Common.{
  ℕ, ◌≡◌, ◌↔◌, refl, ap, ap₂, Bool, true, false, not, Option, none, some, List, [], ◌∷◌, ◌++◌, Dict,
  insert, ltb, leb, ◌==◌, ◌&&◌, ◌||◌, if◌then◌else◌, compare_nat, Comparable, nat_beq, nat_beq_iff,
  arith,
}

abbrev pub Text : Type 0
Text = List ℕ

abbrev pub text_beq : Text → Text → Bool
text_beq [] [] = true
text_beq [] (b ∷ ys) = false
text_beq (a ∷ xs) [] = false
text_beq (a ∷ xs) (b ∷ ys) = nat_beq a b && text_beq xs ys

pub text_beq_iff : (a b : Text) → (text_beq a b ≡ true) ↔ (a ≡ b)
text_beq_iff [] [] = (λ h. refl, λ h. refl)
text_beq_iff [] (b ∷ ys) = (λ h. cc, λ h. cc)
text_beq_iff (a ∷ xs) [] = (λ h. cc, λ h. cc)
text_beq_iff (a ∷ xs) (b ∷ ys) = ground (arith, nat_beq_iff a b, text_beq_iff xs ys)

instance abbrev pub compare_text : Comparable Text
compare_text = record { same = text_beq; same_iff = text_beq_iff }

abbrev pub quote : ℕ
quote = 34

abbrev pub comma : ℕ
comma = 44

abbrev pub equals_sign : ℕ
equals_sign = 61

abbrev pub backslash : ℕ
backslash = 92

-- `str.isspace` of one character.
unfoldable pub is_space : ℕ → Bool
is_space c =
    (leb 9 c && leb c 13)
    || (leb 28 c && leb c 32)
    || c == 133
    || c == 160
    || c == 5760
    || (leb 8192 c && leb c 8202)
    || c == 8232
    || c == 8233
    || c == 8239
    || c == 8287
    || c == 12288

abbrev is_nil : Text → Bool
is_nil [] = true
is_nil (c ∷ cs) = false

-- `lstrip` and `rstrip` of the characters that pass the test.
unfoldable pub strip_left : (ℕ → Bool) → Text → Text
strip_left p [] = []
strip_left p (c ∷ cs) = if p c then strip_left p cs else c ∷ cs

unfoldable pub strip_right : (ℕ → Bool) → Text → Text
strip_right p [] = []
strip_right p (c ∷ cs) = let rest = strip_right p cs in if p c && is_nil rest then [] else c ∷ rest

unfoldable pub strip : (ℕ → Bool) → Text → Text
unfolding strip_left strip_right
strip p text = strip_right p (strip_left p text)

-- `text.partition("=")`, if the sign is in the text.
unfoldable pub partition : Text → Option (Text × Text)
partition [] = none
partition (c ∷ cs) =
    if c == equals_sign
    then some ([], cs)
    else elim (partition cs) [ none ↦ none | some (key, value) ↦ some (c ∷ key, value) ]

-- The loop of `_split_labels`, from its state on: what it appends to `parts`.
unfoldable pub split_from : Text → Bool → Bool → Text → List Text
split_from current in_quotes escaped [] = if is_nil current then [] else current ∷ []
split_from current in_quotes true (c ∷ cs) = split_from (current ++ c ∷ []) in_quotes false cs
split_from current in_quotes false (c ∷ cs) =
    if c == backslash
    then split_from (current ++ c ∷ []) in_quotes true cs
    else let quoted = if c == quote then not in_quotes else in_quotes in
      if c == comma && not quoted
      then current ∷ split_from [] quoted false cs
      else split_from (current ++ c ∷ []) quoted false cs

unfoldable pub split_labels : Text → List Text
unfolding split_from
split_labels raw = split_from [] false false raw

abbrev pub is_quote : ℕ → Bool
is_quote c = c == quote

abbrev pub add_label : Dict Text Text → Option (Text × Text) → Dict Text Text
add_label labels none = labels
add_label labels (some (key, value)) =
    insert (strip is_space key) (strip is_quote (strip is_space value)) labels

unfoldable pub parse_parts : Dict Text Text → List Text → Dict Text Text
parse_parts labels [] = labels
parse_parts labels (part ∷ parts) = parse_parts (add_label labels (partition part)) parts

unfoldable pub parse_labels : Text → Dict Text Text
unfolding split_labels parse_parts
parse_labels raw = if is_nil raw then [] else parse_parts [] (split_labels raw)
