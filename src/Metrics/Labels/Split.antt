-- ===== src/Metrics/Labels/Split.antt =====
-- Splitting the labels at the commas outside quotes.
use vision.Common.{
  ℕ, ◌≡◌, refl, ap, sym, ◌∙◌, Bool, true, false, not, List, [], ◌∷◌, ◌++◌, map, append_assoc,
  append-nil, All, ◌==◌, ◌&&◌, compare_nat, arith,
}
use vision.Metrics.Labels.{
  Text, quote, comma, backslash, equals_sign, is_space, split_from, split_labels,
}

-- A character that may stand in a key.
unfoldable pub is_plain : ℕ → Bool
is_plain c =
    not (c == quote)
    && not (c == backslash)
    && not (c == comma)
    && not (c == equals_sign)
    && not (is_space c)

-- A character that may stand in a value without an escape.
unfoldable pub is_unescaped : ℕ → Bool
is_unescaped c = not (c == quote) && not (c == backslash)

abbrev pub Label : Type 0
Label = Text × Text

-- `key="value"`
unfoldable pub print_label : Label → Text
print_label (key, value) = key ++ equals_sign ∷ quote ∷ (value ++ quote ∷ [])

unfoldable pub print_labels : List Label → Text
unfolding print_label
print_labels [] = []
print_labels (label ∷ []) = print_label label
print_labels (label ∷ next ∷ rest) = print_label label ++ comma ∷ print_labels (next ∷ rest)

abbrev pub IsPlain : Label → Type 0
IsPlain (key, value) = All (λ c. is_plain c ≡ true) key × All (λ c. is_unescaped c ≡ true) value

split-key :
    (current key rest : Text)
    → All (λ c. is_plain c ≡ true) key
    → split_from current false false (key ++ rest) ≡ split_from (current ++ key) false false rest
unfolding split_from is_plain
split-key current [] rest h = rw (append-nil current) refl
split-key current (c ∷ key) rest h =
    ground (arith, split-key (current ++ c ∷ []) key rest, append_assoc current (c ∷ []) key)

split-value :
    (current value rest : Text)
    → All (λ c. is_unescaped c ≡ true) value
    → split_from current true false (value ++ rest) ≡ split_from (current ++ value) true false rest
unfolding split_from is_unescaped
split-value current [] rest h = rw (append-nil current) refl
split-value current (c ∷ value) rest h =
    ground (arith, split-value (current ++ c ∷ []) value rest, append_assoc current (c ∷ []) value)

split-label :
    (label : Label) (rest : Text)
    → IsPlain label
    → split_from [] false false (print_label label ++ rest)
      ≡ split_from (print_label label) false false rest
unfolding split_from print_label
split-label (key, value) rest plain =
    let tail = equals_sign ∷ quote ∷ (value ++ quote ∷ []) in
    let opened = key ++ equals_sign ∷ [] ++ quote ∷ [] in
    let whole : opened ++ value ++ quote ∷ [] ≡ key ++ tail =
      ap (λ t. t ++ value ++ quote ∷ []) (append_assoc key (equals_sign ∷ []) (quote ∷ []))
      ∙ ap (λ t. t ++ quote ∷ []) (append_assoc key (equals_sign ∷ quote ∷ []) value)
      ∙ append_assoc key (equals_sign ∷ quote ∷ value) (quote ∷ []) in
    ap (split_from [] false false) (
      append_assoc key tail rest
      ∙ ap (λ t. key ++ equals_sign ∷ quote ∷ t) (append_assoc value (quote ∷ []) rest))
    ∙ split-key [] key (equals_sign ∷ quote ∷ (value ++ quote ∷ rest)) plain.0
    ∙ split-value opened value (quote ∷ rest) plain.1
    ∙ ap (λ t. split_from t false false rest) whole

label-current :
    (label : Label) → split_from (print_label label) false false [] ≡ print_label label ∷ []
unfolding split_from print_label
label-current ([], value) = refl
label-current (c ∷ key, value) = refl

-- Splitting what was printed gives the printed labels, whatever commas their values have.
pub split-print_labels :
    (labels : List Label)
    → All IsPlain labels
    → split_labels (print_labels labels) ≡ map print_label labels
unfolding split_labels print_labels split_from
split-print_labels [] h = refl
split-print_labels (label ∷ []) h =
    ap (split_from [] false false) (sym (append-nil (print_label label)))
    ∙ split-label label [] h.0
    ∙ label-current label
split-print_labels (label ∷ next ∷ rest) h =
    split-label label (comma ∷ print_labels (next ∷ rest)) h.0
    ∙ ap (λ t. print_label label ∷ t) (split-print_labels (next ∷ rest) h.1)
