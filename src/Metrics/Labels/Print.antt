-- ===== src/Metrics/Labels/Print.antt =====
-- Parsing labels that were printed gives them back.
use vision.Common.{
  ℕ, ◌≡◌, refl, ap, ap₂, ◌∙◌, Bool, true, false, some, List, [], ◌∷◌, ◌++◌, map, All, All-imp, Dict,
  insert, if◌then◌else◌, compare_nat, arith,
}
use vision.Metrics.Labels.{
  Text, quote, equals_sign, is_space, is_quote, is_nil, strip_left, strip_right, strip, partition,
  split_labels, add_label, parse_parts, parse_labels, compare_text,
}
use vision.Metrics.Labels.Split.{
  Label, is_plain, is_unescaped, print_label, print_labels, IsPlain, split-print_labels,
}

strip_left-none :
    (p : ℕ → Bool) (text : Text) → All (λ c. p c ≡ false) text → strip_left p text ≡ text
unfolding strip_left
strip_left-none p [] h = refl
strip_left-none p (c ∷ cs) h = ground (arith, h)

strip_right-none :
    (p : ℕ → Bool) (text : Text) → All (λ c. p c ≡ false) text → strip_right p text ≡ text
unfolding strip_right
strip_right-none p [] h = refl
strip_right-none p (c ∷ cs) h = ground (arith, h.0, strip_right-none p cs h.1)

-- A text whose last character stays.
strip_right-last :
    (p : ℕ → Bool) (text : Text) (last : ℕ)
    → p last ≡ false
    → strip_right p (text ++ last ∷ []) ≡ text ++ last ∷ []
unfolding strip_right
strip_right-last p [] last h = ground (arith, h)
strip_right-last p (c ∷ []) last h = ground (arith, h)
strip_right-last p (c ∷ d ∷ cs) last h = ground (arith, strip_right-last p (d ∷ cs) last h)

-- A text whose last character goes, and no other.
strip_right-snoc :
    (p : ℕ → Bool) (text : Text) (last : ℕ)
    → p last ≡ true
    → All (λ c. p c ≡ false) text
    → strip_right p (text ++ last ∷ []) ≡ text
unfolding strip_right
strip_right-snoc p [] last h others = ground (arith, h)
strip_right-snoc p (c ∷ cs) last h others =
    ground (arith, others.0, strip_right-snoc p cs last h others.1)

strip-key : (key : Text) → All (λ c. is_plain c ≡ true) key → strip is_space key ≡ key
unfolding strip is_plain
strip-key key h =
    let spaceless =
      All-imp (λ c. is_plain c ≡ true) (λ c. is_space c ≡ false) key (λ c e. ground (arith, e)) h in
    ap (strip_right is_space) (strip_left-none is_space key spaceless)
    ∙ strip_right-none is_space key spaceless

strip-spaces :
    (value : Text) → strip is_space (quote ∷ (value ++ quote ∷ [])) ≡ quote ∷ (value ++ quote ∷ [])
unfolding strip strip_left is_space
strip-spaces value = strip_right-last is_space (quote ∷ value) quote refl

strip-quotes :
    (value : Text)
    → All (λ c. is_quote c ≡ false) value
    → strip is_quote (quote ∷ (value ++ quote ∷ [])) ≡ value
unfolding strip strip_left strip_right
strip-quotes [] h = refl
strip-quotes (c ∷ cs) h =
    let opened : strip_left is_quote (quote ∷ (c ∷ cs ++ quote ∷ [])) ≡ c ∷ cs ++ quote ∷ [] =
      ground (arith, h.0) in
    ap (strip_right is_quote) opened ∙ strip_right-snoc is_quote (c ∷ cs) quote refl h

strip-value :
    (value : Text)
    → All (λ c. is_unescaped c ≡ true) value
    → strip is_quote (strip is_space (quote ∷ (value ++ quote ∷ []))) ≡ value
unfolding is_unescaped
strip-value value h =
    ap (strip is_quote) (strip-spaces value)
    ∙ strip-quotes value (
        All-imp (λ c. is_unescaped c ≡ true) (λ c. is_quote c ≡ false) value
          (λ c e. ground (arith, e)) h)

partition-key :
    (key value : Text)
    → All (λ c. is_plain c ≡ true) key
    → partition (key ++ equals_sign ∷ value) ≡ some (key, value)
unfolding partition is_plain
partition-key [] value h = refl
partition-key (c ∷ key) value h = ground (arith, partition-key key value h.1)

-- `dict` of the labels: the last value of a key counts.
abbrev pub dict_of : Dict Text Text → List Label → Dict Text Text
dict_of d [] = d
dict_of d ((key, value) ∷ labels) = dict_of (insert key value d) labels

parse_parts-print :
    (d : Dict Text Text) (labels : List Label)
    → All IsPlain labels
    → parse_parts d (map print_label labels) ≡ dict_of d labels
unfolding parse_parts print_label
parse_parts-print d [] h = refl
parse_parts-print d ((key, value) ∷ labels) h =
    ap (λ o. parse_parts (add_label d o) (map print_label labels))
      (partition-key key (quote ∷ (value ++ quote ∷ [])) h.0.0)
    ∙ ap₂ (λ k v. parse_parts (insert k v d) (map print_label labels)) (strip-key key h.0.0)
        (strip-value value h.0.1)
    ∙ parse_parts-print (insert key value d) labels h.1

-- Labels in the text format are parsed as they were: keys without quotes, backslashes, commas, equals
-- signs and spaces, and values without quotes and backslashes; commas, equals signs and spaces in
-- values do no harm.
pub parse-print_labels :
    (labels : List Label)
    → All IsPlain labels
    → parse_labels (print_labels labels) ≡ dict_of [] labels
unfolding parse_labels
parse-print_labels labels h =
    let parts = split-print_labels labels h in
    let parsed = ap (parse_parts []) parts ∙ parse_parts-print [] labels h in
    step (print_labels labels) parsed
  where
    step :
        (raw : Text)
        → parse_parts [] (split_labels raw) ≡ dict_of [] labels
        → (if is_nil raw then [] else parse_parts [] (split_labels raw)) ≡ dict_of [] labels
    step [] e = e
    step (c ∷ cs) e = e
