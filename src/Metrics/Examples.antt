-- ===== src/Metrics/Examples.antt =====
-- The theorem of the labels at a concrete input.
use vision.Common.{◌≡◌, refl, List, [], ◌∷◌}
use vision.Metrics.Labels.{parse_labels, is_space}
use vision.Metrics.Labels.Split.{Label, is_plain, is_unescaped, print_labels}
use vision.Metrics.Labels.Print.{dict_of, parse-print_labels}

-- `id="7,8"` and `le="1"`
abbrev two_labels : List Label
two_labels = (105 ∷ 100 ∷ [], 55 ∷ 44 ∷ 56 ∷ []) ∷ (108 ∷ 101 ∷ [], 49 ∷ []) ∷ []

parse-print_labels_example : parse_labels (print_labels two_labels) ≡ dict_of [] two_labels
unfolding is_plain is_unescaped is_space
parse-print_labels_example =
    parse-print_labels two_labels
      (((refl, (refl, tt)), (refl, (refl, (refl, tt)))), (((refl, (refl, tt)), (refl, tt)), tt))
