-- ===== src/Detector/Kept.antt =====
-- What the suppression of all classes keeps.
use mathlib.Core.List.{Mem, mem-cons_self, mem-cons_of_mem, mem-append_left, mem-append_right}
use vision.Common.{
  ◌≡◌, ◌⊎◌, inl, inr, refl, ap, sym, ◌∙◌, String, Bool, true, false, not, Option, none, some, List,
  [], ◌∷◌, ◌++◌, map, length, keep, keep-All, contains, any, sorted, sorted-All, All, All-imp,
  All-append, All-both, All-keep, false≢true, any-append, any-both, sorted-All-inverse,
  keep-All-inverse, ◌&&◌, IsUnique, ◌==◌, compare_string, eq_iff, Ensures, Ensures-imp, arith,
  Bool-cases,
}
use vision.Common.Float.{Floats, Float}
use vision.Detection.{Detection}
use vision.Detector.{
  distinct, is_apart, append_some, suppress_from, of_class, is_surer, suppress_classes, text_before,
  apply_nms,
}
use vision.Detector.Loop.{IsApart, IsCovered, IsKept, suppress_from-IsKept}
use vision.Detector.Classes.{contains-sorted, sorted-IsUnique, distinct-IsUnique, contains-distinct}

module _ ⦃fl : Floats⦄ (t : Float) where
  -- Each kept detection is apart from those of its class after it.
  abbrev pub IsApartInClass : List Detection → Type 0
  IsApartInClass [] = Unit
  IsApartInClass (d ∷ ds) =
      All (λ e. (d.class_name == e.class_name ≡ false) ⊎ (is_apart t d e ≡ true)) ds
      × IsApartInClass ds

  abbrev pub overlaps : Detection → Detection → Bool
  overlaps d k = k.class_name == d.class_name && not (is_apart t k d)

  -- A detection that was kept, or that overlaps a kept one of its class.
  abbrev pub IsCoveredInClass : List Detection → Detection → Type 0
  IsCoveredInClass kept d = Mem d kept ⊎ (any (overlaps d) kept ≡ true)

  append-apart :
      (g l : List Detection)
      → IsApartInClass g
      → IsApartInClass l
      → All (λ d. All (λ e. d.class_name == e.class_name ≡ false) l) g
      → IsApartInClass (g ++ l)
  append-apart [] l hg hl apart = hl
  append-apart (d ∷ g) l hg hl apart = (
    All-append _ g l hg.0 (All-imp _ _ l (λ e h. inl h) apart.0),
    append-apart g l hg.1 hl apart.1,
  )

  apart-in_class : (g : List Detection) → IsApart t g → IsApartInClass g
  apart-in_class [] h = tt
  apart-in_class (d ∷ g) h = (All-imp _ _ g (λ e k. inr k) h.0, apart-in_class g h.1)

  covered-left :
      (g l : List Detection) (d : Detection) → IsCoveredInClass g d → IsCoveredInClass (g ++ l) d
  covered-left g l d (inl m) = inl (mem-append_left l m)
  covered-left g l d (inr h) = inr (any-append (overlaps d) g l ∙ ground (arith, h))

  covered-right :
      (g l : List Detection) (d : Detection) → IsCoveredInClass l d → IsCoveredInClass (g ++ l) d
  covered-right g l d (inl m) = inl (mem-append_right g m)
  covered-right g l d (inr h) = inr (any-append (overlaps d) g l ∙ ground (arith, h))

  covered-in_class :
      (g : List Detection) (name : String) (d : Detection)
      → All (λ k. k.class_name == name ≡ true) g
      → d.class_name == name ≡ true
      → IsCovered t g d
      → IsCoveredInClass g d
  covered-in_class g name d own same (inl m) = inl m
  covered-in_class g name d own same (inr h) = inr (
      any-both (λ k. not (is_apart t k d)) (λ k. k.class_name == d.class_name) g h
        (All-imp _ _ g
          (λ k e. ground (
            arith,
            eq_iff k.class_name name,
            eq_iff d.class_name name,
            eq_iff k.class_name d.class_name,
            e,
            same,
          ))
          own))

  record IsClassesKept (detections : List Detection) (names : List String) (kept : List Detection)
      : Type 0 where
    apart : IsApartInClass kept
    covered : All (λ d. (contains names d.class_name ≡ false) ⊎ IsCoveredInClass kept d) detections
    of_names : All (λ k. (contains names k.class_name ≡ true) × Mem k detections) kept

  abbrev IsOwn : List Detection → String → Detection → Type 0
  IsOwn detections name k = (k.class_name == name ≡ true) × Mem k detections

  differs :
      (names : List String) (name a b : String)
      → contains names name ≡ false
      → a == name ≡ true
      → contains names b ≡ true
      → a == b ≡ false
  differs names name a b fresh own his = elim (Bool-cases (a == b)) [
    | inl same ↦
        let is_name : b ≡ name = sym ((eq_iff a b).0 same) ∙ (eq_iff a name).0 own in
        absurd (false≢true (sym fresh ∙ ap (contains names) (sym is_name) ∙ his))
    | inr apart ↦ apart
  ]

  group-covered :
      (detections : List Detection) (name : String) (g : List Detection)
      → IsKept t (IsOwn detections name) (of_class detections name) g
      → All (λ d. (d.class_name == name ≡ false) ⊎ IsCoveredInClass g d) detections
  group-covered detections name g hg =
      let own =
        All-imp (IsOwn detections name) (λ k. k.class_name == name ≡ true) g (λ k h. h.0)
          hg.of_input in
      keep-All-inverse (λ d. d.class_name == name) (IsCovered t g)
        (λ d. (d.class_name == name ≡ false) ⊎ IsCoveredInClass g d) detections (λ d e. inl e)
        (λ d e h. inr (covered-in_class g name d own e h))
        (sorted-All-inverse is_surer (IsCovered t g) (keep (λ d. d.class_name == name) detections)
          hg.covered)

  either-covered :
      (name : String) (names : List String) (g l : List Detection) (d : Detection)
      → (d.class_name == name ≡ false) ⊎ IsCoveredInClass g d
      → (contains names d.class_name ≡ false) ⊎ IsCoveredInClass l d
      → (contains (name ∷ names) d.class_name ≡ false) ⊎ IsCoveredInClass (g ++ l) d
  unfolding contains
  either-covered name names g l d (inr here) later = inr (covered-left g l d here)
  either-covered name names g l d (inl out) (inr there) = inr (covered-right g l d there)
  either-covered name names g l d (inl out) (inl absent) =
      inl (ground (arith, eq_iff name d.class_name, eq_iff d.class_name name, out, absent))

  join :
      (detections : List Detection) (name : String) (names : List String) (g l : List Detection)
      → contains names name ≡ false
      → IsKept t (IsOwn detections name) (of_class detections name) g
      → IsClassesKept detections names l
      → IsClassesKept detections (name ∷ names) (g ++ l)
  unfolding contains
  join detections name names g l fresh hg hl = record {
    apart = append-apart g l (apart-in_class g hg.apart) hl.apart (
        All-imp _ _ g
          (λ d own.
            All-imp _ _ l (λ e his. differs names name d.class_name e.class_name fresh own.0 his.0)
              hl.of_names)
          hg.of_input);
    covered =
        All-imp _ _ detections (λ d h. either-covered name names g l d h.0 h.1)
          (All-both _ _ detections (group-covered detections name g hg) hl.covered);
    of_names =
        All-append _ g l
          (All-imp _ _ g
            (λ k own.
              (ground (arith, eq_iff name k.class_name, eq_iff k.class_name name, own.0), own.1))
            hg.of_input)
          (All-imp _ _ l (λ k his. (ground (arith, his.0), his.1)) hl.of_names);
  }

  append-Ensures :
      (detections : List Detection) (name : String) (names : List String)
      (o p : Option (List Detection))
      → contains names name ≡ false
      → Ensures (IsKept t (IsOwn detections name) (of_class detections name)) o
      → Ensures (IsClassesKept detections names) p
      → Ensures (IsClassesKept detections (name ∷ names)) (append_some o p)
  append-Ensures detections name names none p fresh h k = h
  append-Ensures detections name names (some g) none fresh h k = k
  append-Ensures detections name names (some g) (some l) fresh h k =
      join detections name names g l fresh h k

  of_class-IsOwn :
      (detections : List Detection) (name : String)
      → All (λ d. Mem d detections) detections
      → All (IsOwn detections name) (of_class detections name)
  of_class-IsOwn detections name self =
      sorted-All is_surer (IsOwn detections name) (keep (λ d. d.class_name == name) detections) (
        All-both _ _ (keep (λ d. d.class_name == name) detections)
          (keep-All (λ d. d.class_name == name) detections)
          (All-keep (λ d. Mem d detections) (λ d. d.class_name == name) detections self))

  classes-IsClassesKept :
      (detections : List Detection) (names : List String)
      → IsUnique names
      → All (λ d. Mem d detections) detections
      → Ensures (IsClassesKept detections names) (suppress_classes t detections names)
  unfolding suppress_classes contains
  classes-IsClassesKept detections [] u self = record {
    apart = tt;
    covered = All-imp (λ d. Mem d detections) _ detections (λ d m. inl refl) self;
    of_names = tt;
  }
  classes-IsClassesKept detections (name ∷ names) u self =
      append-Ensures detections name names
        (suppress_from (length (of_class detections name)) t (of_class detections name))
        (suppress_classes t detections names) u.0
        (suppress_from-IsKept t (IsOwn detections name) (length (of_class detections name))
          (of_class detections name) (omega arith) (of_class-IsOwn detections name self))
        (classes-IsClassesKept detections names u.1 self)

  All-Mem : (detections : List Detection) → All (λ d. Mem d detections) detections
  All-Mem [] = tt
  All-Mem (d ∷ ds) = (
    mem-cons_self,
    All-imp (λ e. Mem e ds) (λ e. Mem e (d ∷ ds)) ds (λ e m. mem-cons_of_mem d m) (All-Mem ds),
  )

  names-All :
      (detections : List Detection)
      → All (λ d. contains (map (λ e. e.class_name) detections) d.class_name ≡ true) detections
  unfolding contains
  names-All [] = tt
  names-All (d ∷ ds) = (
    ground (arith, eq_iff d.class_name d.class_name),
    All-imp _ _ ds (λ e h. ground (arith, h)) (names-All ds),
  )

  -- What the suppression answers: detections of the input, of which no two of a class overlap, and
  -- every detection of the input is among them or overlaps one of its class.
  pub record IsSuppressed (detections kept : List Detection) : Type 0 where
    pub apart : IsApartInClass kept
    pub covered : All (IsCoveredInClass kept) detections
    pub of_input : All (λ k. Mem k detections) kept

  -- The suppression ends for every list of detections. It keeps detections of the list, of which none
  -- overlaps a later one of its class by the threshold or more, and every detection of the list is
  -- kept or overlaps a kept one of its class.
  pub apply_nms-IsSuppressed :
      (detections : List Detection) → Ensures (IsSuppressed detections) (apply_nms detections t)
  unfolding apply_nms
  apply_nms-IsSuppressed detections =
      let classes = map (λ d. d.class_name) detections in
      let names = sorted text_before (distinct classes) in
      let known : All (λ d. contains names d.class_name ≡ true) detections =
        All-imp (λ d. contains classes d.class_name ≡ true)
          (λ d. contains names d.class_name ≡ true) detections
          (λ d h.
            contains-sorted text_before (distinct classes) d.class_name
            ∙ contains-distinct classes d.class_name
            ∙ h)
          (names-All detections) in
      Ensures-imp (IsClassesKept detections names) (IsSuppressed detections)
        (suppress_classes t detections names)
        (λ kept h. record {
          apart = h.apart;
          covered =
              All-imp _ (IsCoveredInClass kept) detections
                (λ d k. elim k.1 [
                  | inl absent ↦ absurd (false≢true (sym absent ∙ k.0))
                  | inr there ↦ there
                ])
                (All-both (λ d. contains names d.class_name ≡ true)
                  (λ d. (contains names d.class_name ≡ false) ⊎ IsCoveredInClass kept d) detections
                  known h.covered);
          of_input = All-imp _ _ kept (λ k own. own.1) h.of_names;
        })
        (classes-IsClassesKept detections names
          (sorted-IsUnique text_before (distinct classes) (distinct-IsUnique classes))
          (All-Mem detections))
