-- ===== src/Observe/Observer/Writes.antt =====
-- A configuration that was made by writes at given paths, and the helpers of the observers that keep
-- to them.
use mathlib.Core.List.{Mem}
use cluster_openshift_contro.Common.{
  String, List, [], ◌∷◌, Option, none, some, Bool, true, not, ◌&&◌, ◌≡◌, arith, Bool-cases, inl,
  inr, ◌∙◌, all, all_of_mem, is_empty, not,
}
use cluster_openshift_contro.Common.Fault.{Result, ok, err}
use cluster_openshift_contro.Observe.Unstructured.{Unstructured, IsLawful}
use cluster_openshift_contro.Observe.Unstructured.Paths.{is_prefix, Incomparable}
use cluster_openshift_contro.Observe.Previous.{write_text, write_texts, keep_text, keep_texts}

abbrev pub apart : List String → List String → Bool
apart p q = not (is_prefix p q) && not (is_prefix q p)

abbrev pub all_apart : List (List String) → List String → Bool
all_apart paths q = all (λ p. apart p q) paths

apart-Incomparable : (p q : List String) → apart p q ≡ true → Incomparable p q
apart-Incomparable p q h = (ground arith, ground arith)

module _ {Json Config : Type 0} (u : Unstructured Json Config) where
  open u use {empty, of_text, of_texts, nested_string, nested_string_slice, set_nested_field}

  -- There is no text and no list at the path.
  abbrev pub Absent : Config → List String → Type 0
  Absent c q = (nested_string c q ≡ ok none) × (nested_string_slice c q ≡ ok none)

  abbrev pub WritesAt : List (List String) → Config → Type 0
  WritesAt paths c = (q : List String) → all_apart paths q ≡ true → Absent c q

  module _ (lawful : IsLawful u) {paths : List (List String)} where
    pub empty-WritesAt : {p : List String} → Mem p paths → WritesAt paths empty
    empty-WritesAt {p} m [] h = absurd (ground (arith, all_of_mem (λ p. apart p []) m h))
    empty-WritesAt m (k ∷ ks) h = (lawful.empty_text k ks, lawful.empty_texts k ks)

    module _ {p : List String} (m : Mem p paths) where
      pub set-WritesAt :
          (c : Config) (v : Json) → WritesAt paths c → WritesAt paths (set_nested_field c p v).0
      set-WritesAt c v w q h =
          let out = apart-Incomparable p q (all_of_mem (λ p. apart p q) m h) in
          (
            lawful.text_set_other c p q v out ∙ (w q h).0,
            lawful.texts_set_other c p q v out ∙ (w q h).1,
          )

      pub write_text-WritesAt :
          (c : Config) (s : String) → WritesAt paths c → WritesAt paths (write_text u c p s).0
      unfolding write_text
      write_text-WritesAt c s w = elim (Bool-cases (is_empty s)) [
        | inl on ↦ rw on w
        | inr off ↦ rw off (set-WritesAt c (of_text s) w)
      ]

      pub write_texts-WritesAt :
          (c : Config) (l : List String) → WritesAt paths c → WritesAt paths (write_texts u c p l).0
      unfolding write_texts
      write_texts-WritesAt c [] w = w
      write_texts-WritesAt c (x ∷ xs) w = set-WritesAt c (of_texts (x ∷ xs)) w

      pub keep_text-WritesAt :
          (c : Config) (r : Result (Option String))
          → WritesAt paths c
          → WritesAt paths (keep_text u c p r).0
      unfolding keep_text
      keep_text-WritesAt c (err e) w = w
      keep_text-WritesAt c (ok none) w = write_text-WritesAt c "" w
      keep_text-WritesAt c (ok (some s)) w = write_text-WritesAt c s w

      pub keep_texts-WritesAt :
          (c : Config) (r : Result (Option (List String)))
          → WritesAt paths c
          → WritesAt paths (keep_texts u c p r).0
      unfolding keep_texts
      keep_texts-WritesAt c (err e) w = w
      keep_texts-WritesAt c (ok none) w = w
      keep_texts-WritesAt c (ok (some l)) w = write_texts-WritesAt c l w
