-- ===== src/Observe/Unstructured/Flat.antt =====
-- A concrete configuration, one entry for each path that was written: it meets the laws, and the
-- tests run on it.
use package.text.Mathlib.TextPositions.{eq_refl}
use cluster_openshift_contro.Common.{
  String, List, [], ◌∷◌, Option, none, some, ◌≡◌, refl, arith, Bool, true, false, ◌==◌, ◌&&◌,
  if◌then◌else◌,
}
use cluster_openshift_contro.Common.Fault.{Result, ok, err, errorf}
use cluster_openshift_contro.Observe.Unstructured.{Unstructured, IsLawful}
use cluster_openshift_contro.Observe.Unstructured.Paths.{is_prefix}

pub data Entry : Type 0 where
  text : String → Entry
  texts : List String → Entry
  flag : Bool → Entry

abbrev pub FlatConfig : Type 0
FlatConfig = List (List String × Entry)

abbrev pub same_path : List String → List String → Bool
same_path [] [] = true
same_path [] (j ∷ js) = false
same_path (k ∷ ks) [] = false
same_path (k ∷ ks) (j ∷ js) = k == j && same_path ks js

abbrev pub find : FlatConfig → List String → Option Entry
find [] q = none
find ((p, v) ∷ c) q = let rest = find c q in if same_path p q then some v else rest

abbrev as_text : Option Entry → Result (Option String)
as_text none = ok none
as_text (some (text s)) = ok (some s)
as_text (some _) = err (errorf "accessor error: expected string")

abbrev as_texts : Option Entry → Result (Option (List String))
as_texts none = ok none
as_texts (some (texts l)) = ok (some l)
as_texts (some _) = err (errorf "accessor error: expected []interface{}")

abbrev pub flat : Unstructured Entry FlatConfig
flat = record {
  empty = [];
  of_text = text;
  of_texts = texts;
  nested_string = λ c p. as_text (find c p);
  nested_string_slice = λ c p. as_texts (find c p);
  set_nested_field = λ c p v. ((p, v) ∷ c, none);
}

same_path_refl : (p : List String) → same_path p p ≡ true
same_path_refl [] = refl
same_path_refl (k ∷ ks) = ground (arith, eq_refl k, same_path_refl ks)

same_path_incomparable : (p q : List String) → is_prefix p q ≡ false → same_path p q ≡ false
same_path_incomparable [] q h = absurd (ground arith)
same_path_incomparable (k ∷ ks) [] h = refl
same_path_incomparable (k ∷ ks) (j ∷ js) h = ground (arith, same_path_incomparable ks js)

pub flat-IsLawful : IsLawful flat
flat-IsLawful = record {
  empty_text = λ k ks. refl;
  empty_texts = λ k ks. refl;
  set_empty = λ k ks v. refl;
  set_top = λ c k v. refl;
  set_again = λ c p v w h. refl;
  text_set = λ c p s h. rw (same_path_refl p) refl;
  texts_set = λ c p l h. rw (same_path_refl p) refl;
  text_set_other = λ c p q v h. rw (same_path_incomparable p q h.0) refl;
  texts_set_other = λ c p q v h. rw (same_path_incomparable p q h.0) refl;
  set_after = λ c p q v w h. refl;
}
