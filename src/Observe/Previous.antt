-- ===== src/Observe/Previous.antt =====
-- What the observers of images, networks and builds share: they keep the existing value for the case
-- of an error, and then write the observed one.
use cluster_openshift_contro.Common.{
  ◌∙◌, String, List, [], ◌∷◌, Option, none, some, ◌≡◌, refl, if◌then◌else◌, is_empty, value,
  Bool-cases, inl, inr,
}
use cluster_openshift_contro.Common.Fault.{Fault, Result, ok, err}
use cluster_openshift_contro.Observe.Unstructured.{Unstructured, IsLawful}
use cluster_openshift_contro.Observe.Unstructured.Paths.{Incomparable}

-- What is observed of a text, and of a list: an empty one counts as none.
abbrev pub nonempty : String → Option String
nonempty s = if is_empty s then none else some s

abbrev pub nonempty_list : List String → Option (List String)
nonempty_list [] = none
nonempty_list (x ∷ xs) = some (x ∷ xs)

abbrev pub slice : Option (List String) → List String
slice none = []
slice (some l) = l

module _ {Json Config : Type 0} (u : Unstructured Json Config) where
  open u use {empty, of_text, of_texts, nested_string, nested_string_slice, set_nested_field}

  -- if len(s) > 0 { SetNestedField(c, s, path...) }
  unfoldable pub write_text : Config → List String → String → Config × Option Fault
  write_text c path s = if is_empty s then (c, none) else set_nested_field c path (of_text s)

  unfoldable pub write_texts : Config → List String → List String → Config × Option Fault
  write_texts c path [] = (c, none)
  write_texts c path (x ∷ xs) = set_nested_field c path (of_texts (x ∷ xs))

  -- The existing value, copied to `prevObservedConfig`.
  unfoldable pub keep_text : Config → List String → Result (Option String) → Config × Option Fault
  unfolding write_text
  keep_text c path (err e) = (c, some e)
  keep_text c path (ok found) = write_text c path (value found)

  unfoldable pub keep_texts :
      Config → List String → Result (Option (List String)) → Config × Option Fault
  unfolding write_texts
  keep_texts c path (err e) = (c, some e)
  keep_texts c path (ok found) = write_texts c path (slice found)

  -- After the last write: its error leads back to the previous configuration.
  abbrev pub or_previous : Config → Config × Option Fault → Config × List Fault
  or_previous previous (c, none) = (c, [])
  or_previous previous (c, some e) = (previous, e ∷ [])

  module _ (lawful : IsLawful u) (k : String) (ks : List String) where
    pub write_text-empty :
        (s : String)
        → ((write_text empty (k ∷ ks) s).1 ≡ none)
          × (nested_string (write_text empty (k ∷ ks) s).0 (k ∷ ks) ≡ ok (nonempty s))
    unfolding write_text
    write_text-empty s = elim (Bool-cases (is_empty s)) [
      | inl absent ↦ rw absent (refl, lawful.empty_text k ks)
      | inr present ↦ rw present (
        lawful.set_empty k ks (of_text s),
        lawful.text_set empty (k ∷ ks) s (lawful.set_empty k ks (of_text s)),
      )
    ]

    pub write_texts-empty :
        (l : List String)
        → ((write_texts empty (k ∷ ks) l).1 ≡ none)
          × (nested_string_slice (write_texts empty (k ∷ ks) l).0 (k ∷ ks) ≡ ok (nonempty_list l))
    unfolding write_texts
    write_texts-empty [] = (refl, lawful.empty_texts k ks)
    write_texts-empty (x ∷ xs) = (
      lawful.set_empty k ks (of_texts (x ∷ xs)),
      lawful.texts_set empty (k ∷ ks) (x ∷ xs) (lawful.set_empty k ks (of_texts (x ∷ xs))),
    )

  -- Every text can be written at a path.
  abbrev pub Writable : Config → List String → Type 0
  Writable c p = (s : String) → (set_nested_field c p (of_text s)).1 ≡ none

  module _ (lawful : IsLawful u) (c : Config) (p : List String) (s : String) where
    pub write_text-Writable :
        (q : List String) → Incomparable p q → Writable c q → Writable (write_text c p s).0 q
    unfolding write_text
    write_text-Writable q apart writable t = elim (Bool-cases (is_empty s)) [
      | inl absent ↦ rw absent (writable t)
      | inr present ↦ rw present (lawful.set_after c p q (of_text s) (of_text t) apart ∙ writable t)
    ]

    pub write_text_other :
        (q : List String)
        → Incomparable p q
        → nested_string (write_text c p s).0 q ≡ nested_string c q
    unfolding write_text
    write_text_other q apart = elim (Bool-cases (is_empty s)) [
      | inl absent ↦ rw absent refl
      | inr present ↦ rw present (lawful.text_set_other c p q (of_text s) apart)
    ]

    pub write_text_self :
        Writable c p
        → nested_string c p ≡ ok none
        → ((write_text c p s).1 ≡ none) × (nested_string (write_text c p s).0 p ≡ ok (nonempty s))
    unfolding write_text
    write_text_self writable fresh = elim (Bool-cases (is_empty s)) [
      | inl absent ↦ rw absent (refl, fresh)
      | inr present ↦ rw present (writable s, lawful.text_set c p s (writable s))
    ]
