-- ===== src/Observe/Unstructured.antt =====
-- k8s.io/apimachinery's package `unstructured`, which is not part of this program: the operations
-- that the observers call, and what they rely on of them.
pub mod Paths
pub mod Flat
use cluster_openshift_contro.Common.{String, List, [], ◌∷◌, Option, none, some, ◌≡◌}
use cluster_openshift_contro.Common.Fault.{Fault, Result, ok}
use Paths.{Incomparable}

-- `Config` is map[string]interface{}, `Json` what a field of it can hold.
pub record Unstructured (Json Config : Type 0) : Type 0 where
  -- map[string]interface{}{}
  pub empty : Config
  pub of_text : String → Json
  pub of_texts : List String → Json
  -- NestedString, NestedStringSlice: absent, found, or of another type
  pub nested_string : Config → List String → Result (Option String)
  pub nested_string_slice : Config → List String → Result (Option (List String))
  -- SetNestedField, SetNestedStringSlice: the map as it is left, and the error
  pub set_nested_field : Config → List String → Json → Config × Option Fault

module _ {Json Config : Type 0} (u : Unstructured Json Config) where
  open u use {empty, of_text, of_texts, nested_string, nested_string_slice, set_nested_field}

  -- What is written can be read again, and writes at paths of which neither is a prefix of the
  -- other do not disturb one another.
  pub record IsLawful : Type 0 where
    pub empty_text : (k : String) (ks : List String) → nested_string empty (k ∷ ks) ≡ ok none
    pub empty_texts : (k : String) (ks : List String) → nested_string_slice empty (k ∷ ks) ≡ ok none
    pub set_empty :
        (k : String) (ks : List String) (v : Json) → (set_nested_field empty (k ∷ ks) v).1 ≡ none
    pub set_top : (c : Config) (k : String) (v : Json) → (set_nested_field c (k ∷ []) v).1 ≡ none
    pub set_again :
        (c : Config) (p : List String) (v w : Json)
        → (set_nested_field c p v).1 ≡ none
        → (set_nested_field (set_nested_field c p v).0 p w).1 ≡ none
    pub text_set :
        (c : Config) (p : List String) (s : String)
        → (set_nested_field c p (of_text s)).1 ≡ none
        → nested_string (set_nested_field c p (of_text s)).0 p ≡ ok (some s)
    pub texts_set :
        (c : Config) (p : List String) (l : List String)
        → (set_nested_field c p (of_texts l)).1 ≡ none
        → nested_string_slice (set_nested_field c p (of_texts l)).0 p ≡ ok (some l)
    pub text_set_other :
        (c : Config) (p q : List String) (v : Json)
        → Incomparable p q
        → nested_string (set_nested_field c p v).0 q ≡ nested_string c q
    pub texts_set_other :
        (c : Config) (p q : List String) (v : Json)
        → Incomparable p q
        → nested_string_slice (set_nested_field c p v).0 q ≡ nested_string_slice c q
    pub set_after :
        (c : Config) (p q : List String) (v w : Json)
        → Incomparable p q
        → (set_nested_field (set_nested_field c p v).0 q w).1 ≡ (set_nested_field c q w).1
