-- ===== src/Observe/Field/Outcome.antt =====
-- When `ObserveField` panics, and which errors of a write it reports.
use cluster_openshift_contro.Common.{
  String, List, Option, none, some, Bool, false, ◌≡◌, ◌↔◌, refl, Assoc, true, ◌&&◌, is_empty, inl,
  inr, ◌⊎◌,
}
use cluster_openshift_contro.Common.Fault.{Fault, Result, ok, err}
use cluster_openshift_contro.Observe.Unstructured.{Unstructured}
use cluster_openshift_contro.Observe.Field.{
  Value, bool_pointer, scalar, text, items, string_map, fields, other_type, Codec, convert_json,
  observe_typed, observe_field, observe_field_made, split_dots, is_empty_list, observe_converted,
  unless_skipped, write_copied, lose_error, Write, write_made, write_nil, as_made,
}

-- The error of a write that a value's case reports: all but those of converted values.
abbrev pub reported : {Json V : Type 0} → Value Json V → Option Fault → Option Fault
reported (other_type v) e = none
reported (scalar v) e = e
reported (bool_pointer b) e = e
reported (text s) e = e
reported (items l) e = e
reported (string_map m) e = e
reported (fields m) e = e

module _ {Json V Config : Type 0} (codec : Codec Json V) (u : Unstructured Json Config) where
  -- What is written of a value that is not skipped.
  pub data Written : Value Json V → Json → Type 0 where
    of_scalar : (v : Json) → Written (scalar v) v
    of_pointer : (b : Bool) → Written (bool_pointer (some b)) (codec.of_bool b)
    of_text : (s : String) → Written (text s) (u.of_text s)
    of_items : (l : List V) (j : Json) → codec.copy_slice l ≡ some j → Written (items l) j
    of_string_map : (m : Assoc String) → Written (string_map m) (codec.of_string_map m)
    of_fields : (m : Assoc V) (j : Json) → codec.copy_map m ≡ some j → Written (fields m) j
    of_other :
        (v : V) (j : Json) → convert_json codec (some v) ≡ ok (some j) → Written (other_type v) j

  -- Without skipping, what is written of a value is written at the field's path of a map that was made,
  -- and the error of the write is the result, except that it is lost for a value that is converted.
  pub observe_field_lem :
      (c : Config) (v : Value Json V) (j : Json) (field_name : String)
      → Written v j
      → observe_field codec u (some c) (some v) field_name false
        ≡ some (
          some (u.set_nested_field c (split_dots field_name) j).0,
          reported v (u.set_nested_field c (split_dots field_name) j).1,
        )
  unfolding observe_field observe_field_made
  observe_field_lem c v j field_name (of_scalar k) = refl
  observe_field_lem c v j field_name (of_pointer b) = refl
  observe_field_lem c v j field_name (of_text s) = refl
  observe_field_lem c v j field_name (of_items l k h) = rw h refl
  observe_field_lem c v j field_name (of_string_map m) = refl
  observe_field_lem c v j field_name (of_fields m k h) = rw h refl
  observe_field_lem c v j field_name (of_other w k h) = rw h refl

  -- A value is written: it is not skipped, and what is to be written can be had.
  pub data IsWritten (skip : Bool) : Value Json V → Type 0 where
    scalar_written : (v : Json) → IsWritten skip (scalar v)
    pointer_written : (b : Bool) → IsWritten skip (bool_pointer (some b))
    text_written : (s : String) → (skip && is_empty s) ≡ false → IsWritten skip (text s)
    items_written :
        (l : List V) (j : Json)
        → (skip && is_empty_list l) ≡ false
        → codec.copy_slice l ≡ some j
        → IsWritten skip (items l)
    string_map_written :
        (m : Assoc String) → (skip && is_empty_list m) ≡ false → IsWritten skip (string_map m)
    fields_written :
        (m : Assoc V) (j : Json)
        → (skip && is_empty_list m) ≡ false
        → codec.copy_map m ≡ some j
        → IsWritten skip (fields m)
    nothing_written :
        (v : V)
        → skip ≡ false
        → convert_json codec (some v) ≡ ok none
        → IsWritten skip (other_type v)
    other_written :
        (v : V) (j : Json)
        → convert_json codec (some v) ≡ ok (some j)
        → IsWritten skip (other_type v)

  -- Why the function panics: a nil pointer, an element that is not of a type of JSON, or a write into a
  -- nil map.
  pub data Panics (c : Option Config) (skip : Bool) : Value Json V → Type 0 where
    nil_pointer : Panics c skip (bool_pointer none)
    items_not_json :
        (l : List V)
        → (skip && is_empty_list l) ≡ false
        → codec.copy_slice l ≡ none
        → Panics c skip (items l)
    fields_not_json :
        (m : Assoc V)
        → (skip && is_empty_list m) ≡ false
        → codec.copy_map m ≡ none
        → Panics c skip (fields m)
    nil_map : (v : Value Json V) → c ≡ none → IsWritten skip v → Panics c skip v

  made-Panics :
      (c : Config) (v : Value Json V) (field_name : String) (skip : Bool)
      → Panics (some c) skip v
      → observe_field_made codec u c (some v) field_name skip ≡ none
  unfolding observe_field_made
  made-Panics c v field_name skip nil_pointer = refl
  made-Panics c v field_name skip (items_not_json l h k) = rw (h, k) refl
  made-Panics c v field_name skip (fields_not_json m h k) = rw (h, k) refl
  made-Panics c v field_name skip (nil_map w h k) = absurd (cc)

  nil-Panics :
      (v : Value Json V) (field_name : String) (skip : Bool)
      → Panics none skip v
      → observe_field codec u none (some v) field_name skip ≡ none
  unfolding observe_field
  nil-Panics v field_name skip nil_pointer = refl
  nil-Panics v field_name skip (items_not_json l h k) = rw (h, k) refl
  nil-Panics v field_name skip (fields_not_json m h k) = rw (h, k) refl
  nil-Panics v field_name skip (nil_map w h (scalar_written j)) = refl
  nil-Panics v field_name skip (nil_map w h (pointer_written b)) = refl
  nil-Panics v field_name skip (nil_map w h (text_written s k)) = rw k refl
  nil-Panics v field_name skip (nil_map w h (items_written l j k copied)) = rw (k, copied) refl
  nil-Panics v field_name skip (nil_map w h (string_map_written m k)) = rw k refl
  nil-Panics v field_name skip (nil_map w h (fields_written m j k copied)) = rw (k, copied) refl
  nil-Panics v field_name skip (nil_map w h (nothing_written x k converted)) =
      rw (converted, k) refl
  nil-Panics v field_name skip (nil_map w h (other_written x j converted)) = rw converted refl

  lose_error-none :
      {Map : Type 0} (write : Write codec Map) (map : Map) (r : Option (Map × Option Fault))
      → lose_error codec write map r ≡ none
      → r ≡ none
  lose_error-none write map none h = refl
  lose_error-none write map (some (m, e)) h = absurd (cc)

  -- A write that is not skipped panics by what is copied or by the write.
  copied_cases :
      {Map : Type 0} (write : Write codec Map) (map : Map) (skip : Bool) (copy : Option Json)
      → unless_skipped codec write map skip (write_copied codec write map copy) ≡ none
      → (skip ≡ false) × ((copy ≡ none) ⊎ ((j : Json) × (copy ≡ some j) × (write j ≡ none)))
  copied_cases write map true copy h = absurd (cc)
  copied_cases write map false none h = (refl, inl refl)
  copied_cases write map false (some j) h = (refl, inr (j, refl, h))

  written_cases :
      {Map : Type 0} (write : Write codec Map) (map : Map) (skip : Bool) (j : Json)
      → unless_skipped codec write map skip (write j) ≡ none
      → (skip ≡ false) × (write j ≡ none)
  written_cases write map true j h = absurd (cc)
  written_cases write map false j h = (refl, h)

  module _ {Map : Type 0} (write : Write codec Map) (map : Map) (c : Option Config)
      (nil_only : (j : Json) → write j ≡ none → c ≡ none) where
    converted-none :
        (skip : Bool) (v : V) (r : Result (Option Json))
        → convert_json codec (some v) ≡ r
        → observe_converted codec write map skip r ≡ none
        → Panics c skip (other_type v)
    converted-none skip v (err e) k h = absurd (cc)
    converted-none true v (ok none) k h = absurd (cc)
    converted-none false v (ok none) k h =
        nil_map (other_type v) (nil_only codec.null (lose_error-none write map _ h))
          (nothing_written v refl k)
    converted-none skip v (ok (some j)) k h =
        nil_map (other_type v) (nil_only j (lose_error-none write map _ h)) (other_written v j k)

    typed-none :
        (skip : Bool) (v : Value Json V)
        → observe_typed codec write map u.of_text skip v ≡ none
        → Panics c skip v
    typed-none skip (scalar j) h = nil_map (scalar j) (nil_only j h) (scalar_written j)
    typed-none skip (bool_pointer none) h = nil_pointer
    typed-none skip (bool_pointer (some b)) h =
        nil_map (bool_pointer (some b)) (nil_only (codec.of_bool b) h) (pointer_written b)
    typed-none skip (text s) h =
        let (kept, failed) = written_cases write map (skip && is_empty s) (u.of_text s) h in
        nil_map (text s) (nil_only (u.of_text s) failed) (text_written s kept)
    typed-none skip (items l) h =
        let (kept, failed) =
          copied_cases write map (skip && is_empty_list l) (codec.copy_slice l) h in
        elim failed [
          | inl bad ↦ items_not_json l kept bad
          | inr (j, copied, unwritten) ↦
              nil_map (items l) (nil_only j unwritten) (items_written l j kept copied)
        ]
    typed-none skip (string_map m) h =
        let (kept, failed) =
          written_cases write map (skip && is_empty_list m) (codec.of_string_map m) h in
        nil_map (string_map m) (nil_only (codec.of_string_map m) failed) (string_map_written m kept)
    typed-none skip (fields m) h =
        let (kept, failed) =
          copied_cases write map (skip && is_empty_list m) (codec.copy_map m) h in
        elim failed [
          | inl bad ↦ fields_not_json m kept bad
          | inr (j, copied, unwritten) ↦
              nil_map (fields m) (nil_only j unwritten) (fields_written m j kept copied)
        ]
    typed-none skip (other_type v) h = converted-none skip v (convert_json codec (some v)) refl h

  as_made-none : (r : Option (Config × Option Fault)) → (as_made codec u r ≡ none) ↔ (r ≡ none)
  as_made-none none = (λ h. refl, λ h. refl)
  as_made-none (some (c, e)) = (λ h. absurd (cc), λ h. absurd (cc))

  pub observe_field-none :
      (c : Option Config) (v : Value Json V) (field_name : String) (skip : Bool)
      → (observe_field codec u c (some v) field_name skip ≡ none) ↔ Panics c skip v
  unfolding observe_field observe_field_made
  observe_field-none none v field_name skip = (
    λ h. typed-none (write_nil codec u) none none (λ j _. refl) skip v h,
    λ p. nil-Panics v field_name skip p,
  )
  observe_field-none (some c) v field_name skip = (
    λ h.
        typed-none (write_made codec u c (split_dots field_name)) c (some c)
          (λ j failed. absurd (cc)) skip v
          ((as_made-none (observe_field_made codec u c (some v) field_name skip)).0 h),
    λ p.
        (as_made-none (observe_field_made codec u c (some v) field_name skip)).1
          (made-Panics c v field_name skip p),
  )
