-- ===== src/Observe/Field.antt =====
-- pkg/operator/configobservation/util.go: `ObserveField` and `ConvertJSON`.
pub mod Outcome
pub mod Checks
use Prim.Native.Char.{Char, code}
use cluster_openshift_contro.Common.{
  String, List, [], ◌∷◌, Option, none, some, Bool, true, false, ◌&&◌, if◌then◌else◌, is_empty,
  nat_eq, Assoc,
}
use cluster_openshift_contro.Common.Fault.{Fault, Result, ok, err}
use cluster_openshift_contro.Observe.Unstructured.{Unstructured}

abbrev onto_first : String → List String → List String
onto_first s [] = s ∷ []
onto_first s (f ∷ fs) = f ∷ fs

abbrev prefix_first : Char → List String → List String
prefix_first c [] = String.◌∷◌ c "" ∷ []
prefix_first c (f ∷ fs) = String.◌∷◌ c f ∷ fs

-- strings.Split(_, ".")
unfoldable pub split_dots : String → List String
split_dots String.[] = "" ∷ []
split_dots (String.◌∷◌ c s) =
    let rest = split_dots s in if nat_eq (code c) b'.' then "" ∷ rest else prefix_first c rest

-- The types that `ObserveField` distinguishes: an int64 or a bool, a pointer to a bool, a string, a
-- []interface{}, a map[string]string, a map[string]interface{}, and any other. A value of type `V` is
-- one of any Go type.
pub data Value (Json V : Type 0) : Type 0 where
  scalar : Json → Value Json V
  bool_pointer : Option Bool → Value Json V
  text : String → Value Json V
  items : List V → Value Json V
  string_map : Assoc String → Value Json V
  fields : Assoc V → Value Json V
  other_type : V → Value Json V

-- encoding/json, and how the values stand in a map[string]interface{}: SetNestedSlice and SetNestedMap
-- copy them by DeepCopyJSONValue, which panics at a type that is not one of JSON's, here `none`.
pub record Codec (Json V : Type 0) : Type 0 where
  pub encode : V → Result String
  pub decode_slice : String → Result (List Json)
  pub decode_map : String → Result (Assoc Json)
  pub null : Json
  pub of_bool : Bool → Json
  pub of_items : List Json → Json
  pub of_string_map : Assoc String → Json
  pub of_fields : Assoc Json → Json
  pub copy_slice : List V → Option Json
  pub copy_map : Assoc V → Option Json

abbrev pub is_empty_list {ℓ} : {A : Type ℓ} → List A → Bool
is_empty_list [] = true
is_empty_list (x ∷ xs) = false

module _ {Json V : Type 0} (codec : Codec Json V) where
  abbrev pub decoded : Result (List Json) → Result (Assoc Json) → Result (Option Json)
  decoded (ok l) m = ok (some (codec.of_items l))
  decoded (err e) (ok m) = ok (some (codec.of_fields m))
  decoded (err e) (err e') = err e'

  abbrev pub decode : Result String → Result (Option Json)
  decode (err e) = err e
  decode (ok s) = decoded (codec.decode_slice s) (codec.decode_map s)

  -- `none` stands for nil.
  unfoldable pub convert_json : Option V → Result (Option Json)
  convert_json none = ok none
  convert_json (some v) = decode (codec.encode v)

  -- A write into a map, and what it leaves: `none` is a panic.
  abbrev pub Write : Type 0 → Type 0
  Write Map = Json → Option (Map × Option Fault)

  module _ {Map : Type 0} (write : Write Map) (map : Map) where
    abbrev pub unless_skipped : Bool → Option (Map × Option Fault) → Option (Map × Option Fault)
    unless_skipped skip r = if skip then some (map, none) else r

    abbrev pub write_copied : Option Json → Option (Map × Option Fault)
    write_copied none = none
    write_copied (some v) = write v

    -- The error of this write is assigned to a variable of the case alone, and is lost.
    abbrev pub lose_error : Option (Map × Option Fault) → Option (Map × Option Fault)
    lose_error none = none
    lose_error (some (m, e)) = some (m, none)

    abbrev pub observe_converted : Bool → Result (Option Json) → Option (Map × Option Fault)
    observe_converted skip (err e) = some (map, some e)
    observe_converted skip (ok none) = unless_skipped skip (lose_error (write codec.null))
    observe_converted skip (ok (some v)) = lose_error (write v)

    abbrev pub observe_typed : (String → Json) → Bool → Value Json V → Option (Map × Option Fault)
    observe_typed of_text skip (scalar v) = write v
    observe_typed of_text skip (bool_pointer none) = none
    observe_typed of_text skip (bool_pointer (some b)) = write (codec.of_bool b)
    observe_typed of_text skip (text s) = unless_skipped (skip && is_empty s) (write (of_text s))
    observe_typed of_text skip (items l) =
        unless_skipped (skip && is_empty_list l) (write_copied (codec.copy_slice l))
    observe_typed of_text skip (string_map m) =
        unless_skipped (skip && is_empty_list m) (write (codec.of_string_map m))
    observe_typed of_text skip (fields m) =
        unless_skipped (skip && is_empty_list m) (write_copied (codec.copy_map m))
    observe_typed of_text skip (other_type v) = observe_converted skip (convert_json (some v))

  module _ {Config : Type 0} (u : Unstructured Json Config) where
    open u use {of_text, set_nested_field}

    abbrev pub write_made : Config → List String → Write Config
    write_made c path v = some (set_nested_field c path v)

    -- A nil map cannot be written.
    abbrev pub write_nil : Write (Option Config)
    write_nil v = none

    -- In a map that was made: the map as it is left, and the error; `none` is a panic.
    unfoldable pub observe_field_made :
        Config → Option (Value Json V) → String → Bool → Option (Config × Option Fault)
    unfolding split_dots convert_json
    observe_field_made c none field_name skip = some (c, none)
    observe_field_made c (some v) field_name skip =
        observe_typed (write_made c (split_dots field_name)) c of_text skip v

    abbrev pub as_made : Option (Config × Option Fault) → Option (Option Config × Option Fault)
    as_made none = none
    as_made (some (c, e)) = some (some c, e)

    -- In any map, a nil one being `none`.
    unfoldable pub observe_field :
        Option Config
        → Option (Value Json V)
        → String
        → Bool
        → Option (Option Config × Option Fault)
    unfolding observe_field_made convert_json
    observe_field (some c) v field_name skip = as_made (observe_field_made c v field_name skip)
    observe_field none none field_name skip = some (none, none)
    observe_field none (some v) field_name skip = observe_typed write_nil none of_text skip v
