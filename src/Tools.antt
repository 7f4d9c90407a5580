-- ===== src/Tools.antt =====
-- The tools that a model may call (internal/functions/tool_executor.go): finding a call in the
-- text, and reading, converting and validating its parameters. `strconv` is a parameter; a float is
-- a value of a type of its choice. The clients of the tools are not modelled.
pub mod Executor
pub mod Tags
pub mod Convert
pub mod Rounds
pub mod Validated
mod Samples
use chat_rag.Common.{
  ltb, ◌==◌, if◌then◌else◌, length, take, drop, ℤ, Text, text, text_eq, index, contains,
  replace_all, to_lower, ℕ, ◌+◌, ◌-◌, Bool, true, false, Option, none, some, List, [], ◌∷◌, ◌++◌,
  map,
}
use mathlib.Core.Option
use chat_rag.Types.{Json}

-- A Go `interface{}` that holds a parameter; `any_list` is a `[]interface{}`.
pub data Value (F : Type 0) : Type 0 where
  string_value : Text → Value F
  int_value : ℤ → Value F
  float_value : F → Value F
  bool_value : Bool → Value F
  array_value : List Text → Value F
  any_list : List Json → Value F

-- Where a parameter comes from; `unknown` is any other string.
pub data ParameterSource : Type 0 where
  llm manual unknown : ParameterSource

pub record GenericToolParameter (F : Type 0) : Type 0 where
  pub name : Text
  pub type_name : Text
  pub required : Bool
  pub default_value : Option (Value F)
  pub source : ParameterSource

pub record GenericToolConfig (F : Type 0) : Type 0 where
  pub name : Text
  pub description : Text
  pub capability : Text
  pub rule : Text
  pub parameters : List (GenericToolParameter F)

-- The functions of `strconv`, with `none` for an error.
pub record Strconv (F : Type 0) : Type 0 where
  pub atoi : Text → Option ℤ
  pub parse_float : Text → Option F
  pub parse_bool : Text → Option Bool

pub data ToolError : Type 0 where
  start_tag_missing end_tag_missing identity_missing : ToolError
  tool_not_found : Text → ToolError
  content_not_extracted : ToolError → ToolError
  required_not_found : Text → ToolError → ToolError
  default_missing : Text → ToolError
  not_converted : Text → ToolError
  required_missing : Text → ToolError
  wrong_type : Text → ToolError

-- What a function returns, or that it panics.
pub data Result (A : Type 0) : Type 0 where
  done : A → Result A
  failed : ToolError → Result A
  panicked : Result A

abbrev pub start_tag : Text → Text
start_tag name = 60 ∷ (name ++ 62 ∷ [])

abbrev pub end_tag : Text → Text
end_tag name = 60 ∷ 47 ∷ (name ++ 62 ∷ [])

-- `content[from:to]`.
abbrev pub slice : ℕ → ℕ → Text → Text
slice from to content = take (to - from) (drop from content)

unfoldable pub extract_xml_param : Text → Text → Result Text
extract_xml_param content param_name = elim (index content (start_tag param_name)) [
  | none ↦ failed start_tag_missing
  | some start ↦ elim (index content (end_tag param_name)) [
    | none ↦ failed end_tag_missing
    | some stop ↦
        let from = start + length (start_tag param_name) in
        if ltb stop from
        then panicked
        else done (replace_all (slice from stop content) (text "\\\\") (text "\\"))
  ]
]

unfoldable pub process_path_parameter : Text → Text → Text
process_path_parameter path os_type =
    let local =
      if contains (to_lower os_type) (text "windows")
      then replace_all path (text "/") (text "\\")
      else path in
    replace_all local (text "\\\\") (text "\\")

-- `strings.Split s ","`.
unfoldable pub split_commas : Text → List Text
split_commas [] = [] ∷ []
split_commas (x ∷ xs) =
    let rest = split_commas xs in
    if x == 44
    then [] ∷ rest
    else elim rest [ [] ↦ (x ∷ []) ∷ [] | part ∷ others ↦ (x ∷ part) ∷ others ]

module _ {F : Type 0} (strconv : Strconv F) where
  -- `ConvertParameterType`, with `none` for an error.
  unfoldable pub convert_parameter_type : Text → Text → Option (Value F)
  convert_parameter_type value param_type =
      let kind = to_lower param_type in
      if text_eq kind (text "string")
      then some (string_value value)
      else if text_eq kind (text "integer")
      then Option.map int_value (strconv.atoi value)
      else if text_eq kind (text "float")
      then Option.map float_value (strconv.parse_float value)
      else if text_eq kind (text "boolean")
      then Option.map bool_value (strconv.parse_bool value)
      else if text_eq kind (text "array")
      then some (array_value (if contains value (text ",") then split_commas value else value ∷ []))
      else some (string_value value)

module _ {F : Type 0} where
  abbrev pub is_string : Value F → Bool
  is_string (string_value s) = true
  is_string _ = false

  abbrev pub is_int : Value F → Bool
  is_int (int_value n) = true
  is_int _ = false

  abbrev pub is_float : Value F → Bool
  is_float (float_value x) = true
  is_float _ = false

  abbrev pub is_bool : Value F → Bool
  is_bool (bool_value b) = true
  is_bool _ = false

  abbrev pub is_array : Value F → Bool
  is_array (array_value ss) = true
  is_array _ = false

  -- `validateParameterType` returns no error.
  unfoldable pub validate_parameter_type : Value F → Text → Bool
  validate_parameter_type value param_type =
      let kind = to_lower param_type in
      if text_eq kind (text "string")
      then is_string value
      else if text_eq kind (text "integer")
      then is_int value
      else if text_eq kind (text "float")
      then is_float value
      else if text_eq kind (text "boolean")
      then is_bool value
      else if text_eq kind (text "array")
      then is_array value
      else true
