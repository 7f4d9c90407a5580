-- ===== src/Tools/Samples.antt =====
-- The theorems on tools at a concrete tool and call. Floats are not read.
use chat_rag.Common.{
  Text, text, text_eq, has_prefix, index, contains, replace_from, replace_all, lacks, ◌≡◌, refl,
  true, none, some, [], ◌∷◌, ◌++◌,
}
use chat_rag.Types.{Identity}
use chat_rag.Tools.{
  string_value, array_value, llm, manual, GenericToolConfig, Strconv, done, panicked, split_commas,
  extract_xml_param, convert_parameter_type, validate_parameter_type, process_path_parameter,
}
use chat_rag.Tools.Executor.{
  Params, get_generic_parameters, get_os_type, execute_tools, find_tool_config,
  extract_parameters_with_context, lookup, extract_each,
}
use chat_rag.Tools.Tags.{extract_xml_param-enclosed, extract_xml_param-end_tag}
use chat_rag.Tools.Convert.{
  validate_parameter_type-convert_parameter_type, process_path_parameter-get_os_type,
}
use chat_rag.Tools.Validated.{execute_tools-extract_parameters_with_context}

abbrev strconv : Strconv Unit
strconv = record { atoi = λ _. none; parse_float = λ _. none; parse_bool = λ _. none }

extract_xml_param-enclosed_example :
    extract_xml_param (text "ok <q>a b</q>.") (text "q") ≡ done (text "a b")
unfolding replace_all replace_from has_prefix
extract_xml_param-enclosed_example =
    extract_xml_param-enclosed (text "ok ") (text "q") (text "a b") (text ".") refl refl refl

extract_xml_param-end_tag_example : extract_xml_param (text "x</q> or <q>y") (text "q") ≡ panicked
extract_xml_param-end_tag_example =
    extract_xml_param-end_tag (text "x") (text "q") (text " or ") (text "y") refl refl refl

validate_parameter_type-convert_parameter_type_example :
    validate_parameter_type {F = Unit} (array_value (text "a" ∷ text "b" ∷ [])) (text "Array")
    ≡ true
unfolding convert_parameter_type text_eq contains index has_prefix split_commas
validate_parameter_type-convert_parameter_type_example =
    validate_parameter_type-convert_parameter_type strconv (text "a,b") (text "Array") refl

abbrev linux_user : Identity
linux_user = record {
  client_id = text "c";
  client_version = text "1";
  client_os = text "linux";
  project_path = text "/src";
  auth_token = [];
  user_name = [];
  language = [];
  user_info = none;
}

process_path_parameter-get_os_type_example :
    lacks 47 (
      process_path_parameter (text "a/b") (
        get_os_type {F = Unit} (
          (text "clientId", string_value (text "c"))
          ∷ (text "codebasePath", string_value (text "/src"))
          ∷ (text "clientVersion", string_value (text "1"))
          ∷ (text "authorization", string_value [])
          ∷ [])))
    ≡ true
unfolding get_generic_parameters
process_path_parameter-get_os_type_example =
    process_path_parameter-get_os_type linux_user (text "a/b") refl

abbrev search_tool : GenericToolConfig Unit
search_tool = record {
  name = text "find";
  description = [];
  capability = [];
  rule = [];
  parameters =
      record {
        name = text "query";
        type_name = text "string";
        required = true;
        default_value = none;
        source = llm;
      }
      ∷ record {
        name = text "kind";
        type_name = text "string";
        required = true;
        default_value = some (string_value (text "all"));
        source = manual;
      }
      ∷ [];
}

abbrev caller_params : Params Unit
caller_params =
    (text "clientId", string_value (text "c"))
    ∷ (text "codebasePath", string_value (text "/src"))
    ∷ (text "clientVersion", string_value (text "1"))
    ∷ (text "authorization", string_value [])
    ∷ []

abbrev call : Text
call = text "<find><query>x</query></find>"

execute_tools-extract_parameters_with_context_example :
    execute_tools strconv (search_tool ∷ []) (some linux_user) (text "find") call
    ≡ done (
        caller_params
        ++ (text "kind", string_value (text "all")) ∷ (text "query", string_value (text "x")) ∷ [])
unfolding find_tool_config get_generic_parameters lookup text_eq extract_parameters_with_context
    validate_parameter_type extract_xml_param index extract_each replace_all convert_parameter_type
    contains
execute_tools-extract_parameters_with_context_example =
    execute_tools-extract_parameters_with_context strconv (search_tool ∷ []) linux_user
      (text "find") call search_tool refl refl (refl, (refl, tt)) refl (refl, (refl, tt)) refl
