-- ===== src/Tools/Executor.antt =====
-- `GenericToolExecutor` and the loops of `GenericParameterParser` in
-- internal/functions/tool_executor.go. A Go map is an association list, where the first entry of a
-- key counts.
use chat_rag.Common.{
  if◌then◌else◌, Text, text, text_eq, contains, to_lower, Option, none, some, List, [], ◌∷◌, ◌++◌,
  map,
}
use chat_rag.Types.{Identity}
use chat_rag.Tools.{
  Value, string_value, ParameterSource, llm, manual, unknown, GenericToolParameter,
  GenericToolConfig, Strconv, ToolError, tool_not_found, content_not_extracted, identity_missing,
  required_not_found, default_missing, not_converted, required_missing, wrong_type, Result, done,
  failed, panicked, extract_xml_param, process_path_parameter, convert_parameter_type,
  validate_parameter_type,
}

abbrev pub Params : Type 0 → Type 0
Params F = List (Text × Value F)

module _ {F : Type 0} where
  unfoldable pub lookup : Text → Params F → Option (Value F)
  lookup key [] = none
  lookup key ((k, v) ∷ ps) = let rest = lookup key ps in if text_eq k key then some v else rest

  -- `DetectTools`, with `none` for no tool.
  unfoldable pub detect_tools : List (GenericToolConfig F) → Text → Option Text
  detect_tools [] content = none
  detect_tools (t ∷ ts) content =
      let rest = detect_tools ts content in
      if contains content (text "<" ++ (t.name ++ text ">")) then some t.name else rest

  unfoldable pub find_tool_config : List (GenericToolConfig F) → Text → Option (GenericToolConfig F)
  find_tool_config [] tool_name = none
  find_tool_config (t ∷ ts) tool_name =
      let rest = find_tool_config ts tool_name in if text_eq t.name tool_name then some t else rest

  pub get_all_tools : List (GenericToolConfig F) → List Text
  get_all_tools ts = map (λ t. t.name) ts

  pub get_tool_description : List (GenericToolConfig F) → Text → Result Text
  get_tool_description ts tool_name = elim (find_tool_config ts tool_name) [
    | none ↦ failed (tool_not_found tool_name)
    | some t ↦ done (text "## " ++ (tool_name ++ (10 ∷ t.description)))
  ]

  pub get_tool_capability : List (GenericToolConfig F) → Text → Result Text
  get_tool_capability ts tool_name = elim (find_tool_config ts tool_name) [
    | none ↦ failed (tool_not_found tool_name)
    | some t ↦ done t.capability
  ]

  pub get_tool_rule : List (GenericToolConfig F) → Text → Result Text
  get_tool_rule ts tool_name = elim (find_tool_config ts tool_name) [
    | none ↦ failed (tool_not_found tool_name)
    | some t ↦ done t.rule
  ]

  unfoldable pub get_generic_parameters : Option Identity → Option (Params F)
  get_generic_parameters none = none
  get_generic_parameters (some i) = some (
      (text "clientId", string_value i.client_id)
      ∷ (text "codebasePath", string_value i.project_path)
      ∷ (text "clientVersion", string_value i.client_version)
      ∷ (text "authorization", string_value i.auth_token)
      ∷ [])

  abbrev text_or : Text → Option (Value F) → Text
  text_or other (some (string_value s)) = s
  text_or other _ = other

  unfoldable pub get_os_type : Params F → Text
  unfolding lookup
  get_os_type context_params = text_or (text "windows") (lookup (text "osType") context_params)

  -- `params[key] = param.Default` where there is a default.
  abbrev pub with_default : Text → Params F → Option (Value F) → Params F
  with_default key acc none = acc
  with_default key acc (some d) = (key, d) ∷ acc

  abbrev pub converted : GenericToolParameter F → Params F → Option (Value F) → Result (Params F)
  converted p acc none = failed (not_converted p.name)
  converted p acc (some v) = done ((p.name, v) ∷ acc)

  abbrev pub from_config : GenericToolParameter F → Params F → Option (Value F) → Result (Params F)
  from_config p acc (some d) = done ((p.name, d) ∷ acc)
  from_config p acc none = if p.required then failed (default_missing p.name) else done acc

  -- The loop of `ValidateParameters`.
  unfoldable pub validate_parameters : List (GenericToolParameter F) → Params F → Option ToolError
  unfolding lookup
  validate_parameters [] params = none
  validate_parameters (p ∷ ps) params =
      let rest = validate_parameters ps params in
      elim (lookup p.name params) [
        | none ↦ if p.required then some (required_missing p.name) else rest
        | some v ↦ if validate_parameter_type v p.type_name then rest else some (wrong_type p.name)
      ]

module _ {F : Type 0} (strconv : Strconv F) where
  -- The value that a parameter taken from the model's text gets.
  unfoldable pub value_of : GenericToolParameter F → Text → Text → Option (Value F)
  value_of p os_type value =
      convert_parameter_type strconv
        (if contains (to_lower p.name) (text "path")
          then process_path_parameter value os_type
          else value)
        p.type_name

  -- The parameter, given what was found between its tags.
  unfoldable pub from_text :
      Text → GenericToolParameter F → Params F → Result Text → Result (Params F)
  unfolding value_of
  from_text os_type p acc (failed e) =
      if p.required
      then failed (required_not_found p.name e)
      else done (with_default p.name acc p.default_value)
  from_text os_type p acc panicked = panicked
  from_text os_type p acc (done value) = converted p acc (value_of p os_type value)

  unfoldable pub from_source :
      Text → Text → GenericToolParameter F → Params F → ParameterSource → Result (Params F)
  unfolding from_text
  from_source tool_content os_type p acc llm =
      from_text os_type p acc (extract_xml_param tool_content p.name)
  from_source tool_content os_type p acc manual = from_config p acc p.default_value
  from_source tool_content os_type p acc unknown = done acc

  -- One round of the loop of `ExtractParametersWithContext`.
  unfoldable pub extract_parameter :
      Text → Text → GenericToolParameter F → Params F → Result (Params F)
  unfolding from_source
  extract_parameter tool_content os_type p acc = from_source tool_content os_type p acc p.source

  unfoldable pub extract_each :
      Text → Text → List (GenericToolParameter F) → Params F → Result (Params F)
  unfolding extract_parameter
  extract_each tool_content os_type [] acc = done acc
  extract_each tool_content os_type (p ∷ ps) acc =
      elim (extract_parameter tool_content os_type p acc) [
        | done next ↦ extract_each tool_content os_type ps next
        | failed e ↦ failed e
        | panicked ↦ panicked
      ]

  unfoldable pub extract_parameters_with_context :
      List (GenericToolConfig F) → Text → Text → Params F → Result (Params F)
  extract_parameters_with_context tools tool_name content generic_params =
      elim (find_tool_config tools tool_name) [
        | none ↦ failed (tool_not_found tool_name)
        | some tool ↦ elim (extract_xml_param content tool.name) [
          | failed e ↦ failed (content_not_extracted e)
          | panicked ↦ panicked
          | done tool_content ↦
              extract_each tool_content (get_os_type generic_params) tool.parameters []
        ]
      ]

  -- `ExecuteTools` up to the call of the client: the parameters that the client is given.
  unfoldable pub execute_tools :
      List (GenericToolConfig F) → Option Identity → Text → Text → Result (Params F)
  execute_tools tools identity tool_name content = elim (find_tool_config tools tool_name) [
    | none ↦ failed (tool_not_found tool_name)
    | some tool ↦ elim (get_generic_parameters identity) [
      | none ↦ failed identity_missing
      | some generic_params ↦
          elim (extract_parameters_with_context tools tool_name content generic_params) [
            | failed e ↦ failed e
            | panicked ↦ panicked
            | done tool_params ↦
                let all_params = generic_params ++ tool_params in
                elim (validate_parameters tool.parameters all_params) [
                  | some e ↦ failed e
                  | none ↦ done all_params
                ]
          ]
    ]
  ]
