-- ===== src/Tools/Validated.antt =====
-- The parameters of a tool from the model's text to the client: `ExtractParametersWithContext`,
-- `ValidateParameters` and `ExecuteTools` of internal/functions/tool_executor.go.
use chat_rag.Common.{
  All-mono2, any-All, All, Text, text_eq, text_eq_comm, ◌≡◌, refl, sym, ap, ◌∙◌, subst, true, false,
  none, some, List, [], ◌∷◌, ◌++◌, arith,
}
use chat_rag.Tools.{
  Strconv, GenericToolParameter, GenericToolConfig, Result, content_not_extracted, done, failed,
  panicked, extract_xml_param,
}
use chat_rag.Types.{Identity}
use chat_rag.Tools.Executor.{
  Params, lookup, extract_parameter, extract_each, extract_parameters_with_context, execute_tools,
  get_generic_parameters, get_os_type, validate_parameters, find_tool_config,
}
use chat_rag.Tools.Rounds.{
  is_well_formed, are_distinct, Extended, injected, lookup-Extended, is_met, met-Extended,
  validate_parameters-met, from_source-Extended,
}

module _ {F : Type 0} (strconv : Strconv F) (tool_content os_type : Text) where
  split :
      (p : GenericToolParameter F) (ps : List (GenericToolParameter F)) (acc : Params F)
      {out : Params F}
      → extract_each strconv tool_content os_type (p ∷ ps) acc ≡ done out
      → (next : Params F) × (extract_parameter strconv tool_content os_type p acc ≡ done next)
        × (extract_each strconv tool_content os_type ps next ≡ done out)
  unfolding extract_each
  split p ps acc {out} h = by_outcome (extract_parameter strconv tool_content os_type p acc) refl h
    where
      by_outcome :
          (o : Result (Params F))
          → extract_parameter strconv tool_content os_type p acc ≡ o
          → (elim o [
            | done next ↦ extract_each strconv tool_content os_type ps next
            | failed e ↦ failed e
            | panicked ↦ panicked
          ])
            ≡ done out
          → (next : Params F) × (extract_parameter strconv tool_content os_type p acc ≡ done next)
            × (extract_each strconv tool_content os_type ps next ≡ done out)
      by_outcome (done next) q h = (next, q, h)
      by_outcome (failed e) q h = cc
      by_outcome panicked q h = cc

  extract_parameter-Extended :
      (p : GenericToolParameter F) (acc : Params F) {next : Params F}
      → is_well_formed p ≡ true
      → extract_parameter strconv tool_content os_type p acc ≡ done next
      → Extended p acc next
  unfolding extract_parameter
  extract_parameter-Extended p acc w h =
      from_source-Extended strconv tool_content os_type p acc p.source refl w h

  -- Later parameters leave the value of a name that none of them has.
  lookup-extract_each :
      (name : Text) (ps : List (GenericToolParameter F)) (acc : Params F) {out : Params F}
      → All (λ p. is_well_formed p ≡ true) ps
      → All (λ p. text_eq p.name name ≡ false) ps
      → extract_each strconv tool_content os_type ps acc ≡ done out
      → lookup name out ≡ lookup name acc
  unfolding extract_each
  lookup-extract_each name [] acc w d h = sym (ap (lookup name) (injected h))
  lookup-extract_each name (p ∷ ps) acc w d h =
      let (next, first, rest) = split p ps acc h in
      lookup-extract_each name ps next w.1 d.1 rest
      ∙ lookup-Extended name p (extract_parameter-Extended p acc w.0 first) d.0

  met-extract_each :
      (ps : List (GenericToolParameter F)) (acc : Params F) {out : Params F}
      → All (λ p. is_well_formed p ≡ true) ps
      → are_distinct ps ≡ true
      → All (λ p. lookup p.name acc ≡ none) ps
      → extract_each strconv tool_content os_type ps acc ≡ done out
      → All (λ p. is_met p (lookup p.name out) ≡ true) ps
  met-extract_each [] acc w d a h = tt
  met-extract_each (p ∷ ps) acc {out} w d a h =
      let (next, first, rest) = split p ps acc h in
      let step = extract_parameter-Extended p acc w.0 first in
      let others : All (λ (q : GenericToolParameter F). text_eq q.name p.name ≡ false) ps =
        any-All (λ q. text_eq q.name p.name) ps (ground arith) in
      (
        subst (λ o. is_met p o ≡ true) (sym (lookup-extract_each p.name ps next w.1 others rest))
            (met-Extended p step a.0),
        met-extract_each ps next w.1 (ground arith)
            (All-mono2 (λ q. text_eq q.name p.name ≡ false) (λ q. lookup q.name acc ≡ none)
              (λ q. lookup q.name next ≡ none) ps
              (λ q e n. lookup-Extended q.name p step (text_eq_comm p.name q.name ∙ e) ∙ n) others
              a.1)
            rest,
      )

lookup-append :
    {F : Type 0} (name : Text) (ps qs : Params F)
    → lookup name ps ≡ none
    → lookup name (ps ++ qs) ≡ lookup name qs
unfolding lookup
lookup-append name [] qs h = refl
lookup-append name ((k, v) ∷ ps) qs h = ground (arith, lookup-append name ps qs)

none_yet :
    {F : Type 0} (ps : List (GenericToolParameter F))
    → All (λ p. lookup {F = F} p.name [] ≡ none) ps
unfolding lookup
none_yet [] = tt
none_yet (p ∷ ps) = (refl, none_yet ps)

module _ {F : Type 0} (strconv : Strconv F) (tools : List (GenericToolConfig F)) where
  met-extract :
      (tool_name content : Text) (tool : GenericToolConfig F) (generic_params : Params F)
      {out : Params F}
      → find_tool_config tools tool_name ≡ some tool
      → All (λ p. is_well_formed p ≡ true) tool.parameters
      → are_distinct tool.parameters ≡ true
      → extract_parameters_with_context strconv tools tool_name content generic_params ≡ done out
      → All (λ p. is_met p (lookup p.name out) ≡ true) tool.parameters
  unfolding extract_parameters_with_context
  met-extract tool_name content tool generic_params {out} found w d h =
      inside (extract_xml_param content tool.name)
        (sym (rw (extract_parameters_with_context, found) refl) ∙ h)
    where
      inside :
          (o : Result Text)
          → (elim o [
            | failed e ↦ failed (content_not_extracted e)
            | panicked ↦ panicked
            | done tool_content ↦
                extract_each strconv tool_content (get_os_type generic_params) tool.parameters []
          ])
            ≡ done out
          → All (λ p. is_met p (lookup p.name out) ≡ true) tool.parameters
      inside (failed e) q = cc
      inside panicked q = cc
      inside (done tool_content) q =
          met-extract_each strconv tool_content (get_os_type generic_params) tool.parameters [] w d
            (none_yet tool.parameters) q

  -- The parameters of a call whose extraction succeeds also pass the validation, and are given to the
  -- client with those of the caller. The tool's defaults have the declared types, its required
  -- parameters have a source, its parameters have different names, none that of a caller's.
  pub execute_tools-extract_parameters_with_context :
      (identity : Identity) (tool_name content : Text) (tool : GenericToolConfig F)
      {generic_params out : Params F}
      → find_tool_config tools tool_name ≡ some tool
      → get_generic_parameters (some identity) ≡ some generic_params
      → All (λ p. is_well_formed p ≡ true) tool.parameters
      → are_distinct tool.parameters ≡ true
      → All (λ p. lookup p.name generic_params ≡ none) tool.parameters
      → extract_parameters_with_context strconv tools tool_name content generic_params ≡ done out
      → execute_tools strconv tools (some identity) tool_name content ≡ done (generic_params ++ out)
  unfolding execute_tools
  execute_tools-extract_parameters_with_context identity tool_name content tool {generic_params}
        {out} found common w d apart h =
      let met = met-extract tool_name content tool generic_params found w d h in
      let valid : validate_parameters tool.parameters (generic_params ++ out) ≡ none =
        validate_parameters-met tool.parameters (generic_params ++ out) (
          All-mono2 (λ p. lookup p.name generic_params ≡ none)
            (λ p. is_met p (lookup p.name out) ≡ true)
            (λ p. is_met p (lookup p.name (generic_params ++ out)) ≡ true) tool.parameters
            (λ p e m.
              subst (λ o. is_met p o ≡ true) (sym (lookup-append p.name generic_params out e)) m)
            apart met) in
      rw (execute_tools, found, common, h, valid) refl
