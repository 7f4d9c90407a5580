-- ===== src/Tools/Rounds.antt =====
-- One round of `ExtractParametersWithContext` of internal/functions/tool_executor.go.
use chat_rag.Common.{
  if◌then◌else◌, any, All, Text, text_eq, text_eq_refl, ◌≡◌, refl, sym, ap, subst, ◌⊎◌, inl, inr,
  Bool, true, false, not, ◌&&◌, ◌||◌, Option, none, some, List, [], ◌∷◌, arith,
}
use chat_rag.Tools.{
  Value, Strconv, ParameterSource, llm, manual, unknown, GenericToolParameter, ToolError, Result,
  done, failed, panicked, validate_parameter_type, required_missing, wrong_type, extract_xml_param,
  convert_parameter_type,
}
use chat_rag.Tools.Convert.{validate_parameter_type-convert_parameter_type}
use chat_rag.Tools.Executor.{
  Params, lookup, with_default, converted, from_text, from_config, from_source, value_of,
  validate_parameters,
}

abbrev pub is_known_source : ParameterSource → Bool
is_known_source unknown = false
is_known_source _ = true

pub injected : {A : Type 0} {x y : A} → done x ≡ done y → x ≡ y
injected {A} {x} {y} e =
    ap (λ (o : Result A). elim o [ done z ↦ z | failed _ ↦ x | panicked ↦ x ]) e

module _ {F : Type 0} where
  abbrev pub is_default_typed : Text → Option (Value F) → Bool
  is_default_typed type_name none = true
  is_default_typed type_name (some d) = validate_parameter_type d type_name

  -- The default has the parameter's type, and a required parameter has a source.
  abbrev pub is_well_formed : GenericToolParameter F → Bool
  is_well_formed p =
      is_default_typed p.type_name p.default_value && (not p.required || is_known_source p.source)

  -- No two parameters share a name.
  abbrev pub are_distinct : List (GenericToolParameter F) → Bool
  are_distinct [] = true
  are_distinct (p ∷ ps) = not (any (λ q. text_eq q.name p.name) ps) && are_distinct ps

  optional :
      (required : Bool) (e : ToolError) {x next : Params F}
      → (if required then failed e else done x) ≡ done next
      → (x ≡ next) × (required ≡ false)
  optional true e h = cc
  optional false e h = (injected h, refl)

  -- What a round does to the parameters: nothing for an optional one, or it adds a valid value.
  abbrev pub Extended : GenericToolParameter F → Params F → Params F → Type 0
  Extended p acc next =
      ((v : Value F) × (next ≡ (p.name, v) ∷ acc) × (validate_parameter_type v p.type_name ≡ true))
      ⊎ ((next ≡ acc) × (p.required ≡ false))

  defaulted :
      (p : GenericToolParameter F) (acc : Params F) (d : Option (Value F)) {next : Params F}
      → is_default_typed p.type_name d ≡ true
      → p.required ≡ false
      → with_default p.name acc d ≡ next
      → Extended p acc next
  defaulted p acc none t r e = inr (sym e, r)
  defaulted p acc (some d) t r e = inl (d, sym e, t)

  configured :
      (p : GenericToolParameter F) (acc : Params F) (d : Option (Value F)) {next : Params F}
      → is_default_typed p.type_name d ≡ true
      → from_config p acc d ≡ done next
      → Extended p acc next
  configured p acc (some d) t e = inl (d, sym (injected e), t)
  configured p acc none t e = let r = optional p.required _ e in inr (sym r.0, r.1)

  read :
      (strconv : Strconv F) (p : GenericToolParameter F) (acc : Params F) (o : Option (Value F))
      (s : Text) {next : Params F}
      → convert_parameter_type strconv s p.type_name ≡ o
      → converted p acc o ≡ done next
      → Extended p acc next
  read strconv p acc none s c e = cc
  read strconv p acc (some v) s c e =
      inl (
        v,
        sym (injected e),
        validate_parameter_type-convert_parameter_type strconv s p.type_name c,
      )

  from_text-Extended :
      (strconv : Strconv F) (os_type : Text) (p : GenericToolParameter F) (acc : Params F)
      (o : Result Text) {next : Params F}
      → is_well_formed p ≡ true
      → from_text strconv os_type p acc o ≡ done next
      → Extended p acc next
  unfolding from_text value_of
  from_text-Extended strconv os_type p acc (failed e) w h =
      let r = optional p.required _ h in defaulted p acc p.default_value (ground arith) r.1 r.0
  from_text-Extended strconv os_type p acc panicked w h = cc
  from_text-Extended strconv os_type p acc (done value) w h =
      read strconv p acc (value_of strconv p os_type value) _ refl h

  pub from_source-Extended :
      (strconv : Strconv F) (tool_content os_type : Text) (p : GenericToolParameter F)
      (acc : Params F) (source : ParameterSource) {next : Params F}
      → p.source ≡ source
      → is_well_formed p ≡ true
      → from_source strconv tool_content os_type p acc source ≡ done next
      → Extended p acc next
  unfolding from_source
  from_source-Extended strconv tool_content os_type p acc llm q w h =
      from_text-Extended strconv os_type p acc (extract_xml_param tool_content p.name) w h
  from_source-Extended strconv tool_content os_type p acc manual q w h =
      configured p acc p.default_value (ground arith) h
  from_source-Extended strconv tool_content os_type p acc unknown q w h = inr (
    sym (injected h),
    unrequired p.required (is_default_typed p.type_name p.default_value) (
        subst
          (λ x.
            (is_default_typed p.type_name p.default_value && (not p.required || is_known_source x))
            ≡ true)
          q w),
  )
    where
      unrequired : (r d : Bool) → (d && (not r || false)) ≡ true → r ≡ false
      unrequired r d h = ground arith

  pub lookup-Extended :
      (name : Text) (p : GenericToolParameter F) {acc next : Params F}
      → Extended p acc next
      → text_eq p.name name ≡ false
      → lookup name next ≡ lookup name acc
  unfolding lookup
  lookup-Extended name p (inl (v, q, t)) e = rw (q, e) refl
  lookup-Extended name p (inr (q, r)) e = ap (lookup name) q

  -- What `ValidateParameters` asks of a parameter.
  abbrev pub is_met : GenericToolParameter F → Option (Value F) → Bool
  is_met p none = not p.required
  is_met p (some v) = validate_parameter_type v p.type_name

  pub met-Extended :
      (p : GenericToolParameter F) {acc next : Params F}
      → Extended p acc next
      → lookup p.name acc ≡ none
      → is_met p (lookup p.name next) ≡ true
  unfolding lookup
  met-Extended p (inl (v, q, t)) e = rw (q, text_eq_refl p.name, t) refl
  met-Extended p (inr (q, r)) e = rw (q, e, r) refl

  pub validate_parameters-met :
      (ps : List (GenericToolParameter F)) (params : Params F)
      → All (λ p. is_met p (lookup p.name params) ≡ true) ps
      → validate_parameters ps params ≡ none
  unfolding validate_parameters
  validate_parameters-met [] params h = refl
  validate_parameters-met (p ∷ ps) params h =
      one p (lookup p.name params) (validate_parameters ps params) h.0
        (validate_parameters-met ps params h.1)
    where
      one :
          (p : GenericToolParameter F) (o : Option (Value F)) (rest : Option ToolError)
          → is_met p o ≡ true
          → rest ≡ none
          → (elim o [
            | none ↦ if p.required then some (required_missing p.name) else rest
            | some v ↦
                if validate_parameter_type v p.type_name then rest else some (wrong_type p.name)
          ])
            ≡ none
      one p none rest e r = ground arith
      one p (some v) rest e r = ground arith
