-- ===== src/Tools/Convert.antt =====
-- Converting and validating the type of a parameter, and path parameters
-- (internal/functions/tool_executor.go).
use chat_rag.Common.{
  if◌then◌else◌, Bool-cases, length, ℤ, Text, text, text_eq, has_prefix, index, contains,
  replace_from, replace_all, to_lower, lacks, lacks-append, ℕ, zero, suc, ◌-◌, ◌≡◌, refl, sym, ap,
  ◌∙◌, inl, inr, Bool, true, false, Option, none, some, [], ◌∷◌, arith,
}
use mathlib.Core.Option
use chat_rag.Types.{Identity}
use chat_rag.Tools.{
  Value, Strconv, convert_parameter_type, validate_parameter_type, process_path_parameter, is_int,
  is_float, is_bool, int_value, float_value, bool_value, string_value, array_value, is_string,
  is_array, split_commas,
}
use chat_rag.Tools.Executor.{Params, get_generic_parameters, get_os_type, lookup}

module _ {F : Type 0} where
  -- A test holds of the value, where there is one.
  abbrev passes : (Value F → Bool) → Option (Value F) → Bool
  passes test none = true
  passes test (some v) = test v

  passes-map :
      {A : Type 0} (f : A → Value F) (test : Value F → Bool) (o : Option A)
      → ((a : A) → test (f a) ≡ true)
      → passes test (Option.map f o) ≡ true
  passes-map f test none h = refl
  passes-map f test (some a) h = h a

  chosen :
      (s i f b a many : Bool) (value : Text) (n : Option ℤ) (x : Option F) (y : Option Bool)
      → passes
          (λ v.
            if s
            then is_string v
            else if i
            then is_int v
            else if f
            then is_float v
            else if b
            then is_bool v
            else if a
            then is_array v
            else true)
          (if s
            then some (string_value value)
            else if i
            then Option.map int_value n
            else if f
            then Option.map float_value x
            else if b
            then Option.map bool_value y
            else if a
            then some (array_value (if many then split_commas value else value ∷ []))
            else some (string_value value))
        ≡ true
  chosen true i f b a many value n x y = refl
  chosen false true f b a many value n x y = passes-map int_value is_int n (λ _. refl)
  chosen false false true b a many value n x y = passes-map float_value is_float x (λ _. refl)
  chosen false false false true a many value n x y = passes-map bool_value is_bool y (λ _. refl)
  chosen false false false false true many value n x y = refl
  chosen false false false false false many value n x y = refl

  -- A value that a text was converted to has the type that it was converted for.
  pub validate_parameter_type-convert_parameter_type :
      (strconv : Strconv F) (value param_type : Text) {v : Value F}
      → convert_parameter_type strconv value param_type ≡ some v
      → validate_parameter_type v param_type ≡ true
  unfolding convert_parameter_type validate_parameter_type
  validate_parameter_type-convert_parameter_type strconv value param_type e =
      let kind : Text = to_lower param_type in
      sym (ap (passes (λ v. validate_parameter_type v param_type)) e)
      ∙ chosen (text_eq kind (text "string")) (text_eq kind (text "integer"))
          (text_eq kind (text "float")) (text_eq kind (text "boolean"))
          (text_eq kind (text "array")) (contains value (text ",")) value (strconv.atoi value)
          (strconv.parse_float value) (strconv.parse_bool value)

tail_lacks : (b x : ℕ) (xs : Text) → lacks b (x ∷ xs) ≡ true → lacks b xs ≡ true
tail_lacks b x xs h = ground arith

lacks-replace_from :
    (b : ℕ) (skip : ℕ) (s old new : Text)
    → lacks b s ≡ true
    → lacks b new ≡ true
    → lacks b (replace_from skip s old new) ≡ true
unfolding replace_from
lacks-replace_from b skip [] old new hs hn = refl
lacks-replace_from b (suc skip) (x ∷ xs) old new hs hn =
    ground (arith, lacks-replace_from b skip xs old new)
lacks-replace_from b zero (x ∷ xs) old new hs hn = elim (Bool-cases (has_prefix (x ∷ xs) old)) [
  | inl e ↦
      rw (e, lacks-append b new (replace_from (length old - 1) xs old new), hn)
        (lacks-replace_from b (length old - 1) xs old new (tail_lacks b x xs hs) hn)
  | inr e ↦ rw e (ground (arith, lacks-replace_from b 0 xs old new))
]

-- A byte that is replaced everywhere is gone.
lacks-replaced :
    (b : ℕ) (s new : Text) → lacks b new ≡ true → lacks b (replace_from 0 s (b ∷ []) new) ≡ true
unfolding replace_from has_prefix
lacks-replaced b [] new h = refl
lacks-replaced b (x ∷ xs) new h =
    ground (arith, lacks-replaced b xs new, lacks-append b new (replace_from 0 xs (b ∷ []) new))

get_os_type-get_generic_parameters :
    {F : Type 0} (identity : Identity) {params : Params F}
    → get_generic_parameters (some identity) ≡ some params
    → get_os_type params ≡ text "windows"
unfolding get_generic_parameters get_os_type lookup text_eq
get_os_type-get_generic_parameters {F} identity e =
    sym (
      ap (λ (o : Option (Params F)). elim o [ none ↦ text "windows" | some ps ↦ get_os_type ps ]) e)

lacks-process_path_parameter :
    (path : Text) → lacks 47 (process_path_parameter path (text "windows")) ≡ true
unfolding process_path_parameter replace_all text_eq contains index has_prefix
lacks-process_path_parameter path =
    lacks-replace_from 47 0 (replace_from 0 path (47 ∷ []) (92 ∷ [])) (92 ∷ 92 ∷ []) (92 ∷ [])
      (lacks-replaced 47 path (92 ∷ []) refl) refl

-- For every caller the operating system is taken to be Windows, so that a path parameter keeps no
-- slash.
pub process_path_parameter-get_os_type :
    {F : Type 0} (identity : Identity) (path : Text) {params : Params F}
    → get_generic_parameters (some identity) ≡ some params
    → lacks 47 (process_path_parameter path (get_os_type params)) ≡ true
process_path_parameter-get_os_type identity path e =
    rw (get_os_type-get_generic_parameters identity e) (lacks-process_path_parameter path)
