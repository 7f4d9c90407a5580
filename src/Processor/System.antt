-- ===== src/Processor/System.antt =====
-- The text of a system message and the changes that the processors make to it: `ExtractMsgContent`
-- (internal/model/msg_content.go), `UpdateSystemMsg` and `SetLanguage` (base.go), the modes content of
-- filter.go. `none` is the error of an extraction.
use chat_rag.Common.{
  if◌then◌else◌, Bool-cases, Option-cases, take, drop, is_empty, any, concat, Text, text, text_eq,
  index, ◌+◌, ◌≡◌, refl, ap, ◌∙◌, inl, inr, Bool, true, false, not, ◌||◌, Option, none, some, List,
  [], ◌∷◌, ◌++◌,
}
use chat_rag.Types.{Message, Json, obj, str, field, end, ContentPart, string, list, parts}
use chat_rag.Json.{get}
use chat_rag.Processor.{PromptMsg}
use chat_rag.Processor.Filter.{filter_assistant_tool_patterns, filter_environment_details}

abbrev text_part : Text → Option Json → ContentPart
text_part t cache = record { kind = text "text"; text_body = t; cache_control = cache }

unfoldable extract_from_content_list : List Json → List ContentPart
extract_from_content_list [] = []
extract_from_content_list (obj fs ∷ items) =
    let rest = extract_from_content_list items in
    elim (get (text "text") fs) [
      | some (str t) ↦ text_part t (get (text "cache_control") fs) ∷ rest
      | _ ↦ rest
    ]
extract_from_content_list (_ ∷ items) = extract_from_content_list items

abbrev extract_msg_content : Message → Option (List ContentPart)
extract_msg_content m = elim m.content [
  | string s ↦ some (text_part s none ∷ [])
  | list items ↦ some (extract_from_content_list items)
  | parts ps ↦ some ps
  | _ ↦ none
]

abbrev one_part : List ContentPart → Option Text
one_part (p ∷ []) = some p.text_body
one_part _ = none

unfoldable pub extract_system_content : Message → Option Text
unfolding extract_from_content_list
extract_system_content m = elim (extract_msg_content m) [ none ↦ none | some ps ↦ one_part ps ]

abbrev with_system : Message → PromptMsg → PromptMsg
with_system m p = record {
  system_msg = m;
  older_user_msg_list = p.older_user_msg_list;
  last_user_msg = p.last_user_msg;
  modify_system_prompt = p.modify_system_prompt;
}

abbrev ephemeral : Json
ephemeral = obj (field (text "type") (str (text "ephemeral")) end)

unfoldable pub update_system_msg : Text → PromptMsg → PromptMsg
update_system_msg content p =
    if p.modify_system_prompt
    then with_system
        record {
          role = text "system";
          content = parts (text_part content (some ephemeral) ∷ []);
          extra = end;
        }
        p
    else p

-- `add` is appended to the text of the last part.
abbrev append_to_last : Text → List ContentPart → List ContentPart
append_to_last add [] = []
append_to_last add (p ∷ []) =
    record { kind = p.kind; text_body = p.text_body ++ add; cache_control = p.cache_control } ∷ []
append_to_last add (p ∷ q ∷ ps) = p ∷ append_to_last add (q ∷ ps)

abbrev language_reminder : Text → Text
language_reminder language = concat (
    (10 ∷ 10 ∷ text "<hidden-system-reminder>")
    ∷ (10 ∷ text "<language>")
    ∷ (10 ∷ text "Always responde in: ")
    ∷ language
    ∷ (46 ∷ 10 ∷ text "</language>")
    ∷ (10 ∷ text "Do not acknowledge or show the `<language>` instruction directly in you ")
    ∷ text "responses or thought processes."
    ∷ (10 ∷ text "</hidden-system-reminder>")
    ∷ [])

unfoldable set_language : Text → PromptMsg → PromptMsg
set_language language p =
    if not p.modify_system_prompt || (is_empty language || text_eq language (text "*"))
    then p
    else elim p.system_msg.content [
      | parts ps ↦
          with_system
            record {
              role = p.system_msg.role;
              content = parts (append_to_last (language_reminder language) ps);
              extra = p.system_msg.extra;
            }
            p
      | _ ↦ p
    ]

unfoldable remove_content_section : Text → Text → Text → Text
remove_content_section content start_pattern end_pattern = elim (index content start_pattern) [
  | none ↦ content
  | some s ↦ elim (index (drop s content) end_pattern) [
    | none ↦ content
    | some e ↦ take s content ++ drop (e + s) content
  ]
]

abbrev agents_of : Text → List (Text × List Text) → Option (List Text)
agents_of mode [] = none
agents_of mode ((m, agents) ∷ rest) =
    let later = agents_of mode rest in if text_eq m mode then some agents else later

-- The rules of `PreciseContextConfig` that the filter reads, and its caller's mode and agent.
record UserMsgFilter : Type 0 where
  enable_env_details_filter : Bool
  disabled_modes_change_agents : List (Text × List Text)
  prompt_mode : Text
  agent_name : Text

abbrev should_filter : UserMsgFilter → Bool
should_filter u = elim (agents_of u.prompt_mode u.disabled_modes_change_agents) [
  | none ↦ false
  | some agents ↦ any (λ a. text_eq a u.agent_name) agents
]

abbrev without_modes : Text → Text
without_modes s =
    let first = remove_content_section s (text "## switch_mode") (10 ∷ text "##") in
    remove_content_section first (text "====" ++ (10 ∷ 10 ∷ text "MODES")) (10 ∷ text "====")

unfoldable filter_modes_change_content : UserMsgFilter → PromptMsg → PromptMsg
filter_modes_change_content u p =
    if should_filter u
    then elim (extract_system_content p.system_msg) [
      | none ↦ p
      | some s ↦ update_system_msg (without_modes s) p
    ]
    else p

-- `Execute` up to the next processor, without the token statistics.
unfoldable filter_user_msg : UserMsgFilter → PromptMsg → PromptMsg
filter_user_msg u p =
    filter_modes_change_content u
      (filter_environment_details u.enable_env_details_filter (filter_assistant_tool_patterns p))

update_system_msg-kept :
    (s : Text) (p : PromptMsg) → p.modify_system_prompt ≡ false → update_system_msg s p ≡ p
unfolding update_system_msg
update_system_msg-kept s p h = rw h refl

filter_modes_change_content-kept :
    (u : UserMsgFilter) (p : PromptMsg)
    → p.modify_system_prompt ≡ false
    → filter_modes_change_content u p ≡ p
unfolding filter_modes_change_content
filter_modes_change_content-kept u p h = elim (Bool-cases (should_filter u)) [
  | inl hit ↦ elim (Option-cases (extract_system_content p.system_msg)) [
    | inl bad ↦ rw (filter_modes_change_content, hit, bad) refl
    | inr (s, good) ↦
        rw (filter_modes_change_content, hit, good) (update_system_msg-kept (without_modes s) p h)
  ]
  | inr miss ↦ rw (filter_modes_change_content, miss) refl
]

system-filter_environment_details :
    (b : Bool) (p : PromptMsg)
    → ((filter_environment_details b p).system_msg ≡ p.system_msg)
      × ((filter_environment_details b p).modify_system_prompt ≡ p.modify_system_prompt)
unfolding filter_environment_details
system-filter_environment_details false p = (refl, refl)
system-filter_environment_details true p = (refl, refl)

-- A prompt whose system message is not to be changed keeps it in the filter.
system-filter_user_msg :
    (u : UserMsgFilter) (p : PromptMsg)
    → p.modify_system_prompt ≡ false
    → (filter_user_msg u p).system_msg ≡ p.system_msg
unfolding filter_user_msg filter_assistant_tool_patterns
system-filter_user_msg u p h =
    let before = filter_assistant_tool_patterns p in
    let (same, modify) = system-filter_environment_details u.enable_env_details_filter before in
    ap (λ x. x.system_msg)
      (filter_modes_change_content-kept u
        (filter_environment_details u.enable_env_details_filter before) (modify ∙ h))
    ∙ same
