-- ===== src/Processor/Samples.antt =====
-- A prompt with the traces of two tools and three environment details.
use mathlib.Core.Option
use chat_rag.Common.{
  length, take, keep, concat, Text, text, text_eq, has_prefix, replace_all, String, ◌≡◌, refl, true,
  some, [], ◌∷◌, ◌++◌, map,
}
use chat_rag.Types.{Message, Content, Json, obj, str, field, end, string, list}
use chat_rag.Json.{get}
use chat_rag.Processor.{PromptMsg, new_prompt_msg, assemble_prompt}
use chat_rag.Processor.Filter.{
  tool_search_start, tool_search_end, tool_analyzing, remove_pairs, remove_tool_execution_patterns,
  filter_environment_details, index_of, index_from, filter_details, filter_items,
}
use chat_rag.Processor.System.{extract_system_content, update_system_msg}
use chat_rag.Processor.Rules.{
  AgentConfig, rules_from, inject_rules, inject_rules_into_system_content,
}
use chat_rag.Processor.Patterns.{Cut, IsUnpaired, remove_pairs-IsUnpaired}
use chat_rag.Processor.Details.{
  is_unlisted, listed_environments, without_details, listed_environments-filter_environment_details,
}
use chat_rag.Processor.Assembled.{assemble_prompt-new_prompt_msg}

abbrev message : String → Content → Message
message r c = record { role = text r; content = c; extra = end }

abbrev item : String → Json
item s = obj (field (text "type") (str (text "text")) (field (text "text") (str (text s)) end))

abbrev details : Json
details = item "<environment_details>ls"

abbrev first_question : Message
first_question = message "user" (list (item "hello" ∷ details ∷ details ∷ []))

abbrev last_question : Message
last_question = message "user" (list (details ∷ item "why" ∷ []))

abbrev prompt : PromptMsg
prompt = record {
  system_msg = message "system" (string (text "You help"));
  older_user_msg_list =
      first_question ∷ message "assistant" (string (text "hi")) ∷ last_question ∷ [];
  last_user_msg = message "user" (string (text "go on"));
  modify_system_prompt = true;
}

abbrev traces : Text
traces =
    text "a"
    ++ (tool_search_start ++ (text "x" ++ (tool_search_end ++ (tool_analyzing ++ text "b"))))

removed : remove_tool_execution_patterns traces ≡ text "ab"
unfolding remove_tool_execution_patterns replace_all remove_pairs index_of index_from text_eq
    has_prefix
removed = refl

remove_pairs-IsUnpaired_example :
    Cut tool_search_start tool_search_end traces
      (remove_pairs (length traces) tool_search_start tool_search_end traces)
    × IsUnpaired tool_search_start tool_search_end
        (remove_pairs (length traces) tool_search_start tool_search_end traces)
remove_pairs-IsUnpaired_example = remove_pairs-IsUnpaired traces

left_messages :
    (filter_environment_details true prompt).older_user_msg_list
    ≡ message "user" (list (item "hello" ∷ details ∷ []))
      ∷ message "assistant" (string (text "hi"))
      ∷ message "user" (list (item "why" ∷ []))
      ∷ []
unfolding filter_environment_details filter_details text_eq filter_items get has_prefix
left_messages = refl

listed_environments-filter_environment_details_example :
    (listed_environments (filter_environment_details true prompt).older_user_msg_list
      ≡ take 1 (listed_environments prompt.older_user_msg_list))
    × (map without_details (filter_environment_details true prompt).older_user_msg_list
        ≡ map without_details prompt.older_user_msg_list)
    × (keep is_unlisted (filter_environment_details true prompt).older_user_msg_list
        ≡ keep is_unlisted prompt.older_user_msg_list)
listed_environments-filter_environment_details_example =
    listed_environments-filter_environment_details prompt

assemble_prompt-new_prompt_msg_example :
    Option.map assemble_prompt (
      new_prompt_msg
        (prompt.system_msg ∷ (prompt.older_user_msg_list ++ (prompt.last_user_msg ∷ [])))
        true)
    ≡ some (prompt.system_msg ∷ (prompt.older_user_msg_list ++ (prompt.last_user_msg ∷ [])))
unfolding text_eq
assemble_prompt-new_prompt_msg_example =
    assemble_prompt-new_prompt_msg prompt.system_msg prompt.older_user_msg_list prompt.last_user_msg
      true refl refl

abbrev ask_rules : AgentConfig
ask_rules = record {
  match_agents = text "ask" ∷ [];
  match_modes = text "vibe" ∷ [];
  rules = text "Be brief.";
}

with_rules :
    inject_rules (text "vibe") (text "ask") (some (ask_rules ∷ [])) prompt
    ≡ (true, update_system_msg (text "You help" ++ rules_from (text "ask") ask_rules) prompt)
unfolding inject_rules inject_rules_into_system_content extract_system_content update_system_msg
    concat text_eq
with_rules = refl
