-- ===== src/Processor/Filter.antt =====
-- `UserMsgFilter` in internal/promptflow/processor/filter.go: the patterns of the tools that ran and
-- the environment details of older messages.
use chat_rag.Common.{
  ltb, if◌then◌else◌, length, take, drop, is_empty, Text, text, text_eq, has_prefix, replace_all, ℕ,
  zero, suc, ◌+◌, ◌-◌, Bool, true, false, not, ◌&&◌, Option, none, some, List, [], ◌∷◌, ◌++◌, map,
}
use chat_rag.Types.{Message, Json, obj, str, Content, list, string}
use chat_rag.Json.{get}
use chat_rag.Processor.{PromptMsg}

-- "\n#### 🔍 " in UTF-8.
abbrev pub tool_search_start : Text
tool_search_start = 10 ∷ 35 ∷ 35 ∷ 35 ∷ 35 ∷ 32 ∷ 240 ∷ 159 ∷ 148 ∷ 141 ∷ 32 ∷ []

-- "工具检索中.....".
abbrev pub tool_search_end : Text
tool_search_end =
    229
    ∷ 183
    ∷ 165
    ∷ 229
    ∷ 133
    ∷ 183
    ∷ 230
    ∷ 163
    ∷ 128
    ∷ 231
    ∷ 180
    ∷ 162
    ∷ 228
    ∷ 184
    ∷ 173
    ∷ text "....."

-- "\n#### 💡 检索已完成，分析中...".
abbrev pub tool_analyzing : Text
tool_analyzing =
    10
    ∷ 35
    ∷ 35
    ∷ 35
    ∷ 35
    ∷ 32
    ∷ 240
    ∷ 159
    ∷ 146
    ∷ 161
    ∷ 32
    ∷ 230
    ∷ 163
    ∷ 128
    ∷ 231
    ∷ 180
    ∷ 162
    ∷ 229
    ∷ 183
    ∷ 178
    ∷ 229
    ∷ 174
    ∷ 140
    ∷ 230
    ∷ 136
    ∷ 144
    ∷ 239
    ∷ 188
    ∷ 140
    ∷ 229
    ∷ 136
    ∷ 134
    ∷ 230
    ∷ 158
    ∷ 144
    ∷ 228
    ∷ 184
    ∷ 173
    ∷ text "..."

-- `rounds` indices from the `i`-th on are still to be tried.
unfoldable pub index_from : ℕ → ℕ → Text → Text → Option ℕ
index_from zero i s pattern = none
index_from (suc rounds) i s pattern =
    let later = index_from rounds (suc i) s pattern in
    if text_eq (take (length pattern) (drop i s)) pattern then some i else later

-- `none` stands for -1.
unfoldable pub index_of : Text → Text → Option ℕ
index_of s pattern = index_from (suc (length s) - length pattern) 0 s pattern

-- The loop that cuts out each start pattern with the text up to the next end pattern.
unfoldable pub remove_pairs : ℕ → Text → Text → Text → Text
remove_pairs zero start_pattern end_pattern result = result
remove_pairs (suc fuel) start_pattern end_pattern result = elim (index_of result start_pattern) [
  | none ↦ result
  | some s ↦ elim (index_of (drop s result) end_pattern) [
    | none ↦ result
    | some e ↦
        remove_pairs fuel start_pattern end_pattern
          (take s result ++ drop (e + s + length end_pattern) result)
  ]
]

unfoldable pub remove_tool_execution_patterns : Text → Text
remove_tool_execution_patterns content =
    replace_all (remove_pairs (length content) tool_search_start tool_search_end content)
      tool_analyzing []

abbrev pub has_role : Text → Message → Bool
has_role r m = text_eq m.role r

abbrev pub with_content : Content → Message → Message
with_content c m = record { role = m.role; content = c; extra = m.extra }

abbrev without_patterns : Message → Content → Message
without_patterns m (string s) = with_content (string (remove_tool_execution_patterns s)) m
without_patterns m _ = m

abbrev pub filter_assistant_message : Message → Message
filter_assistant_message m =
    if has_role (text "assistant") m then without_patterns m m.content else m

-- `ExtractTextFromContent`.
abbrev pub extract_text_from_content : Json → Text
extract_text_from_content (obj fs) = elim (get (text "text") fs) [ some (str t) ↦ t | _ ↦ [] ]
extract_text_from_content _ = []

abbrev pub is_environment : Json → Bool
is_environment item =
    let t = extract_text_from_content item in
    not (is_empty t) && has_prefix t (text "<environment_details>")

-- The inner loop, from `environmentDetailsCount` to the new count and the items that are left.
unfoldable pub filter_items : ℕ → List Json → ℕ × List Json
filter_items count [] = (count, [])
filter_items count (x ∷ xs) =
    let now = if is_environment x then suc count else count in
    let rest = filter_items now xs in
    (rest.0, if is_environment x && ltb 1 now then rest.1 else x ∷ rest.1)

abbrev pub filter_content : ℕ → Content → ℕ × Content
filter_content count (list items) = let rest = filter_items count items in (rest.0, list rest.1)
filter_content count c = (count, c)

-- One round of the outer loop.
abbrev pub filter_message : ℕ → Message → ℕ × Message
filter_message count m =
    let after = filter_content count m.content in
    if has_role (text "user") m then (after.0, with_content after.1 m) else (count, m)

unfoldable pub filter_details : ℕ → List Message → List Message
filter_details count [] = []
filter_details count (m ∷ ms) =
    let after = filter_message count m in after.1 ∷ filter_details after.0 ms

unfoldable pub filter_assistant_tool_patterns : PromptMsg → PromptMsg
filter_assistant_tool_patterns p = record {
  system_msg = p.system_msg;
  older_user_msg_list = map filter_assistant_message p.older_user_msg_list;
  last_user_msg = p.last_user_msg;
  modify_system_prompt = p.modify_system_prompt;
}

-- The first argument is `EnableEnvDetailsFilter`.
unfoldable pub filter_environment_details : Bool → PromptMsg → PromptMsg
filter_environment_details false p = p
filter_environment_details true p = record {
  system_msg = p.system_msg;
  older_user_msg_list = filter_details 0 p.older_user_msg_list;
  last_user_msg = p.last_user_msg;
  modify_system_prompt = p.modify_system_prompt;
}
