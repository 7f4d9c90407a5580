-- ===== src/Messages/Samples.antt =====
-- The split of a conversation of a system message and two questions with their answers.
use chat_rag.Common.{drop, pos, text, text_eq, suc, ◌≤◌, String, ◌≡◌, List, [], ◌∷◌, ◌++◌, arith}
use chat_rag.Types.{end, Message, string}
use chat_rag.Messages.{first_system, get_recent_user_msgs_with_num, get_old_user_msgs_with_num}
use chat_rag.Messages.Split.{users, old_recent_split}

abbrev message : String → Message
message r = record { role = text r; content = string (text r); extra = end }

abbrev conversation : List Message
conversation =
    message "system"
    ∷ message "user"
    ∷ message "assistant"
    ∷ message "user"
    ∷ message "assistant"
    ∷ []

enough_users : 1 ≤ users (drop (suc (first_system 0 conversation)) conversation)
unfolding text_eq
enough_users = omega arith

old_recent_split_example :
    (get_old_user_msgs_with_num conversation (pos 1)
        ++ get_recent_user_msgs_with_num conversation (pos 1)
      ≡ drop (suc (first_system 0 conversation)) conversation)
    × (users (get_recent_user_msgs_with_num conversation (pos 1)) ≡ 1)
old_recent_split_example = old_recent_split conversation 1 (omega arith) enough_users
