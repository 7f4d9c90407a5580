-- ===== src/Processor.antt =====
-- The prompt that the processors pass on (internal/promptflow/processor/base.go). Its list of tools
-- is never set, and the system message and the last one are never nil.
pub mod Filter
mod System
mod Rules
mod Search
mod Patterns
mod Details
mod Assembled
mod Samples
use chat_rag.Common.{pos, Bool, Option, none, some, List, [], ◌∷◌, ◌++◌}
use chat_rag.Types.{Message}
use chat_rag.Messages.{get_system_msg, get_last_user_msg, get_old_user_msgs_with_num}

pub record PromptMsg : Type 0 where
  pub system_msg : Message
  pub older_user_msg_list : List Message
  pub last_user_msg : Message
  pub modify_system_prompt : Bool

-- `none` is the error of a conversation without a message of a user or a tool.
unfoldable pub new_prompt_msg : List Message → Bool → Option PromptMsg
new_prompt_msg messages modify = elim (get_last_user_msg messages) [
  | none ↦ none
  | some last ↦ some record {
    system_msg = get_system_msg messages;
    older_user_msg_list = get_old_user_msgs_with_num messages (pos 1);
    last_user_msg = last;
    modify_system_prompt = modify;
  }
]

abbrev pub assemble_prompt : PromptMsg → List Message
assemble_prompt p = p.system_msg ∷ (p.older_user_msg_list ++ (p.last_user_msg ∷ []))
