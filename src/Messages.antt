-- ===== src/Messages.antt =====
-- Selections of a conversation's messages (internal/utils/msg_util.go).
pub mod Split
mod Samples
use chat_rag.Common.{
  leb, ◌==◌, if◌then◌else◌, length, get_elem?, take, drop, keep, ℤ, pos_part, ltb_ℤ, pos, text,
  text_eq, ℕ, suc, ◌-◌, String, Bool, not, ◌||◌, Option, none, some, List, [], ◌∷◌,
}
use chat_rag.Types.{end, Message, string}

abbrev role_is : String → Message → Bool
role_is r m = text_eq m.role (text r)

-- `RoleUser` or `RoleTool`.
abbrev pub is_user : Message → Bool
is_user m = role_is "user" m || role_is "tool" m

unfoldable get_user_msgs : List Message → List Message
get_user_msgs messages = keep (λ m. not (role_is "system" m)) messages

unfoldable pub get_system_msg : List Message → Message
get_system_msg [] = record { role = text "system"; content = string []; extra = end }
get_system_msg (m ∷ ms) = let rest = get_system_msg ms in if role_is "system" m then m else rest

-- One round of the loop from the last message to the first: `i` is the index of `m`, and the pair
-- holds `userCount` and the position, once it is found.
abbrev pub visit : ℕ → ℕ → Message → ℕ × Option ℕ → ℕ × Option ℕ
visit num i m (count, some p) = (count, some p)
visit num i m (count, none) =
    if is_user m then (suc count, if suc count == num then some i else none) else (count, none)

-- The loop over the messages from the `i`-th on, which the last enters first.
abbrev pub look_back : ℕ → ℕ → List Message → ℕ × Option ℕ
look_back num i [] = (0, none)
look_back num i (m ∷ ms) = visit num i m (look_back num (suc i) ms)

pub get_recent_user_msgs_with_num : List Message → ℤ → List Message
get_recent_user_msgs_with_num messages num =
    if not (ltb_ℤ (pos 0) num)
    then messages
    else elim (look_back (pos_part num) 0 messages).1 [ none ↦ [] | some p ↦ drop p messages ]

-- The index of the first system message from the `i`-th on, or zero.
abbrev pub first_system : ℕ → List Message → ℕ
first_system i [] = 0
first_system i (m ∷ ms) = if role_is "system" m then i else first_system (suc i) ms

pub get_old_user_msgs_with_num : List Message → ℤ → List Message
get_old_user_msgs_with_num messages num =
    let sys_pos = first_system 0 messages in
    if not (ltb_ℤ (pos 0) num)
    then messages
    else if not (ltb_ℤ num (pos (length messages)))
    then []
    else elim (look_back (pos_part num) 0 messages).1 [
      | none ↦ if leb (length messages) (suc sys_pos) then [] else drop (suc sys_pos) messages
      | some p ↦ if leb p sys_pos then [] else take (p - suc sys_pos) (drop (suc sys_pos) messages)
    ]

-- `GetLastUserMsg`; `none` is its error.
unfoldable pub get_last_user_msg : List Message → Option Message
unfolding get_recent_user_msgs_with_num
get_last_user_msg messages = get_elem? (get_recent_user_msgs_with_num messages (pos 1)) 0
