-- ===== src/Processor/Assembled.antt =====
-- A conversation that is taken apart into a prompt and assembled again.
use mathlib.Core.Option
use chat_rag.Common.{
  length, get_elem?, take, drop, length-append, drop-append, take-append, pos, text, text_eq, suc,
  ◌+◌, ◌<◌, ◌≡◌, refl, ap, ◌∙◌, Bool, true, some, List, [], ◌∷◌, ◌++◌, arith,
}
use chat_rag.Types.{Message}
use chat_rag.Messages.{
  is_user, look_back, first_system, get_recent_user_msgs_with_num, get_old_user_msgs_with_num,
  get_system_msg, get_last_user_msg,
}
use chat_rag.Messages.Split.{look_back-append, recent-at, old-at}
use chat_rag.Processor.{new_prompt_msg, assemble_prompt}

module _ (s : Message) (ms : List Message) (u : Message)
    (system : text_eq s.role (text "system") ≡ true) (user : is_user u ≡ true) where
  abbrev whole : List Message
  whole = s ∷ (ms ++ (u ∷ []))

  first_system-whole : first_system 0 whole ≡ 0
  first_system-whole = rw system refl

  look_back-whole : (look_back 1 0 whole).1 ≡ some (suc (length ms))
  look_back-whole =
      look_back-append 1 0 (s ∷ ms) (u ∷ []) (suc (length ms)) (rw user (ap some (omega arith)))

  recent-whole : get_recent_user_msgs_with_num whole (pos 1) ≡ u ∷ []
  recent-whole =
      recent-at whole 1 (suc (length ms)) (omega arith) look_back-whole ∙ drop-append ms (u ∷ [])

  old-whole : get_old_user_msgs_with_num whole (pos 1) ≡ ms
  old-whole =
      let same : suc (length ms) ≡ suc (first_system 0 whole) + length ms =
        omega (arith, first_system-whole) in
      let room : 1 < length whole = omega (arith, length-append ms (u ∷ [])) in
      old-at whole 1 (length ms) (omega arith) room (look_back-whole ∙ ap some same)
      ∙ ap (λ n. take (length ms) (drop (suc n) whole)) first_system-whole
      ∙ take-append ms (u ∷ [])

  get_last_user_msg-whole : get_last_user_msg whole ≡ some u
  unfolding get_last_user_msg
  get_last_user_msg-whole = ap (λ r. get_elem? r 0) recent-whole

  get_system_msg-whole : get_system_msg whole ≡ s
  unfolding get_system_msg
  get_system_msg-whole = rw system refl

-- A conversation that starts with a system message and ends with a message of a user or a tool is
-- taken apart without an error, and assembling the parts gives it back.
pub assemble_prompt-new_prompt_msg :
    (s : Message) (ms : List Message) (u : Message) (modify : Bool)
    → text_eq s.role (text "system") ≡ true
    → is_user u ≡ true
    → Option.map assemble_prompt (new_prompt_msg (s ∷ (ms ++ (u ∷ []))) modify)
      ≡ some (s ∷ (ms ++ (u ∷ [])))
unfolding new_prompt_msg
assemble_prompt-new_prompt_msg s ms u modify system user =
    rw (new_prompt_msg, get_last_user_msg-whole s ms u system user)
      (ap some (
        ap (λ x. x ∷ (get_old_user_msgs_with_num (s ∷ (ms ++ (u ∷ []))) (pos 1) ++ (u ∷ [])))
          (get_system_msg-whole s ms u system user)
        ∙ ap (λ xs. s ∷ (xs ++ (u ∷ []))) (old-whole s ms u system user)))
