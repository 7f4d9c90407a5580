-- ===== src/Processor/Rules.antt =====
-- The rules that internal/promptflow/processor/rules_injector.go adds to a system message.
use chat_rag.Common.{
  if◌then◌else◌, Bool-cases, keep, any, append_assoc, append_nil, concat, Text, text, text_eq, ◌≡◌,
  sym, ◌∙◌, inl, inr, Bool, true, false, ◌&&◌, Option, none, some, List, [], ◌∷◌, ◌++◌, map,
}
use chat_rag.Processor.{PromptMsg}
use chat_rag.Processor.System.{extract_system_content, update_system_msg}

pub record AgentConfig : Type 0 where
  pub match_agents : List Text
  pub match_modes : List Text
  pub rules : Text

abbrev matches : Text → Text → AgentConfig → Bool
matches mode agent a =
    any (λ m. text_eq m mode) a.match_modes && any (λ n. text_eq n agent) a.match_agents

abbrev pub rules_from : Text → AgentConfig → Text
rules_from agent a =
    concat
      ((10 ∷ 10 ∷ text "====") ∷ (10 ∷ 10 ∷ text "Rules from ") ∷ agent ∷ (10 ∷ 10 ∷ a.rules) ∷ [])

unfoldable pub inject_rules_into_system_content : Text → Text → List AgentConfig → Text → Text
inject_rules_into_system_content mode agent [] content = content
inject_rules_into_system_content mode agent (a ∷ agents) content =
    inject_rules_into_system_content mode agent agents
      (if matches mode agent a then content ++ rules_from agent a else content)

-- What is injected is the rules of the matching configurations in their order, at the end.
injected :
    (mode agent : Text) (agents : List AgentConfig) (content : Text)
    → inject_rules_into_system_content mode agent agents content
      ≡ content ++ concat (map (rules_from agent) (keep (matches mode agent) agents))
unfolding inject_rules_into_system_content concat
injected mode agent [] content = sym (append_nil content)
injected mode agent (a ∷ agents) content = elim (Bool-cases (matches mode agent a)) [
  | inl hit ↦ rw hit (
      injected mode agent agents (content ++ rules_from agent a)
      ∙ append_assoc content (rules_from agent a)
          (concat (map (rules_from agent) (keep (matches mode agent) agents))))
  | inr miss ↦ rw miss (injected mode agent agents content)
]

-- `RulesInjector.Execute` up to the next processor: `Handled` and the prompt. The configuration is
-- `none` where it is nil.
unfoldable pub inject_rules : Text → Text → Option (List AgentConfig) → PromptMsg → Bool × PromptMsg
inject_rules mode agent none p = (false, p)
inject_rules mode agent (some agents) p = elim (extract_system_content p.system_msg) [
  | none ↦ (false, p)
  | some s ↦ (true, update_system_msg (inject_rules_into_system_content mode agent agents s) p)
]
