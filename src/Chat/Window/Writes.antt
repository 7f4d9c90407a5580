-- ===== src/Chat/Window/Writes.antt =====
-- A stream whose writes succeed (internal/logic/chat.go).
use chat_rag.Common.{leb, if◌then◌else◌, length, Text, ◌≡◌, true, false, [], ◌∷◌}
use chat_rag.Chat.Window.{StreamState, Step, ok, broken, panicked}
use chat_rag.Chat.Window.Leaves.{Leaves, delivered}

abbrev Intact : Step → Type 0
Intact (ok s) = Unit
Intact (broken s) = true ≡ false
Intact (panicked s) = Unit

-- What a processed stream leaves when its contents are `c`.
abbrev pub IsProcessed : Text → StreamState → Type 0
IsProcessed c s =
    (delivered s ≡ (if s.first_token then [] else 10 ∷ c))
    × (s.first_token ≡ true → c ≡ [])
    × (s.full_content ≡ c)
    × (s.tool_detected ≡ false → leb (length s.window) 5 ≡ true)
