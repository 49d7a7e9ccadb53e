-- ===== src/Frontend/Client.antt =====
-- `AutellixClient` of autellix/frontend/client.py: chats whose session is opened when none is named.
use autellix.Prelude.{ℕ, Option, none, some}
use autellix.Prelude.Int.{pos}
use autellix.Frontend.Response.{SimulatedChatResponse}
use autellix.Frontend.Service.{Service, Serve, start_session}
use autellix.Frontend.Service.Chat.{Chat, chat_completion}

-- The session of a chat.
unfoldable pub chat_session : Option ℕ → Option ℕ → Service → Service × ℕ
unfolding start_session
chat_session session_id program_id s = elim session_id [
  | some sid ↦ (s, sid)
  | none ↦ let p = start_session program_id (pos 0) s in (p.0, p.1.session_id)
]

-- `client.chat.completions.create`.
unfoldable pub create : Option ℕ → Option ℕ → Chat → Service → Service × Serve SimulatedChatResponse
unfolding chat_session chat_completion
create session_id program_id chat s =
    let q = chat_session session_id program_id s in chat_completion (q.1) chat (q.0)
