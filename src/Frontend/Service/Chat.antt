-- ===== src/Frontend/Service/Chat.antt =====
-- `AutellixService.chat_completion` of autellix/frontend/service.py: the costs that it makes up for
-- a chat. A message counts by the characters of its content and of its role.
use autellix.Prelude.{
  ℕ, suc, ◌+◌, ◌/◌, min, max, List, [], ◌∷◌, Option, none, some, ok, err, ◌>>=◌, or_fail, ◌==◌,
  if◌then◌else◌,
}
use autellix.Prelude.Dict.{Dict, lookup, insert}
use autellix.Prelude.Int.{ℤ, pos, negsuc, sub_ℕ, pos_part, ◌+ℤ◌}
use autellix.Core.State.{CallSpec, CallState, new_state}
use autellix.Core.Execution.{ceil_div}
use autellix.Core.Run.{Simulator}
use autellix.Core.Metrics.{SimulationResult}
use autellix.Frontend.Response.{SimulatedChatResponse, make_simulated_response}
use autellix.Frontend.Service.{Service, Serve, no_counter, Submission, submit_call}

pub record Message : Type 0 where
  pub content_chars : ℕ
  pub role_chars : ℕ

abbrev pub total_chars : List Message → ℕ
total_chars [] = 0
total_chars (m ∷ ms) = m.content_chars + m.role_chars + total_chars ms

-- `_estimate_prompt_tokens`.
unfoldable pub estimate_prompt_tokens : List Message → ℕ
unfolding ceil_div
estimate_prompt_tokens messages = max 1 (ceil_div (total_chars messages) 4)

-- The arguments of `chat_completion`.
pub record Chat : Type 0 where
  pub messages : List Message
  pub call_id : Option ℕ
  pub model_time : Option ℤ
  pub prefill_tokens : Option ℤ
  pub decode_tokens : Option ℤ
  pub parents : List ℕ
  pub release_delay : ℤ
  pub max_tokens : Option ℤ

abbrev pub or_else : ℤ → Option ℤ → ℤ
or_else a none = a
or_else a (some b) = b

unfoldable pub prompt_tokens : Chat → ℤ
unfolding estimate_prompt_tokens
prompt_tokens c = or_else (pos (estimate_prompt_tokens c.messages)) c.prefill_tokens

-- `max(1, ...)` of the code, of numbers that may be negative.
abbrev pub at_least_one : ℤ → ℤ
at_least_one a = pos (max 1 (pos_part a))

-- `min(256, max(16, prompt_tokens // 8))`; a negative quotient is below 16.
abbrev pub default_completion : ℤ → ℕ
default_completion prompt = min 256 (max 16 (pos_part prompt / 8))

unfoldable pub completion_tokens : Chat → ℤ → ℤ
completion_tokens c prompt =
    or_else (at_least_one (or_else (pos (default_completion prompt)) c.max_tokens)) c.decode_tokens

-- `ceil(a / b)` for a positive `b`: toward 0 for a negative `a`.
abbrev pub ceil_quotient : ℤ → ℕ → ℤ
unfolding ceil_div
ceil_quotient (pos n) b = pos (ceil_div n b)
ceil_quotient (negsuc n) b = sub_ℕ 0 (suc n / b)

unfoldable pub simulated_time : Chat → ℤ → ℤ → ℤ
unfolding ◌+ℤ◌
simulated_time c prompt completion =
    or_else (at_least_one (ceil_quotient prompt 512 +ℤ ceil_quotient completion 64)) c.model_time

unfoldable pub submission_of : Chat → ℕ → Submission
unfolding prompt_tokens completion_tokens simulated_time
submission_of c call_id =
    let prompt = prompt_tokens c in
    let completion = completion_tokens c prompt in
    record {
      call_id = call_id;
      model_time = simulated_time c prompt completion;
      prefill_tokens = prompt;
      decode_tokens = completion;
      parents = c.parents;
      release_delay = c.release_delay;
    }

-- The call's name, taken from the session's counter when none is given.
unfoldable pub name_call : ℕ → Chat → Service → Serve (Service × ℕ)
name_call sid c s = elim c.call_id [
  | some id ↦ ok (s, id)
  | none ↦ do
    n ← or_fail (lookup sid s.call_counters) no_counter
    ok (record s { call_counters = insert sid (suc n) s.call_counters }, s.names.chat_name n)
]

-- The state of a call with the key, in a dictionary of call objects.
abbrev pub state_in : ℕ → ℕ → Dict CallState → Option CallState
state_in pid cid [] = none
state_in pid cid ((r, c) ∷ rest) =
    if c.spec.program_id == pid
    then (if c.spec.call_id == cid then some c else state_in pid cid rest)
    else state_in pid cid rest

abbrev pub known_calls : Option Simulator → Dict CallState
known_calls none = []
known_calls (some m) = m.store.calls

abbrev pub result_calls : Option SimulationResult → Dict CallState
result_calls none = []
result_calls (some r) = r.calls

-- The state that a service knows for a key: its simulator's, else its last result's.
unfoldable pub known_state : ℕ → ℕ → Service → Option CallState
known_state pid cid s = elim (state_in pid cid (known_calls s.simulator)) [
  | some c ↦ some c
  | none ↦ state_in pid cid (result_calls s.last_result)
]

-- `_call_state`.
unfoldable pub call_state : CallSpec → Service → CallState
unfolding known_state
call_state call s = elim (known_state call.program_id call.call_id s) [
  | some c ↦ c
  | none ↦ new_state call
]

-- `chat_completion`.
unfoldable pub chat_completion : ℕ → Chat → Service → Service × Serve SimulatedChatResponse
unfolding name_call submission_of call_state
chat_completion sid c s = elim (name_call sid c s) [
  | err e ↦ (s, err e)
  | ok named ↦
      let p = submit_call sid (submission_of c (named.1)) (named.0) in
      (p.0, do call ← p.1; ok (make_simulated_response sid (call_state call (p.0)) p.0.last_result))
]
