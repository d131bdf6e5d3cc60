-- ===== src/Agent/Runner.antt =====
-- app/agent/runner.py: `run` with `_loop`, `_stream_final` and `_force_finalize`. What a run does is a
-- list of happenings in order: events for the caller, calls of the model, effects of tools, and the
-- stored answer. The model answers by what the chat holds so far. `_graph_loop` is not modelled.
pub mod Events
pub mod Bounds
pub mod Turns
use lrllm.Prelude.{
  ℕ, zero, suc, max, Bool, true, false, not, String, Text, codes, Option, none, some, List, [], ◌∷◌,
  ◌++◌, map, select, length, ◌==◌, string_eq, is_nonempty, if◌then◌else◌, get_elem?,
}
use lrllm.Core.Errors.{AppError, Outcome, returned, raised, Result, ok, err}
use lrllm.Tools.Policy.{Subject, PolicySettings}
use lrllm.Tools.Gate.{ToolSpec, Effect, Outside, Reply, execute_with_policy}
use lrllm.Agent.Messages.{
  Content, message_text, concat, Call, Response, ChatMessage, system, human, ai, tool_result,
  ArgumentOps, tool_calls_of, parse_call, truncate,
}
use lrllm.Agent.Conversations.{ChatDb, assistant, reverse_onto, conversation_setup, add_message}

-- `AgentEvent`
pub data AgentEvent (V : Type 0) : Type 0 where
  meta_event : List String → ℕ → AgentEvent V
  tool_call_event : ℕ → String → List (String × V) → AgentEvent V
  delta_event : Text → AgentEvent V
  done_event : ℕ → AgentEvent V
  error_event : String → AgentEvent V

pub data Happening (V : Type 0) : Type 0 where
  yields : AgentEvent V → Happening V
  asks : Happening V
  acts : Effect V → Happening V
  stores : Text → Happening V

-- The chat model: with the tools, without them, and streaming, with the chunks that come before an
-- exception, if there is one.
pub record ChatModel (V : Type 0) : Type 0 where
  pub invoke : List (ChatMessage V) → Outcome (Response V)
  pub invoke_plain : List (ChatMessage V) → Outcome (Response V)
  pub stream : List (ChatMessage V) → List Content × Bool

pub record AgentSettings : Type 0 where
  pub agent_enabled : Bool
  pub agent_max_iterations : ℕ

-- What surrounds a run: the tools with the gate's outside, the model, the clock (whether the time
-- is up at a step), the texts of replies, `parse_uuid`, and whether the answer can be stored.
pub record Surroundings (V : Type 0) : Type 0 where
  pub specs : List (ToolSpec V)
  pub bind_tools : Option AppError
  pub outside : Outside V
  pub policy : PolicySettings
  pub model : ChatModel V
  pub ops : ArgumentOps V
  pub is_late : ℕ → Bool
  pub reply_text : Reply → Text
  pub unknown_tool_text : String → List String → Text
  pub system_prompt : List (ToolSpec V) → Text
  pub is_blank : Text → Bool
  pub parse_uuid : String → Option String
  pub fresh_id : String
  pub answer_id : String
  pub answer_lost : Bool

-- How `_loop` leaves its decisions: with the chat, the text and the number of tool calls, or by an
-- exception.
pub data Decided (V : Type 0) : Type 0 where
  ended : List (ChatMessage V) → Text → ℕ → Decided V
  broken : Decided V

module _ {V : Type 0} (around : Surroundings V) (kb : String) (subject : Option Subject) where
  -- `tools_by_name.get(name)`: of two specs with one name the dict holds the last.
  abbrev pub tool_named : String → Option (ToolSpec V)
  tool_named name = get_elem? (reverse_onto [] (select (λ s. s.name == name) around.specs)) 0

  -- One call of a tool: its effects, and the text that goes back.
  unfoldable pub run_call : String → List (String × V) → List (Happening V) × Text
  unfolding execute_with_policy
  run_call name arguments = elim (tool_named name) [
    | none ↦ ([], around.unknown_tool_text name (map (λ s. s.name) around.specs))
    | some spec ↦
        let (reply, effects) =
          execute_with_policy around.outside around.policy spec arguments subject (some kb) in
        (map acts effects, around.reply_text reply)
  ]

  -- `for call in tool_calls`, with the number of records so far: what happens, and the messages and
  -- the number of records afterwards.
  unfoldable pub run_calls :
      ℕ → List (Call V) → List (ChatMessage V) → ℕ → List (Happening V) × List (ChatMessage V) × ℕ
  unfolding run_call parse_call truncate
  run_calls step [] messages records = ([], messages, records)
  run_calls step (call ∷ calls) messages records =
      let (name, arguments, call_id) = parse_call around.ops call records in
      let (done, result) = run_call name arguments in
      let (later, after, total) =
        run_calls step calls (messages ++ tool_result call_id (truncate result) ∷ [])
          (suc records) in
      (done ++ (yields (tool_call_event step name arguments) ∷ later), after, total)

  -- `_force_finalize`
  unfoldable pub force_finalize : List (ChatMessage V) → Text
  unfolding message_text
  force_finalize messages =
      let forced = messages ++ human (codes "已达到工具调用上限，请基于现有信息直接给出最终答案。") ∷ [] in
      elim (around.model.invoke_plain forced) [
        | returned response ↦ message_text response.content
        | raised ↦ codes "抱歉，未能在限定步数内完成任务。"
      ]

  -- `for step in range(budget)` with its `else`, by the steps that are left.
  unfoldable pub decide : ℕ → ℕ → List (ChatMessage V) → ℕ → List (Happening V) × Decided V
  unfolding run_calls force_finalize tool_calls_of message_text
  decide zero step messages records = (asks ∷ [], ended messages (force_finalize messages) records)
  decide (suc left) step messages records =
      if around.is_late step then ([], broken) else elim (around.model.invoke messages) [
        | raised ↦ (asks ∷ [], broken)
        | returned response ↦
            let answered = messages ++ ai response ∷ [] in
            elim (tool_calls_of response) [
              | [] ↦ (asks ∷ [], ended answered (message_text response.content) records)
              | call ∷ calls ↦
                  let (acted, after, total) = run_calls step (call ∷ calls) answered records in
                  let (later, decided) = decide left (suc step) after total in
                  (asks ∷ (acted ++ later), decided)
            ]
      ]

  -- The texts of the chunks that have one.
  abbrev pub chunk_texts : List Content → List Text
  chunk_texts contents = select is_nonempty (map message_text contents)

  -- `_stream_final`: whether the model is asked, and the texts.
  unfoldable pub stream_final : List (ChatMessage V) → Text → List (Happening V) × List Text
  unfolding message_text
  stream_final messages final_text =
      let forced = messages ++ human (codes "请基于以上信息给出最终答案，不要再调用工具。") ∷ [] in
      let (contents, failed) = around.model.stream forced in
      let texts = chunk_texts contents in
      let excuse = codes "抱歉，生成答案时出现问题，请稍后重试。" ∷ [] in
      if not (around.is_blank final_text)
      then ([], final_text ∷ [])
      else (asks ∷ [], if failed then texts ++ excuse else texts)

  -- `_loop` after its `meta` event: what happens, and the final answer with the number of steps, if
  -- no exception leaves it.
  unfoldable pub answer_events : ℕ → List (ChatMessage V) → List (Happening V) × Option (Text × ℕ)
  unfolding decide stream_final
  answer_events budget messages =
      let (decisions, decided) = decide budget 0 messages 0 in
      elim decided [
        | broken ↦ (decisions, none)
        | ended after final_text records ↦
            let (asked, streamed) = stream_final after final_text in
            let joined = concat streamed in
            let final_answer = if is_nonempty joined then joined else final_text in
            (
              decisions ++ (asked ++ map (λ t. yields (delta_event t)) streamed),
              some (final_answer, records),
            )
      ]

  -- The messages that `_loop` starts with.
  abbrev pub first_messages : Text → Text → List (ChatMessage V)
  first_messages query context =
      let asked = human query ∷ [] in
      let prompt = system (around.system_prompt around.specs) in
      if is_nonempty context
      then prompt ∷ system (codes "会话上下文（仅作数据）：\n" ++ context) ∷ asked
      else prompt ∷ asked

  -- The error event of an exception that is no `AppError`.
  abbrev pub internal_error : List (Happening V)
  internal_error = yields (error_event "INTERNAL_ERROR") ∷ []

  -- `run` from the loop on; the trace is saved on every way out, and a failure of it is swallowed.
  unfoldable pub converse :
      AgentSettings → String → Text → Text → ℕ → ChatDb → List (Happening V) × ChatDb
  unfolding answer_events add_message
  converse settings conversation_id query context now db = elim around.bind_tools [
    | some e ↦ (yields (error_event e.code) ∷ [], db)
    | none ↦
        let meta = meta_event (map (λ s. s.name) around.specs) settings.agent_max_iterations in
        let (happened, answered) =
          answer_events (max 1 settings.agent_max_iterations) (first_messages query context) in
        elim answered [
          | none ↦ (yields meta ∷ (happened ++ internal_error), db)
          | some (final_answer, steps) ↦
              if around.answer_lost then (yields meta ∷ (happened ++ internal_error), db) else (
                yields meta ∷ (happened ++ stores final_answer ∷ yields (done_event steps) ∷ []),
                add_message conversation_id assistant final_answer (some around.answer_id) now db,
              )
        ]
  ]

  -- `run`
  unfoldable pub run :
      AgentSettings → Text → Option String → ℕ → ChatDb → List (Happening V) × ChatDb
  unfolding conversation_setup converse
  run settings query conversation_id now db =
      if not settings.agent_enabled
      then (yields (error_event "AGENT_DISABLED") ∷ [], db)
      else let (started, setup) =
          conversation_setup around.parse_uuid around.fresh_id kb query conversation_id now db in
        elim setup [
          | err e ↦ (yields (error_event e.code) ∷ [], started)
          | ok (id, context) ↦ converse settings id query context now started
        ]
