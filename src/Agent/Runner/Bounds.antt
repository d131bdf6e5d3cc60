-- ===== src/Agent/Runner/Bounds.antt =====
-- The number of calls of the model in a run of the agent.
use lrllm.Prelude.{
  ℕ, zero, suc, max, ◌+◌, ◌≤◌, ◌≡◌, refl, ◌∙◌, inl, inr, String, Text, Option, some, List, [], ◌∷◌,
  ◌++◌, map, Bool-cases, Option-cases, List-cases, arith,
}
use lrllm.Tools.Policy.{Subject}
use lrllm.Tools.Gate.{Effect, execute_with_policy}
use lrllm.Agent.Messages.{Call, ChatMessage, ai, tool_result, parse_call, truncate, tool_calls_of}
use lrllm.Agent.Conversations.{ChatDb, conversation_setup}
use lrllm.Agent.Runner.{
  tool_call_event, delta_event, done_event, internal_error, Happening, yields, asks, acts, stores,
  AgentSettings, Surroundings, tool_named, run_call, run_calls, decide, stream_final, answer_events,
  first_messages, converse, run,
}
use lrllm.Agent.Runner.Events.{Outcome-cases, Decided-cases, Result-cases}

module _ {V : Type 0} where
  -- The calls of the model among some happenings.
  abbrev pub asked : List (Happening V) → ℕ
  asked [] = 0
  asked (asks ∷ hs) = suc (asked hs)
  asked (yields e ∷ hs) = asked hs
  asked (acts e ∷ hs) = asked hs
  asked (stores a ∷ hs) = asked hs

  asked-append : (hs ks : List (Happening V)) → asked (hs ++ ks) ≡ asked hs + asked ks
  asked-append [] ks = omega arith
  asked-append (asks ∷ hs) ks = omega (arith, asked-append hs ks)
  asked-append (yields e ∷ hs) ks = asked-append hs ks
  asked-append (acts e ∷ hs) ks = asked-append hs ks
  asked-append (stores a ∷ hs) ks = asked-append hs ks

  asked-acts : (effects : List (Effect V)) → asked (map acts effects) ≡ 0
  asked-acts [] = refl
  asked-acts (e ∷ effects) = asked-acts effects

asked-deltas :
    (V : Type 0) (texts : List Text) → asked {V = V} (map (λ t. yields (delta_event t)) texts) ≡ 0
asked-deltas V [] = refl
asked-deltas V (t ∷ texts) = asked-deltas V texts

module _ {V : Type 0} (around : Surroundings V) (kb : String) (subject : Option Subject) where
  asked-run_call :
      (name : String) (arguments : List (String × V))
      → asked (run_call around kb subject name arguments).0 ≡ 0
  unfolding run_call
  asked-run_call name arguments = elim (Option-cases (tool_named around kb subject name)) [
    | inl e ↦ rw (e, run_call) refl
    | inr (spec, e) ↦
        rw (e, run_call)
          (asked-acts
            (execute_with_policy around.outside around.policy spec arguments subject (some kb)).1)
  ]

  asked-run_calls :
      (step : ℕ) (calls : List (Call V)) (messages : List (ChatMessage V)) (records : ℕ)
      → asked (run_calls around kb subject step calls messages records).0 ≡ 0
  unfolding run_calls
  asked-run_calls step [] messages records = refl
  asked-run_calls step (call ∷ calls) messages records =
      let (name, arguments, call_id) = parse_call around.ops call records in
      let (done, result) = run_call around kb subject name arguments in
      let after = messages ++ tool_result call_id (truncate result) ∷ [] in
      let later = (run_calls around kb subject step calls after (suc records)).0 in
      asked-append done (yields (tool_call_event step name arguments) ∷ later)
      ∙ omega (arith, asked-run_call name arguments, asked-run_calls step calls after (suc records))

  asked-decide :
      (left step : ℕ) (messages : List (ChatMessage V)) (records : ℕ)
      → asked (decide around kb subject left step messages records).0 ≤ suc left
  unfolding decide
  asked-decide zero step messages records = omega arith
  asked-decide (suc left) step messages records = elim (Bool-cases (around.is_late step)) [
    | inl late ↦ rw (late, decide) (omega arith)
    | inr early ↦ elim (Outcome-cases (around.model.invoke messages)) [
      | inl failed ↦ rw (early, decide, failed) (omega arith)
      | inr (response, replied) ↦ elim (List-cases (tool_calls_of response)) [
        | inl empty ↦ rw (early, decide, replied, empty) (omega arith)
        | inr (call, calls, named) ↦
            let answered = messages ++ ai response ∷ [] in
            let (acted, after, total) =
              run_calls around kb subject step (call ∷ calls) answered records in
            let later = (decide around kb subject left (suc step) after total).0 in
            rw (early, decide, replied, named)
              (omega (
                arith,
                asked-append acted later,
                asked-run_calls step (call ∷ calls) answered records,
                asked-decide left (suc step) after total,
              ))
      ]
    ]
  ]

  asked-stream_final :
      (messages : List (ChatMessage V)) (final_text : Text)
      → asked (stream_final around kb subject messages final_text).0 ≤ 1
  unfolding stream_final
  asked-stream_final messages final_text = elim (Bool-cases (around.is_blank final_text)) [
    | inl e ↦ rw (e, stream_final) (omega arith)
    | inr e ↦ rw (e, stream_final) (omega arith)
  ]

  asked-answer_events :
      (budget : ℕ) (messages : List (ChatMessage V))
      → asked (answer_events around kb subject budget messages).0 ≤ budget + 2
  unfolding answer_events
  asked-answer_events budget messages =
      let (decisions, decided) = decide around kb subject budget 0 messages 0 in
      elim (Decided-cases decided) [
        | inl e ↦ rw (e, answer_events) (omega (arith, asked-decide budget 0 messages 0))
        | inr (after, final_text, records, e) ↦
            let (asked_again, streamed) = stream_final around kb subject after final_text in
            let deltas : List (Happening V) = map (λ t. yields (delta_event t)) streamed in
            rw (e, answer_events)
              (omega (
                arith,
                asked-append decisions (asked_again ++ deltas),
                asked-append asked_again deltas,
                asked-deltas V streamed,
                asked-decide budget 0 messages 0,
                asked-stream_final after final_text,
              ))
      ]

  asked-converse :
      (settings : AgentSettings) (id : String) (query context : Text) (now : ℕ) (db : ChatDb)
      → asked (converse around kb subject settings id query context now db).0
        ≤ max 1 settings.agent_max_iterations + 2
  unfolding converse
  asked-converse settings id query context now db =
      let budget = max 1 settings.agent_max_iterations in
      let messages = first_messages around kb subject query context in
      let (happened, answered) = answer_events around kb subject budget messages in
      let few = asked-answer_events budget messages in
      elim (Option-cases around.bind_tools) [
        | inr (e, failed) ↦ rw (failed, converse) (omega arith)
        | inl bound ↦ elim (Option-cases answered) [
          | inl e ↦
              rw (bound, converse, e)
                (omega (arith, asked-append happened (internal_error around kb subject), few))
          | inr ((a, n), e) ↦
              let ending : List (Happening V) = stores a ∷ yields (done_event n) ∷ [] in
              elim (Bool-cases around.answer_lost) [
                | inl lost ↦
                    rw (bound, converse, e, lost)
                      (omega (arith, asked-append happened (internal_error around kb subject), few))
                | inr kept ↦
                    rw (bound, converse, e, kept) (omega (arith, asked-append happened ending, few))
              ]
        ]
      ]

  -- A run asks the model at most twice more often than the settings' limit of iterations, which
  -- counts as one if it is zero: once in each step, once to force an end, once to stream the answer.
  pub asked-run :
      (settings : AgentSettings) (query : Text) (conversation_id : Option String) (now : ℕ)
      (db : ChatDb)
      → asked (run around kb subject settings query conversation_id now db).0
        ≤ max 1 settings.agent_max_iterations + 2
  unfolding run
  asked-run settings query conversation_id now db =
      let (started, setup) =
        conversation_setup around.parse_uuid around.fresh_id kb query conversation_id now db in
      elim (Bool-cases settings.agent_enabled) [
        | inr off ↦ rw (off, run) (omega arith)
        | inl on ↦ elim (Result-cases setup) [
          | inl (e, failed) ↦ rw (on, run, failed) (omega arith)
          | inr ((id, context), r) ↦
              rw (on, run, r) (asked-converse settings id query context now started)
        ]
      ]
