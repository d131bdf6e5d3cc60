-- ===== src/Agent/Runner/Events.antt =====
-- The order of the events of a run of the agent.
use lrllm.Prelude.{
  ℕ, zero, suc, max, ◌+◌, ◌<◌, ◌≡◌, refl, sym, subst, ap, ◌∙◌, ◌⊎◌, inl, inr, true, false, String,
  Text, Option, none, some, List, [], ◌∷◌, ◌++◌, map, append_assoc, append-nil, is_nonempty,
  if◌then◌else◌, Bool-cases, Option-cases, List-cases, arith,
}
use lrllm.Core.Errors.{AppError, Outcome, returned, raised, Result, ok, err}
use lrllm.Tools.Policy.{Subject}
use lrllm.Tools.Gate.{Effect, execute_with_policy}
use lrllm.Agent.Messages.{
  Call, ChatMessage, ai, tool_result, concat, parse_call, truncate, tool_calls_of,
}
use lrllm.Agent.Conversations.{ChatDb, conversation_setup}
use lrllm.Agent.Runner.{
  meta_event, tool_call_event, delta_event, done_event, error_event, Happening, yields, asks, acts,
  stores, AgentSettings, Surroundings, Decided, ended, broken, tool_named, run_call, run_calls,
  decide, stream_final, answer_events, first_messages, internal_error, converse, run,
}

pub Outcome-cases : {A : Type 0} (r : Outcome A) → (r ≡ raised) ⊎ ((a : A) × (r ≡ returned a))
Outcome-cases raised = inl refl
Outcome-cases (returned a) = inr (a, refl)

pub Decided-cases :
    {V : Type 0} (d : Decided V)
    → (d ≡ broken)
      ⊎ ((after : List (ChatMessage V)) × (text : Text) × (n : ℕ) × (d ≡ ended after text n))
Decided-cases broken = inl refl
Decided-cases (ended after text n) = inr (after, text, n, refl)

-- An answer is what was streamed, if anything was.
nonempty_or :
    (joined text : Text) → (joined ≡ []) ⊎ ((if is_nonempty joined then joined else text) ≡ joined)
nonempty_or [] text = inl refl
nonempty_or (c ∷ cs) text = inr refl

pub Result-cases :
    {A : Type 0} (r : Result A) → ((e : AppError) × (r ≡ err e)) ⊎ ((a : A) × (r ≡ ok a))
Result-cases (err e) = inl (e, refl)
Result-cases (ok a) = inr (a, refl)

module _ {V : Type 0} where
  abbrev IsEnd : List (Happening V) → Type 0
  IsEnd [] = Unit
  IsEnd (h ∷ hs) = ⊥

  abbrev IsDoneEvent : List (Happening V) → Type 0
  IsDoneEvent (yields (done_event steps) ∷ hs) = IsEnd hs
  IsDoneEvent _ = ⊥

  -- While the answer is streamed: more of it, then an error, or the answer stored, which is what was
  -- streamed if anything was, and `done`.
  abbrev InDeltas : Text → List (Happening V) → Type 0
  InDeltas seen [] = ⊥
  InDeltas seen (yields (delta_event t) ∷ hs) = InDeltas (seen ++ t) hs
  InDeltas seen (yields (error_event code) ∷ hs) = IsEnd hs
  InDeltas seen (yields _ ∷ hs) = ⊥
  InDeltas seen (asks ∷ hs) = ⊥
  InDeltas seen (acts e ∷ hs) = ⊥
  InDeltas seen (stores a ∷ hs) = ((seen ≡ []) ⊎ (a ≡ seen)) × IsDoneEvent hs

  -- While the model decides: calls of it and of tools, each tool call with the number of a step
  -- below the budget, then the answer or an error.
  abbrev InTools : ℕ → List (Happening V) → Type 0
  InTools budget [] = ⊥
  InTools budget (yields (tool_call_event step name arguments) ∷ hs) =
      (step < budget) × InTools budget hs
  InTools budget (yields (delta_event t) ∷ hs) = InDeltas t hs
  InTools budget (yields (error_event code) ∷ hs) = IsEnd hs
  InTools budget (yields (meta_event names n) ∷ hs) = ⊥
  InTools budget (yields (done_event steps) ∷ hs) = ⊥
  InTools budget (asks ∷ hs) = InTools budget hs
  InTools budget (acts e ∷ hs) = InTools budget hs
  InTools budget (stores a ∷ hs) = IsDoneEvent hs

  -- A whole run: an error, or `meta` and what follows it.
  abbrev pub IsAgentRun : ℕ → List (Happening V) → Type 0
  IsAgentRun budget (yields (meta_event names n) ∷ hs) = InTools budget hs
  IsAgentRun budget (yields (error_event code) ∷ hs) = IsEnd hs
  IsAgentRun budget _ = ⊥

  acts-InTools :
      (budget : ℕ) (effects : List (Effect V)) (rest : List (Happening V))
      → InTools budget rest
      → InTools budget (map acts effects ++ rest)
  acts-InTools budget [] rest h = h
  acts-InTools budget (e ∷ effects) rest h = acts-InTools budget effects rest h

  deltas-InDeltas :
      (seen : Text) (streamed : List Text) (rest : List (Happening V))
      → InDeltas (seen ++ concat streamed) rest
      → InDeltas seen (map (λ t. yields (delta_event t)) streamed ++ rest)
  deltas-InDeltas seen [] rest h = subst (λ s. InDeltas s rest) (append-nil seen) h
  deltas-InDeltas seen (t ∷ ts) rest h =
      deltas-InDeltas (seen ++ t) ts rest
        (subst (λ s. InDeltas s rest) (sym (append_assoc seen t (concat ts))) h)

  -- What may follow the decisions: the texts of an answer, and an end that fits them.
  deltas-InTools :
      (budget : ℕ) (streamed : List Text) (rest : List (Happening V))
      → InTools budget rest
      → InDeltas (concat streamed) rest
      → InTools budget (map (λ t. yields (delta_event t)) streamed ++ rest)
  deltas-InTools budget [] rest h k = h
  deltas-InTools budget (t ∷ ts) rest h k = deltas-InDeltas t ts rest k

module _ {V : Type 0} (around : Surroundings V) (kb : String) (subject : Option Subject) where
  run_call-InTools :
      (budget : ℕ) (name : String) (arguments : List (String × V)) (rest : List (Happening V))
      → InTools budget rest
      → InTools budget ((run_call around kb subject name arguments).0 ++ rest)
  unfolding run_call
  run_call-InTools budget name arguments rest h =
      elim (Option-cases (tool_named around kb subject name)) [
        | inl e ↦ rw (e, run_call) h
        | inr (spec, e) ↦
            rw (e, run_call)
              (acts-InTools budget
                (execute_with_policy around.outside around.policy spec arguments subject
                  (some kb)).1
                rest h)
      ]

  run_calls-InTools :
      (budget step : ℕ) (calls : List (Call V)) (messages : List (ChatMessage V)) (records : ℕ)
      (rest : List (Happening V))
      → step < budget
      → InTools budget rest
      → InTools budget ((run_calls around kb subject step calls messages records).0 ++ rest)
  unfolding run_calls
  run_calls-InTools budget step [] messages records rest b h = h
  run_calls-InTools budget step (call ∷ calls) messages records rest b h =
      let (name, arguments, call_id) = parse_call around.ops call records in
      let (done, result) = run_call around kb subject name arguments in
      let after = messages ++ tool_result call_id (truncate result) ∷ [] in
      let later = (run_calls around kb subject step calls after (suc records)).0 in
      let event : Happening V = yields (tool_call_event step name arguments) in
      subst (InTools budget) (sym (append_assoc done (event ∷ later) rest)) (
        run_call-InTools budget name arguments (event ∷ (later ++ rest))
          (b, run_calls-InTools budget step calls after (suc records) rest b h))

  decide-InTools :
      (budget left step : ℕ) (messages : List (ChatMessage V)) (records : ℕ)
      (rest : List (Happening V))
      → step + left ≡ budget
      → InTools budget rest
      → InTools budget ((decide around kb subject left step messages records).0 ++ rest)
  unfolding decide
  decide-InTools budget zero step messages records rest e h = h
  decide-InTools budget (suc left) step messages records rest e h =
      elim (Bool-cases (around.is_late step)) [
        | inl late ↦ rw (late, decide) h
        | inr early ↦ elim (Outcome-cases (around.model.invoke messages)) [
          | inl failed ↦ rw (early, decide, failed) h
          | inr (response, replied) ↦ elim (List-cases (tool_calls_of response)) [
            | inl empty ↦ rw (early, decide, replied, empty) h
            | inr (call, calls, named) ↦
                let answered = messages ++ ai response ∷ [] in
                let (acted, after, total) =
                  run_calls around kb subject step (call ∷ calls) answered records in
                let later = (decide around kb subject left (suc step) after total).0 in
                let rest_of =
                  decide-InTools budget left (suc step) after total rest (omega (arith, e)) h in
                let all =
                  run_calls-InTools budget step (call ∷ calls) answered records (later ++ rest)
                    (omega (arith, e)) rest_of in
                rw (early, decide, replied, named)
                  (subst (InTools budget) (sym (append_assoc acted later rest)) all)
          ]
        ]
      ]

  stream_final-InTools :
      (budget : ℕ) (messages : List (ChatMessage V)) (final_text : Text) (rest : List (Happening V))
      → InTools budget rest
      → InTools budget ((stream_final around kb subject messages final_text).0 ++ rest)
  unfolding stream_final
  stream_final-InTools budget messages final_text rest h =
      elim (Bool-cases (around.is_blank final_text)) [
        | inl e ↦ rw (e, stream_final) h
        | inr e ↦ rw (e, stream_final) h
      ]

  -- Ends of a run that fit what the loop leaves: without an answer, and with one that is what was
  -- streamed, if anything was.
  abbrev Fits : ℕ → (Option (Text × ℕ) → List (Happening V)) → Type 0
  Fits budget closing =
      InTools budget (closing none)
      × ((a : Text) (n : ℕ) → InTools budget (closing (some (a, n))))
      × ((a : Text) (n : ℕ) (seen : Text)
          → (seen ≡ []) ⊎ (a ≡ seen)
          → InDeltas seen (closing (some (a, n))))

  answer_events-InTools :
      (budget : ℕ) (messages : List (ChatMessage V))
      (closing : Option (Text × ℕ) → List (Happening V))
      → Fits budget closing
      → let (happened, answered) = answer_events around kb subject budget messages in
        InTools budget (happened ++ closing answered)
  unfolding answer_events
  answer_events-InTools budget messages closing fits =
      let (decisions, decided) = decide around kb subject budget 0 messages 0 in
      elim (Decided-cases decided) [
        | inl e ↦
            rw (e, answer_events)
              (decide-InTools budget budget 0 messages 0 (closing none) (omega arith) fits.0)
        | inr (after, final_text, records, e) ↦
            let (asked, streamed) = stream_final around kb subject after final_text in
            let joined = concat streamed in
            let a = if is_nonempty joined then joined else final_text in
            let deltas = map (λ t. yields (delta_event t)) streamed in
            let end = closing (some (a, records)) in
            let told =
              deltas-InTools budget streamed end (fits.1 a records)
                (fits.2 a records joined (nonempty_or joined final_text)) in
            let all =
              decide-InTools budget budget 0 messages 0 (asked ++ (deltas ++ end)) (omega arith)
                (stream_final-InTools budget after final_text (deltas ++ end) told) in
            let regrouped =
              append_assoc decisions (asked ++ deltas) end
              ∙ ap (λ xs. decisions ++ xs) (append_assoc asked deltas end) in
            rw (e, answer_events) (subst (InTools budget) (sym regrouped) all)
      ]

  -- How a run ends after the loop.
  abbrev closing_of : Option (Text × ℕ) → List (Happening V)
  closing_of none = internal_error around kb subject
  closing_of (some (a, n)) =
      if around.answer_lost
      then internal_error around kb subject
      else stores a ∷ yields (done_event n) ∷ []

  closing_of-Fits : (budget : ℕ) → Fits budget closing_of
  closing_of-Fits budget = elim (Bool-cases around.answer_lost) [
    | inl e ↦ (tt, (λ a n. rw e tt), (λ a n seen m. rw e tt))
    | inr e ↦ (tt, (λ a n. rw e tt), (λ a n seen m. rw e (m, tt)))
  ]

  closing_lost :
      (a : Text) (n : ℕ)
      → around.answer_lost ≡ true
      → closing_of (some (a, n)) ≡ internal_error around kb subject
  closing_lost a n e = rw e refl

  closing_kept :
      (a : Text) (n : ℕ)
      → around.answer_lost ≡ false
      → closing_of (some (a, n)) ≡ stores a ∷ yields (done_event n) ∷ []
  closing_kept a n e = rw e refl

  converse-IsAgentRun :
      (settings : AgentSettings) (id : String) (query context : Text) (now : ℕ) (db : ChatDb)
      → IsAgentRun
          (max 1 settings.agent_max_iterations)
          (converse around kb subject settings id query context now db).0
  unfolding converse
  converse-IsAgentRun settings id query context now db =
      let budget = max 1 settings.agent_max_iterations in
      let messages = first_messages around kb subject query context in
      let (happened, answered) = answer_events around kb subject budget messages in
      let all = answer_events-InTools budget messages closing_of (closing_of-Fits budget) in
      elim (Option-cases around.bind_tools) [
        | inr (e, failed) ↦ rw (failed, converse) tt
        | inl bound ↦ elim (Option-cases answered) [
          | inl e ↦
              rw (bound, converse, e) (subst (λ o. InTools budget (happened ++ closing_of o)) e all)
          | inr ((a, n), e) ↦
              let ending = subst (λ o. InTools budget (happened ++ closing_of o)) e all in
              elim (Bool-cases around.answer_lost) [
                | inl lost ↦
                    rw (bound, converse, e, lost)
                      (subst (λ c. InTools budget (happened ++ c)) (closing_lost a n lost) ending)
                | inr kept ↦
                    rw (bound, converse, e, kept)
                      (subst (λ c. InTools budget (happened ++ c)) (closing_kept a n kept) ending)
              ]
        ]
      ]

  -- The happenings of a run of the agent, whatever the model, the tools and the clock do: one error
  -- event, or `meta`, then calls of the model and of tools, each tool call of a step below the
  -- budget, then the pieces of the answer, and at the end either one error event or the stored
  -- answer and `done`, the answer being what was streamed, if anything was. Nothing follows an
  -- error or `done`, and the answer is stored before `done`.
  pub run-IsAgentRun :
      (settings : AgentSettings) (query : Text) (conversation_id : Option String) (now : ℕ)
      (db : ChatDb)
      → IsAgentRun
          (max 1 settings.agent_max_iterations)
          (run around kb subject settings query conversation_id now db).0
  unfolding run
  run-IsAgentRun settings query conversation_id now db =
      let (started, setup) =
        conversation_setup around.parse_uuid around.fresh_id kb query conversation_id now db in
      elim (Bool-cases settings.agent_enabled) [
        | inr off ↦ rw (off, run) tt
        | inl on ↦ elim (Result-cases setup) [
          | inl (e, failed) ↦ rw (on, run, failed) tt
          | inr ((id, context), r) ↦
              rw (on, run, r) (converse-IsAgentRun settings id query context now started)
        ]
      ]
