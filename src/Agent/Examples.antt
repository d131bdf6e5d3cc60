-- ===== src/Agent/Examples.antt =====
-- Runs of the agent: a model that searches once and then answers, and one that never stops.
use lrllm.Prelude.{
  ℕ, ◌≤◌, ◌≡◌, refl, ◌⊎◌, Bool, true, false, String, codes, none, some, List, [], ◌∷◌, length, ltb,
  is_nonempty, not, if◌then◌else◌,
}
use lrllm.Core.Errors.{Outcome, returned}
use lrllm.Tools.Gate.{ToolSpec, answers, ran}
use lrllm.Agent.Messages.{plain, given_dict, Response, ChatMessage}
use lrllm.Agent.Conversations.{ChatDb}
use lrllm.Agent.Runner.{
  Happening, meta_event, tool_call_event, delta_event, done_event, error_event, yields, asks, acts,
  stores, AgentSettings, Surroundings, run,
}
use lrllm.Agent.Runner.Events.{IsAgentRun, run-IsAgentRun}
use lrllm.Agent.Runner.Bounds.{asked, asked-run}
use lrllm.Agent.Runner.Turns.{AddsTurns, run-AddsTurns}

abbrev search_tool : ToolSpec ℕ
search_tool = record {
  name = "search";
  properties = "q" ∷ [];
  handler = λ args. answers (codes "found");
  risk_level = "low";
  requires_approval = false;
}

abbrev searches : Response ℕ
searches = record {
  content = plain [];
  tool_calls =
      record { name = some "search"; args = given_dict (("q", 1) ∷ []); id = some "c" } ∷ [];
  additional_calls = [];
}

abbrev speaks : String → Response ℕ
speaks text = record { content = plain (codes text); tool_calls = []; additional_calls = [] }

-- A model that searches while the chat is shorter than a limit.
abbrev patient : ℕ → List (ChatMessage ℕ) → Outcome (Response ℕ)
patient limit messages =
    returned (if ltb (length messages) limit then searches else speaks "answer")

abbrev around : ℕ → (ℕ → Bool) → Surroundings ℕ
around limit is_late = record {
  specs = search_tool ∷ [];
  bind_tools = none;
  outside = record {
    commit = λ entry. true;
    dumps = λ args. some (codes "{}");
    str = λ args. codes "";
  };
  policy = record { high_risk_requires_approval = true; default_deny_high_risk = true };
  model = record {
    invoke = patient limit;
    invoke_plain = λ messages. returned (speaks "");
    stream = λ messages. (plain (codes "str") ∷ plain [] ∷ plain (codes "eam") ∷ [], false);
  };
  ops = record { loads = λ t. none; of_text = λ t. 0; call_label = λ n. "call" };
  is_late = is_late;
  reply_text = λ r. codes "reply";
  unknown_tool_text = λ name names. codes "unknown";
  system_prompt = λ specs. codes "prompt";
  is_blank = λ t. not (is_nonempty t);
  parse_uuid = some;
  fresh_id = "conv";
  answer_id = "ans";
  answer_lost = false;
}

abbrev settings : AgentSettings
settings = record { agent_enabled = true; agent_max_iterations = 2 }

abbrev empty : ChatDb
empty = record { conversations = []; messages = [] }

abbrev ask : Surroundings ℕ → List (Happening ℕ) × ChatDb
ask around = run around "kb" none settings (codes "question") none 5 empty

abbrev called : ℕ → List (Happening ℕ)
called step =
    asks ∷ acts (ran (("q", 1) ∷ [])) ∷ yields (tool_call_event step "search" (("q", 1) ∷ [])) ∷ []

answers_after_search :
    (ask (around 4 (λ step. false))).0
    ≡ yields (meta_event ("search" ∷ []) 2)
      ∷ asks
      ∷ acts (ran (("q", 1) ∷ []))
      ∷ yields (tool_call_event 0 "search" (("q", 1) ∷ []))
      ∷ asks
      ∷ yields (delta_event (codes "answer"))
      ∷ stores (codes "answer")
      ∷ yields (done_event 1)
      ∷ []
unfolding run
answers_after_search = refl

-- The time budget was used up: the code of the exception is lost, since the constructor of `AppError`
-- asks a plain string for its `value`.
late_is_internal :
    (ask (around 4 (λ step. true))).0
    ≡ yields (meta_event ("search" ∷ []) 2) ∷ yields (error_event "INTERNAL_ERROR") ∷ []
unfolding run
late_is_internal = refl

asks_at_most : asked (ask (around 90 (λ step. false))).0 ≡ 4
unfolding run
asks_at_most = refl

run-IsAgentRun_example : IsAgentRun 2 (ask (around 4 (λ step. false))).0
run-IsAgentRun_example =
    run-IsAgentRun (around 4 (λ step. false)) "kb" none settings (codes "question") none 5 empty

asked-run_example : asked (ask (around 90 (λ step. false))).0 ≤ 4
asked-run_example =
    asked-run (around 90 (λ step. false)) "kb" none settings (codes "question") none 5 empty

run-AddsTurns_example :
    ((ask (around 4 (λ step. false))).1 ≡ empty)
    ⊎ AddsTurns (some "kb") empty (ask (around 4 (λ step. false))).1
run-AddsTurns_example =
    run-AddsTurns (around 4 (λ step. false)) "kb" none settings (codes "question") none 5 empty
