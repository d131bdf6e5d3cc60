-- ===== src/Tools/Examples.antt =====
-- Runs of the gate: a tool of high risk, for a user, for an administrator, and with the audit table
-- down.
use lrllm.Prelude.{
  ℕ, ◌+◌, ◌≤◌, ◌≡◌, refl, Bool, true, false, ◌&&◌, String, codes, none, some, List, [], ◌∷◌, length,
}
use lrllm.Tools.Policy.{Subject, PolicySettings, evaluate, evaluate_lem, may_act, risk_or_low}
use lrllm.Tools.Gate.{
  ToolSpec, Outside, answers, anonymous, entry_of, execute_with_policy, safe_args,
  approval_required, audit_unavailable,
}
use lrllm.Tools.Guard.{IsGuarded, runs, execute_with_policy-IsGuarded, length-safe_args}

abbrev strict : PolicySettings
strict = record { high_risk_requires_approval = true; default_deny_high_risk = true }

abbrev admin : Subject
admin = record { id = "root"; roles = "user" ∷ "admin" ∷ [] }

abbrev delete_page : ToolSpec ℕ
delete_page = record {
  name = "delete_page";
  properties = "page" ∷ [];
  handler = λ args. answers (codes "done");
  risk_level = "high";
  requires_approval = false;
}

abbrev outside : Bool → Outside ℕ
outside up = record {
  commit = λ entry. up;
  dumps = λ args. some (codes "{}");
  str = λ args. codes "";
}

abbrev arguments : List (String × ℕ)
arguments = ("page", 7) ∷ ("force", 1) ∷ []

user_is_refused :
    (execute_with_policy (outside true) strict delete_page arguments none none).0
    ≡ approval_required "delete_page"
unfolding execute_with_policy
user_is_refused = refl

runs_for_admin :
    runs (execute_with_policy (outside true) strict delete_page arguments (some admin) none).1
    ≡ (("page", 7) ∷ []) ∷ []
unfolding execute_with_policy
runs_for_admin = refl

blocked_unaudited :
    (execute_with_policy (outside false) strict delete_page arguments (some admin) none).0
    ≡ audit_unavailable "delete_page"
unfolding execute_with_policy
blocked_unaudited = refl

execute_with_policy-IsGuarded_example :
    let d = evaluate strict admin "high" false in
    (d.allowed ≡ may_act strict admin (risk_or_low "high") false)
    × IsGuarded
        (outside true)
        delete_page
        arguments
        d
        (entry_of (outside true) delete_page arguments admin none d)
        (execute_with_policy (outside true) strict delete_page arguments (some admin) none).1
execute_with_policy-IsGuarded_example =
    execute_with_policy-IsGuarded (outside true) delete_page arguments strict (some admin) none

evaluate_lem_example :
    let decision = evaluate strict anonymous "high" false in
    (decision.allowed ≡ may_act strict anonymous (risk_or_low "high") false)
    × ((decision.allowed && decision.requires_approval) ≡ false)
    × (decision.risk ≡ risk_or_low "high")
evaluate_lem_example = evaluate_lem strict anonymous "high" false

length-safe_args_example :
    length (safe_args (outside true) arguments) ≤ 2000 + length (codes "...(truncated)")
length-safe_args_example = length-safe_args (outside true) arguments
