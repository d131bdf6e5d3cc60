-- ===== src/Tools/Policy.antt =====
-- app/policy/models.py and app/policy/engine.py: the decision on an action.
use lrllm.Prelude.{
  ◌≡◌, refl, Bool, true, false, not, ◌&&◌, ◌||◌, String, Option, List, arith, elem, ◌==◌, string_eq,
  if◌then◌else◌,
}

-- `Subject`
pub record Subject : Type 0 where
  pub id : String
  pub roles : List String

-- `Subject.is_admin`
abbrev pub is_admin : Subject → Bool
is_admin s = elem "admin" s.roles

-- `Resource`
pub record Resource : Type 0 where
  pub type : String
  pub id : Option String
  pub kb_id : Option String

-- `Decision`
pub record Decision : Type 0 where
  pub allowed : Bool
  pub risk : String
  pub requires_approval : Bool
  pub reason : String

-- The settings that the engine reads.
pub record PolicySettings : Type 0 where
  pub high_risk_requires_approval : Bool
  pub default_deny_high_risk : Bool

-- `tool_risk or "low"`
abbrev pub risk_or_low : String → String
risk_or_low risk = if risk == "" then "low" else risk

-- The branches of `evaluate`, by the risk, whether it is high and whether an administrator asks.
abbrev pub decide : String → Bool → Bool → PolicySettings → Bool → Decision
decide risk high admin settings tool_requires_approval =
    let approved : Decision =
      if tool_requires_approval && not admin
      then record {
        allowed = false;
        risk = risk;
        requires_approval = true;
        reason = "requires approval before execution";
      }
      else record { allowed = true; risk = risk; requires_approval = false; reason = "" } in
    if high && not admin
    then (if settings.high_risk_requires_approval
        then record {
          allowed = false;
          risk = risk;
          requires_approval = true;
          reason = "high-risk action requires approval";
        }
        else if settings.default_deny_high_risk
        then record {
          allowed = false;
          risk = risk;
          requires_approval = false;
          reason = "high-risk action denied by policy";
        }
        else approved)
    else approved

-- `PolicyEngine.evaluate`; the action and the resource do not enter the decision.
unfoldable pub evaluate : PolicySettings → Subject → String → Bool → Decision
evaluate settings subject tool_risk tool_requires_approval =
    let risk = risk_or_low tool_risk in
    decide risk (risk == "high") (is_admin subject) settings tool_requires_approval

-- Whom the policy lets act: an administrator always; anyone else if the tool asks for no approval
-- and, where it is of high risk, both settings on such tools are off.
abbrev pub may_act : PolicySettings → Subject → String → Bool → Bool
may_act settings subject risk tool_requires_approval =
    is_admin subject
    || not tool_requires_approval
      && (not (risk == "high")
          || not settings.high_risk_requires_approval && not settings.default_deny_high_risk)

decide-cases :
    (risk : String) (high admin approval deny needed : Bool)
    → let decision =
        decide risk high admin
          (record { high_risk_requires_approval = approval; default_deny_high_risk = deny })
          needed in
      (decision.allowed ≡ (admin || not needed && (not high || not approval && not deny)))
      × ((decision.allowed && decision.requires_approval) ≡ false)
      × (decision.risk ≡ risk)
decide-cases risk false false approval deny false = (refl, refl, refl)
decide-cases risk false false approval deny true = (refl, refl, refl)
decide-cases risk false true approval deny needed = ground arith
decide-cases risk true false true deny needed = ground arith
decide-cases risk true false false true needed = ground arith
decide-cases risk true false false false needed = ground arith
decide-cases risk true true approval deny needed = ground arith

module _ (settings : PolicySettings) (subject : Subject) (tool_risk : String)
    (needs_approval : Bool) where
  -- The engine allows an action exactly if the acting subject is an administrator, or if the tool
  -- asks for no approval and is not of high risk or the settings let anyone use such tools; and
  -- it never allows what it says needs an approval; the risk that it reports is that of the tool.
  pub evaluate_lem :
      let decision = evaluate settings subject tool_risk needs_approval in
      (decision.allowed ≡ may_act settings subject (risk_or_low tool_risk) needs_approval)
      × ((decision.allowed && decision.requires_approval) ≡ false)
      × (decision.risk ≡ risk_or_low tool_risk)
  unfolding evaluate
  evaluate_lem =
      decide-cases (risk_or_low tool_risk) (risk_or_low tool_risk == "high") (is_admin subject)
        settings.high_risk_requires_approval settings.default_deny_high_risk needs_approval
