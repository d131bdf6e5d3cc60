-- ===== src/Tools/Gate.antt =====
-- app/tracing/audit.py and app/tools/gate.py: the audit record of a decision, and the gate. What a
-- call does to the outside is a list of effects, in order; the audit table, the handler of a tool
-- and the printing of its arguments are outside code.
use lrllm.Prelude.{
  ℕ, Bool, true, not, ◌&&◌, ◌||◌, String, Text, codes, Option, none, some, List, [], ◌∷◌, ◌++◌,
  select, take, length, ltb, elem, ◌==◌, string_eq, if◌then◌else◌, get_or,
}
use lrllm.Tools.Policy.{Subject, Resource, Decision, PolicySettings, evaluate}

-- What a handler does: it answers, it raises a `TypeError`, or another exception by its name.
pub data HandlerOutcome : Type 0 where
  answers : Text → HandlerOutcome
  type_error : HandlerOutcome
  raises : String → HandlerOutcome

-- `ToolSpec`, as far as it is executed; the arguments have values of any type `V`.
pub record ToolSpec (V : Type 0) : Type 0 where
  pub name : String
  pub properties : List String
  pub handler : List (String × V) → HandlerOutcome
  pub risk_level : String
  pub requires_approval : Bool

-- `_decision_label`
unfoldable pub decision_label : Decision → String
decision_label d =
    if d.requires_approval then "approval_required" else if d.allowed then "allowed" else "denied"

-- The row that `record_audit` writes; no caller here gives an approver.
pub record AuditEntry : Type 0 where
  pub subject_id : String
  pub action : String
  pub resource : Resource
  pub risk : String
  pub decision : String
  pub requires_approval : Bool
  pub detail : Text

-- One thing that a call does to the outside.
pub data Effect (V : Type 0) : Type 0 where
  audited : AuditEntry → Bool → Effect V
  counted : String → Effect V
  ran : List (String × V) → Effect V

-- The text that goes back to the model.
pub data Reply : Type 0 where
  approval_required : String → Reply
  policy_denied : String → String → Reply
  audit_unavailable : String → Reply
  bad_arguments : List String → Reply
  handler_error : String → Reply
  answer : Text → Reply

-- The outside of the gate: whether the audit row of an entry can be committed, and `json.dumps`,
-- which may raise, with `str` in its place.
pub record Outside (V : Type 0) : Type 0 where
  pub commit : AuditEntry → Bool
  pub dumps : List (String × V) → Option Text
  pub str : List (String × V) → Text

abbrev pub truncated : ℕ → Text → Text
truncated limit text =
    if ltb limit (length text) then take limit text ++ codes "...(truncated)" else text

-- `ANONYMOUS`
abbrev pub anonymous : Subject
anonymous = record { id = "anonymous"; roles = "user" ∷ [] }

module _ {V : Type 0} where
  -- `_safe_args`
  unfoldable pub safe_args : Outside V → List (String × V) → Text
  safe_args out arguments = truncated 2000 (get_or (out.dumps arguments) (out.str arguments))

  -- `{k: v for k, v in arguments.items() if k in allowed}`
  unfoldable pub kwargs : ToolSpec V → List (String × V) → List (String × V)
  kwargs spec arguments = select (λ kv. elem kv.0 spec.properties) arguments

  -- `invoke_spec_handler`, with its effect.
  unfoldable pub invoke_spec_handler : ToolSpec V → List (String × V) → Reply × List (Effect V)
  invoke_spec_handler spec arguments =
      let args = kwargs spec arguments in
      (
        elim (spec.handler args) [
          | answers text ↦ answer text
          | type_error ↦ bad_arguments spec.properties
          | raises name ↦ handler_error name
        ],
        ran args ∷ [],
      )

  -- The entry that `execute_with_policy` has recorded.
  abbrev pub entry_of :
      Outside V → ToolSpec V → List (String × V) → Subject → Option String → Decision → AuditEntry
  entry_of out spec arguments subject kb d = record {
    subject_id = subject.id;
    action = spec.name;
    resource = record { type = "tool"; id = some spec.name; kb_id = kb };
    risk = d.risk;
    decision = decision_label d;
    requires_approval = d.requires_approval;
    detail = safe_args out arguments;
  }

  -- `execute_with_policy` after the audit: the reply, and the effects from there.
  unfoldable pub after_audit :
      ToolSpec V → List (String × V) → Decision → Bool → Reply × List (Effect V)
  after_audit spec arguments d recorded =
      if not d.allowed
      then (
        if d.requires_approval
            then approval_required spec.name
            else policy_denied spec.name d.reason,
        counted "policy_denied_total" ∷ [],
      )
      else if not recorded && d.risk == "high"
      then (audit_unavailable spec.name, counted "audit_write_failed_total" ∷ [])
      else invoke_spec_handler spec arguments

  -- `execute_with_policy` once the policy has decided.
  unfoldable pub carry_out :
      Outside V
      → ToolSpec V
      → List (String × V)
      → Subject
      → Option String
      → Decision
      → Reply × List (Effect V)
  carry_out out spec arguments subject kb d =
      let entry = entry_of out spec arguments subject kb d in
      let unaudited = after_audit spec arguments d true in
      let after = after_audit spec arguments d (out.commit entry) in
      if not (d.risk == "low") || not d.allowed
      then (after.0, audited entry (out.commit entry) ∷ after.1)
      else unaudited

  -- `execute_with_policy`
  unfoldable pub execute_with_policy :
      Outside V
      → PolicySettings
      → ToolSpec V
      → List (String × V)
      → Option Subject
      → Option String
      → Reply × List (Effect V)
  unfolding evaluate carry_out after_audit invoke_spec_handler kwargs
  execute_with_policy out settings spec arguments subject kb =
      let subj = get_or subject anonymous in
      carry_out out spec arguments subj kb
        (evaluate settings subj spec.risk_level spec.requires_approval)

  -- `make_guarded_handler`: the handler that the business tools are given.
  unfoldable pub guarded_handler :
      Outside V
      → PolicySettings
      → Subject
      → ToolSpec V
      → List (String × V)
      → Reply × List (Effect V)
  guarded_handler out settings subject spec arguments =
      execute_with_policy out settings spec arguments (some subject) none
