-- ===== src/Tools/Guard.antt =====
-- What the gate guarantees of every call.
use lrllm.Prelude.{
  ◌+◌, ◌≤◌, ◌≡◌, refl, Bool, true, false, not, ◌&&◌, ◌||◌, String, Text, codes, Option, List, [],
  ◌∷◌, select, take, length, length-take, length-append, ltb, elem, ◌==◌, string_eq, if◌then◌else◌,
  get_or, arith, Bool-cases, inl, inr,
}
use lrllm.Tools.Policy.{
  Subject, Decision, PolicySettings, evaluate, evaluate_lem, may_act, risk_or_low,
}
use lrllm.Tools.Gate.{
  Effect, audited, counted, ran, ToolSpec, Outside, AuditEntry, Reply, safe_args, truncated, kwargs,
  invoke_spec_handler, entry_of, after_audit, carry_out, execute_with_policy, anonymous,
  approval_required, policy_denied, audit_unavailable,
}

module _ {V : Type 0} where
  -- The argument lists that the handler was run with.
  abbrev pub runs : List (Effect V) → List (List (String × V))
  runs [] = []
  runs (audited e b ∷ es) = runs es
  runs (counted n ∷ es) = runs es
  runs (ran args ∷ es) = args ∷ runs es

  -- The audit records that were tried, with whether each was committed.
  abbrev pub audits : List (Effect V) → List (AuditEntry × Bool)
  audits [] = []
  audits (audited e b ∷ es) = (e, b) ∷ audits es
  audits (counted n ∷ es) = audits es
  audits (ran args ∷ es) = audits es

  -- No handler runs before an audit.
  abbrev pub AuditsFirst : List (Effect V) → Type 0
  AuditsFirst [] = Unit
  AuditsFirst (audited e b ∷ es) = AuditsFirst es
  AuditsFirst (counted n ∷ es) = AuditsFirst es
  AuditsFirst (ran args ∷ es) = audits es ≡ []

  module _ (out : Outside V) (spec : ToolSpec V) (arguments : List (String × V)) where
    -- The effects of a call on which the policy decided `d`.
    pub record IsGuarded (d : Decision) (entry : AuditEntry) (effects : List (Effect V))
        : Type 0 where
      pub audit :
          audits effects
          ≡ (if not (d.risk == "low") || not d.allowed then (entry, out.commit entry) ∷ [] else [])
      pub run : runs effects ≡ (
          if d.allowed && (not (d.risk == "high") || out.commit entry)
          then select (λ kv. elem kv.0 spec.properties) arguments ∷ []
          else [])
      pub order : AuditsFirst effects

    not_both : (risk : String) → (risk == "low") ≡ true → (risk == "high") ≡ false
    not_both risk h = rw ((string_eq.same_iff risk "low").0 h) refl

    -- The branches of the gate, by what they test.
    abbrev after : Bool → Bool → Bool → Reply → Reply → Reply × List (Effect V)
    after allowed high ok denial blocked =
        if not allowed
        then (denial, counted "policy_denied_total" ∷ [])
        else if not ok && high
        then (blocked, counted "audit_write_failed_total" ∷ [])
        else invoke_spec_handler spec arguments

    abbrev effects_by : Bool → Bool → Bool → Bool → AuditEntry → Reply → Reply → List (Effect V)
    effects_by allowed low high ok entry denial blocked =
        let unaudited = after allowed high true denial blocked in
        (if not low || not allowed
          then (
            (after allowed high ok denial blocked).0,
            audited entry ok ∷ (after allowed high ok denial blocked).1,
          )
          else unaudited).1

    abbrev one_run : List (List (String × V))
    one_run = select (λ kv. elem kv.0 spec.properties) arguments ∷ []

    by_cases :
        (allowed low high ok : Bool) (entry : AuditEntry) (denial blocked : Reply)
        → (low ≡ true → high ≡ false)
        → let effects = effects_by allowed low high ok entry denial blocked in
          (audits effects ≡ (if not low || not allowed then (entry, ok) ∷ [] else []))
          × (runs effects ≡ (if allowed && (not high || ok) then one_run else []))
          × AuditsFirst effects
    unfolding invoke_spec_handler kwargs
    by_cases false false high ok entry denial blocked h = (refl, refl, tt)
    by_cases false true high ok entry denial blocked h = (refl, refl, tt)
    by_cases true true true ok entry denial blocked h = absurd (cc (h refl))
    by_cases true true false ok entry denial blocked h = (refl, refl, refl)
    by_cases true false false true entry denial blocked h = (refl, refl, refl)
    by_cases true false false false entry denial blocked h = (refl, refl, refl)
    by_cases true false true true entry denial blocked h = (refl, refl, refl)
    by_cases true false true false entry denial blocked h = (refl, refl, tt)

    carry_out-IsGuarded :
        (subject : Subject) (kb : Option String) (d : Decision)
        → IsGuarded d
            (entry_of out spec arguments subject kb d)
            (carry_out out spec arguments subject kb d).1
    unfolding carry_out after_audit
    carry_out-IsGuarded subject kb d =
        let entry = entry_of out spec arguments subject kb d in
        let (audit, run, order) =
          by_cases d.allowed (d.risk == "low") (d.risk == "high") (out.commit entry) entry
            (if d.requires_approval
              then approval_required spec.name
              else policy_denied spec.name d.reason)
            (audit_unavailable spec.name) (not_both d.risk) in
        record { audit = audit; run = run; order = order }

    -- For every call through the gate, whoever makes it: the handler runs at most once, with
    -- only those arguments that the tool declares, and exactly if the policy allows the subject
    -- to act and, for a tool of high risk, the audit row is committed; an audit is tried
    -- exactly if the risk is not low or the policy refuses; and none is tried after a run.
    pub execute_with_policy-IsGuarded :
        (settings : PolicySettings) (subject : Option Subject) (kb : Option String)
        → let subj = get_or subject anonymous in
          let d = evaluate settings subj spec.risk_level spec.requires_approval in
          (d.allowed ≡ may_act settings subj (risk_or_low spec.risk_level) spec.requires_approval)
          × IsGuarded d
              (entry_of out spec arguments subj kb d)
              (execute_with_policy out settings spec arguments subject kb).1
    unfolding execute_with_policy
    execute_with_policy-IsGuarded settings subject kb =
        let subj = get_or subject anonymous in
        let d = evaluate settings subj spec.risk_level spec.requires_approval in
        (
          (evaluate_lem settings subj spec.risk_level spec.requires_approval).0,
          carry_out-IsGuarded subj kb d,
        )

  -- The arguments in an audit row are cut, whatever their size: 2000 characters and the mark.
  pub length-safe_args :
      (out : Outside V) (arguments : List (String × V))
      → length (safe_args out arguments) ≤ 2000 + length (codes "...(truncated)")
  unfolding safe_args
  length-safe_args out arguments = cut (get_or (out.dumps arguments) (out.str arguments))
    where
      cut : (text : Text) → length (truncated 2000 text) ≤ 2000 + length (codes "...(truncated)")
      cut text = elim (Bool-cases (ltb 2000 (length text))) [
        | inl long ↦ rw long (
            omega (
              arith,
              length-append (take 2000 text) (codes "...(truncated)"),
              length-take 2000 text,
            ))
        | inr short ↦ rw short (ground arith)
      ]
