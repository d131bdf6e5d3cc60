-- ===== src/Agent/Runner/Turns.antt =====
-- The turns that a run of the agent adds to the conversations.
use lrllm.Prelude.{
  ℕ, max, ◌≡◌, refl, sym, subst, ap, ◌∙◌, ◌⊎◌, inl, inr, String, Text, Option, none, some, List, [],
  ◌∷◌, ◌++◌, All, get_elem?-select, ◌==◌, string_eq, eq_self, Bool-cases, Option-cases,
}
use lrllm.Core.Errors.{Result, ok, err}
use lrllm.Tools.Policy.{Subject}
use lrllm.Agent.Conversations.{
  user, assistant, ConversationRow, ChatTurn, ChatDb, create_conversation, get_conversation,
  add_message, conversation_setup,
}
use lrllm.Agent.Runner.{AgentSettings, Surroundings, answer_events, first_messages, converse, run}
use lrllm.Agent.Runner.Events.{Result-cases}

-- Turns were added to one conversation, which is one of the knowledge base.
abbrev pub AddsTurns : Option String → ChatDb → ChatDb → Type 0
AddsTurns kb db after =
    (c : ConversationRow) × (get_conversation c.id after ≡ some c)
    × (kb ≡ some c.knowledge_base_id)
    × (turns : List ChatTurn) × (after.messages ≡ turns ++ db.messages)
    × All (λ m. m.conversation_id ≡ c.id) turns

-- What a set-up leaves: the tables as they were, or a turn in the conversation that it returns.
abbrev IsSetUp : Option String → ChatDb → ChatDb → Result (String × Text) → Type 0
IsSetUp kb db after (err e) = after ≡ db
IsSetUp kb db after (ok (id, context)) = (a : AddsTurns kb db after) × (a.0.id ≡ id)

conversation_setup-IsSetUp :
    (parse_uuid : String → Option String) (fresh kb : String) (query : Text)
    (conversation_id : Option String) (now : ℕ) (db : ChatDb)
    → let (after, r) = conversation_setup parse_uuid fresh kb query conversation_id now db in
      IsSetUp (parse_uuid kb) db after r
unfolding conversation_setup create_conversation get_conversation add_message
conversation_setup-IsSetUp parse_uuid fresh kb query none now db =
    elim (Option-cases (parse_uuid kb)) [
      | inl k ↦ rw (k, conversation_setup) refl
      | inr (own, k) ↦
          let c : ConversationRow = record { id = fresh; knowledge_base_id = own } in
          rw (k, conversation_setup)
            ((c, rw (eq_self fresh) refl, refl, _ ∷ [], refl, (refl, tt)), refl)
    ]
conversation_setup-IsSetUp parse_uuid fresh kb query (some given) now db =
    elim (Option-cases (parse_uuid given)) [
      | inl g ↦ rw (g, conversation_setup) refl
      | inr (id, g) ↦ elim (Option-cases (get_conversation id db)) [
        | inl e ↦ rw (g, conversation_setup, e) refl
        | inr (c, e) ↦ elim (Option-cases (parse_uuid kb)) [
          | inl k ↦ rw (g, conversation_setup, e, k) refl
          | inr (own, k) ↦ elim (Bool-cases (c.knowledge_base_id == own)) [
            | inr other ↦ rw (g, conversation_setup, e, k, other) refl
            | inl is_own ↦
                let same : c.id ≡ id =
                  (string_eq.same_iff c.id id).0
                    (get_elem?-select (λ x. x.id == id) db.conversations c e) in
                let here : get_conversation c.id (add_message id user query none now db) ≡ some c =
                  ap (λ i. get_conversation i db) same ∙ e in
                let its_kb = (string_eq.same_iff c.knowledge_base_id own).0 is_own in
                rw (g, conversation_setup, e, k, is_own)
                  ((c, here, ap some (sym its_kb), _ ∷ [], refl, (sym same, tt)), same)
          ]
        ]
      ]
    ]

AddsTurns-add :
    (kb : Option String) (db mid : ChatDb) (id : String) (a : Text) (answer_id : Option String)
    (now : ℕ) (h : AddsTurns kb db mid)
    → h.0.id ≡ id
    → AddsTurns kb db (add_message id assistant a answer_id now mid)
unfolding add_message get_conversation
AddsTurns-add kb db mid id a answer_id now (c, here, its_kb, turns, more, all) same =
    let turn : ChatTurn = record {
      conversation_id = id;
      role = assistant;
      content = a;
      answer_id = answer_id;
      created_at = now;
    } in
    (c, here, its_kb, turn ∷ turns, ap (◌∷◌ turn) more, (sym same, all))

module _ {V : Type 0} (around : Surroundings V) (kb : String) (subject : Option Subject) where
  converse-turns :
      (settings : AgentSettings) (id : String) (query context : Text) (now : ℕ) (db : ChatDb)
      → let after = (converse around kb subject settings id query context now db).1 in
        (after ≡ db)
        ⊎ ((a : Text) × (after ≡ add_message id assistant a (some around.answer_id) now db))
  unfolding converse
  converse-turns settings id query context now db =
      let budget = max 1 settings.agent_max_iterations in
      let messages = first_messages around kb subject query context in
      let (happened, answered) = answer_events around kb subject budget messages in
      elim (Option-cases around.bind_tools) [
        | inr (e, failed) ↦ inl (rw (failed, converse) refl)
        | inl bound ↦ elim (Option-cases answered) [
          | inl e ↦ inl (rw (bound, converse, e) refl)
          | inr ((a, n), e) ↦ elim (Bool-cases around.answer_lost) [
            | inl lost ↦ inl (rw (bound, converse, e, lost) refl)
            | inr kept ↦ inr (a, rw (bound, converse, e, kept) refl)
          ]
        ]
      ]

  -- A run of the agent leaves the conversations and their turns as they were, or adds turns to one
  -- conversation, which belongs to the knowledge base whose UUID the caller named.
  pub run-AddsTurns :
      (settings : AgentSettings) (query : Text) (conversation_id : Option String) (now : ℕ)
      (db : ChatDb)
      → let after = (run around kb subject settings query conversation_id now db).1 in
        (after ≡ db) ⊎ AddsTurns (around.parse_uuid kb) db after
  unfolding run
  run-AddsTurns settings query conversation_id now db =
      let (started, setup) =
        conversation_setup around.parse_uuid around.fresh_id kb query conversation_id now db in
      let is_set =
        conversation_setup-IsSetUp around.parse_uuid around.fresh_id kb query conversation_id now
          db in
      elim (Bool-cases settings.agent_enabled) [
        | inr off ↦ inl (rw (off, run) refl)
        | inl on ↦ elim (Result-cases setup) [
          | inl (e, failed) ↦ inl (
              rw (on, run, failed)
                (subst (IsSetUp (around.parse_uuid kb) db started) failed is_set))
          | inr ((id, context), r) ↦
              let (adds, same) = subst (IsSetUp (around.parse_uuid kb) db started) r is_set in
              let goes_on : (run around kb subject settings query conversation_id now db).1
                  ≡ (converse around kb subject settings id query context now started).1 =
                rw (on, run, r) refl in
              elim (converse-turns settings id query context now started) [
                | inl e ↦ inr (subst (AddsTurns (around.parse_uuid kb) db) (sym (goes_on ∙ e)) adds)
                | inr (a, e) ↦ inr (
                    subst (AddsTurns (around.parse_uuid kb) db) (sym (goes_on ∙ e)) (
                      AddsTurns-add (around.parse_uuid kb) db started id a (some around.answer_id)
                        now adds same))
              ]
        ]
      ]
