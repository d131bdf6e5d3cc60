-- ===== src/Agent/Conversations.antt =====
-- app/storage/postgres/repositories/conversation.py, and `_conversation_setup` and `_persist` of
-- app/agent/runner.py: the turns of a conversation, and the text of the last ones.
use lrllm.Prelude.{
  ℕ, String, Text, codes, Option, none, some, List, [], ◌∷◌, ◌++◌, map, select, take, ltb, ◌==◌,
  string_eq, sort_desc, join, is_nonempty, if◌then◌else◌, get_elem?,
}
use lrllm.Core.Errors.{AppError, Result, ok, err}

pub data Speaker : Type 0 where
  user assistant : Speaker

-- `ConversationRow`
pub record ConversationRow : Type 0 where
  pub id : String
  pub knowledge_base_id : String

-- `ConversationMessageRow`
pub record ChatTurn : Type 0 where
  pub conversation_id : String
  pub role : Speaker
  pub content : Text
  pub answer_id : Option String
  pub created_at : ℕ

pub record ChatDb : Type 0 where
  pub conversations : List ConversationRow
  pub messages : List ChatTurn

-- `ConversationRepository.create`; the database gives the id.
unfoldable pub create_conversation : String → String → ChatDb → ChatDb
create_conversation id kb db = record db {
  conversations = record { id = id; knowledge_base_id = kb } ∷ db.conversations;
}

-- `ConversationRepository.get`
unfoldable pub get_conversation : String → ChatDb → Option ConversationRow
get_conversation id db = get_elem? (select (λ c. c.id == id) db.conversations) 0

-- `ConversationRepository.add_message`
unfoldable pub add_message : String → Speaker → Text → Option String → ℕ → ChatDb → ChatDb
add_message id role content answer_id now db = record db {
  messages =
      record {
        conversation_id = id;
        role = role;
        content = content;
        answer_id = answer_id;
        created_at = now;
      }
      ∷ db.messages;
}

abbrev pub reverse_onto {ℓ} : {A : Type ℓ} → List A → List A → List A
reverse_onto acc [] = acc
reverse_onto acc (x ∷ xs) = reverse_onto (x ∷ acc) xs

-- `ConversationRepository.recent_messages`; 10 is the default limit.
unfoldable pub recent_messages : String → ChatDb → List ChatTurn
recent_messages id db = reverse_onto [] (
    take 10 (
      sort_desc (λ a b. ltb b a) (λ m. m.created_at)
        (select (λ m. m.conversation_id == id) db.messages)))

abbrev pub speaker : Speaker → Text
speaker user = codes "用户"
speaker assistant = codes "助手"

-- The text of the history.
abbrev pub context_text : List ChatTurn → Text
context_text history =
    let text = join (codes "\n") (map (λ m. speaker m.role ++ (codes ": " ++ m.content)) history) in
    if is_nonempty text then text else codes "（无）"

abbrev pub conversation_not_found : AppError
conversation_not_found = record { code = "CONVERSATION_NOT_FOUND"; stage = none; http_status = 404 }

-- What `assert_same_kb` raises.
abbrev pub not_found : AppError
not_found = record { code = "NOT_FOUND"; stage = none; http_status = 404 }

-- What `parse_uuid` of app/core/ids.py raises.
abbrev pub invalid_id : AppError
invalid_id = record { code = "INVALID_ID"; stage = none; http_status = 400 }

-- `_conversation_setup`: the tables afterwards, and the conversation with its context. A
-- conversation that is given must be of this knowledge base; an exception leaves the tables. The
-- UUID that a text names is a text in the standard form, if there is one.
unfoldable pub conversation_setup :
    (String → Option String)
    → String
    → String
    → Text
    → Option String
    → ℕ
    → ChatDb
    → ChatDb × Result (String × Text)
unfolding create_conversation get_conversation add_message recent_messages
conversation_setup parse_uuid fresh kb query none now db = elim (parse_uuid kb) [
  | none ↦ (db, err invalid_id)
  | some own ↦ (
    add_message fresh user query none now (create_conversation fresh own db),
    ok (fresh, context_text []),
  )
]
conversation_setup parse_uuid fresh kb query (some given) now db = elim (parse_uuid given) [
  | none ↦ (db, err invalid_id)
  | some id ↦ elim (get_conversation id db) [
    | none ↦ (db, err conversation_not_found)
    | some existing ↦ elim (parse_uuid kb) [
      | none ↦ (db, err invalid_id)
      | some own ↦
          if existing.knowledge_base_id == own
          then (
            add_message id user query none now db,
            ok (id, context_text (recent_messages id db)),
          )
          else (db, err not_found)
    ]
  ]
]
