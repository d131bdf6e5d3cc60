-- ===== src/Agent/Messages.antt =====
-- app/agent/runner.py and adapters.py: the messages of a chat, what is read off a response, and the
-- arguments of a tool call. `json.loads`, `str.strip` and the label of a call are library code.
use lrllm.Prelude.{
  ℕ, String, Text, codes, Option, none, some, List, [], ◌∷◌, ◌++◌, take, length, leb, name_nonempty,
  if◌then◌else◌,
}

-- An element of a content that is a list: a string, a block of type text, or any other.
pub data Block : Type 0 where
  string_block : Text → Block
  text_block : Text → Block
  other_block : Block

-- `.content` of a message: a string, a list of blocks, or what `str` makes of anything else.
pub data Content : Type 0 where
  plain : Text → Content
  blocks : List Block → Content
  other_content : Text → Content

abbrev pub block_text : Block → Text
block_text (string_block t) = t
block_text (text_block t) = t
block_text other_block = []

-- `"".join(parts)`
abbrev pub concat : List Text → Text
concat [] = []
concat (t ∷ ts) = t ++ concat ts

abbrev pub block_texts : List Block → List Text
block_texts [] = []
block_texts (b ∷ bs) = block_text b ∷ block_texts bs

-- `_message_text`
unfoldable pub message_text : Content → Text
message_text (plain t) = t
message_text (blocks bs) = concat (block_texts bs)
message_text (other_content t) = t

-- What `json.loads` gives: an object, or another value.
pub data JsonValue (V : Type 0) : Type 0 where
  object : List (String × V) → JsonValue V
  value : V → JsonValue V

-- The arguments of a call as they come: a dict, a string, or anything else.
pub data RawArguments (V : Type 0) : Type 0 where
  given_dict : List (String × V) → RawArguments V
  given_string : Text → RawArguments V
  given_other : RawArguments V

pub record Call (V : Type 0) : Type 0 where
  pub name : Option String
  pub args : RawArguments V
  pub id : Option String

-- A response of the model; its calls stand in one of two attributes.
pub record Response (V : Type 0) : Type 0 where
  pub content : Content
  pub tool_calls : List (Call V)
  pub additional_calls : List (Call V)

pub data ChatMessage (V : Type 0) : Type 0 where
  system : Text → ChatMessage V
  human : Text → ChatMessage V
  ai : Response V → ChatMessage V
  tool_result : String → Text → ChatMessage V

-- The library code that reads the arguments of calls; `loads` gives none on a decoding error.
pub record ArgumentOps (V : Type 0) : Type 0 where
  pub loads : Text → Option (JsonValue V)
  pub of_text : Text → V
  pub call_label : ℕ → String

-- `x or y` of a name that may be missing.
abbrev pub name_or : Option String → String → String
name_or none y = y
name_or (some x) y = if name_nonempty x then x else y

module _ {V : Type 0} where
  -- `_tool_calls_of`
  unfoldable pub tool_calls_of : Response V → List (Call V)
  tool_calls_of r = elim r.tool_calls [ [] ↦ r.additional_calls | c ∷ cs ↦ c ∷ cs ]

  -- `safe_parse_arguments`
  unfoldable pub safe_parse_arguments : ArgumentOps V → RawArguments V → List (String × V)
  safe_parse_arguments ops (given_dict d) = d
  safe_parse_arguments ops (given_string t) = elim (ops.loads t) [
    | none ↦ ("_raw", ops.of_text t) ∷ []
    | some j ↦ elim j [ object d ↦ d | value v ↦ ("_value", v) ∷ [] ]
  ]
  safe_parse_arguments ops given_other = []

  -- `_parse_call`
  unfoldable pub parse_call : ArgumentOps V → Call V → ℕ → String × List (String × V) × String
  unfolding safe_parse_arguments
  parse_call ops call index = (
    name_or call.name "",
    safe_parse_arguments ops call.args,
    name_or call.id (ops.call_label index),
  )

-- `_MAX_TOOL_RESULT_CHARS`
abbrev pub max_tool_result_chars : ℕ
max_tool_result_chars = 8000

-- `_truncate`
unfoldable pub truncate : Text → Text
truncate text =
    if leb (length text) max_tool_result_chars
    then text
    else take max_tool_result_chars text ++ codes "\n...(内容过长已截断)"
