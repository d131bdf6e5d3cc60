-- ===== src/Llm/Parsing.antt =====
-- app/llm/parsing.py: the structured output of a language model, with its one retry. The model, the
-- JSON parser, the schema and the text functions of Python are outside code: they are arguments.
use lrllm.Prelude.{
  ℕ, suc, ◌≤◌, ◌≡◌, refl, Bool, String, Text, codes, Option, none, some, List, [], ◌∷◌, ◌++◌,
  length, take, drop, leb, ◌==◌, ℕ_eq, list_eq, join, if◌then◌else◌, arith, ◌-◌, ◌⊎◌, inl, inr,
  Option-cases,
}
use lrllm.Core.Errors.{AppError, QueryStage}

-- A call that gives a value, raises an `AppError`, or raises anything else.
pub data Attempt {ℓ} (A : Type ℓ) : Type ℓ where
  done : A → Attempt A
  app_error : AppError → Attempt A
  crashed : Attempt A

-- `Message`
pub record Message : Type 0 where
  pub role : String
  pub content : Text

-- What `json.loads` makes of a text: a dict, another value, or a `JSONDecodeError`.
pub data Loaded (J : Type 0) : Type 0 where
  object : J → Loaded J
  other_value : Loaded J
  decode_error : Loaded J

pub record JsonOps (J A : Type 0) : Type 0 where
  pub strip : Text → Text
  pub splitlines : Text → List Text
  pub loads : Text → Loaded J
  pub validate : J → Option A
  pub complaint : Text → Text

abbrev pub fence : Text
fence = codes "```"

-- `text.startswith("```")`
abbrev pub is_fenced : Text → Bool
is_fenced text = take 3 text == fence

-- `text.find(c)`
unfoldable pub find : ℕ → ℕ → Text → Option ℕ
find c i [] = none
find c i (x ∷ xs) = let rest = find c (suc i) xs in if x == c then some i else rest

-- `text.rfind(c)`
unfoldable pub rfind : ℕ → ℕ → Text → Option ℕ
rfind c i [] = none
rfind c i (x ∷ xs) = elim (rfind c (suc i) xs) [
  | some j ↦ some j
  | none ↦ if x == c then some i else none
]

module _ {J A : Type 0} (ops : JsonOps J A) where
  -- `lines[:-1]` if the last line is a bare fence.
  unfoldable pub without_last_fence : List Text → List Text
  without_last_fence [] = []
  without_last_fence (l ∷ []) = if ops.strip l == fence then [] else l ∷ []
  without_last_fence (l ∷ m ∷ ls) = l ∷ without_last_fence (m ∷ ls)

  -- `lines[1:]` if the first line opens a fence.
  abbrev pub without_first_fence : List Text → List Text
  without_first_fence [] = []
  without_first_fence (l ∷ ls) = if is_fenced l then ls else l ∷ ls

  -- The text less its code fence.
  unfoldable pub unfenced : Text → Text
  unfenced raw =
      let text = ops.strip raw in
      if is_fenced text
      then ops.strip
          (join (codes "\n") (without_last_fence (without_first_fence (ops.splitlines text))))
      else text

  abbrev pub only_object : Loaded J → Option J
  only_object (object j) = some j
  only_object other_value = none
  only_object decode_error = none

  -- The parse of the part from the first opening brace to the last closing one.
  unfoldable pub braced : Text → Option J
  braced text = elim (find 123 0 text) [
    | none ↦ none
    | some start ↦ elim (rfind 125 0 text) [
      | none ↦ none
      | some end ↦
          if leb end start
          then none
          else only_object (ops.loads (take (suc end - start) (drop start text)))
    ]
  ]

  -- `_extract_json`; any of its exceptions is `none`.
  unfoldable pub extract_json : Text → Option J
  unfolding unfenced braced find rfind without_last_fence
  extract_json raw =
      let text = unfenced raw in
      elim (ops.loads text) [ object j ↦ some j | other_value ↦ none | decode_error ↦ braced text ]

  -- `model.model_validate(_extract_json(raw))`
  abbrev pub parse : Text → Option A
  parse raw = elim (extract_json raw) [ none ↦ none | some j ↦ ops.validate j ]

  abbrev pub output_invalid : QueryStage → AppError
  output_invalid stage = record {
    code = "LLM_OUTPUT_INVALID";
    stage = some stage;
    http_status = 500;
  }

  -- The messages of the second try.
  abbrev pub retry_messages : List Message → Text → List Message
  retry_messages messages raw =
      messages
      ++ record { role = "assistant"; content = raw }
        ∷ record { role = "user"; content = ops.complaint raw }
        ∷ []

  -- The second try.
  unfoldable pub generate_again :
      (List Message → Attempt Text)
      → List Message
      → QueryStage
      → Text
      → Attempt A × List (List Message)
  generate_again llm messages stage raw =
      let again = retry_messages messages raw in
      (
        elim (llm again) [
          | app_error e ↦ app_error e
          | crashed ↦ crashed
          | done raw_retry ↦ elim (parse raw_retry) [
            | some a ↦ done a
            | none ↦ app_error (output_invalid stage)
          ]
        ],
        again ∷ [],
      )

  -- `generate_json`, with the calls of the model in order.
  unfoldable pub generate_json :
      (List Message → Attempt Text) → List Message → QueryStage → Attempt A × List (List Message)
  unfolding extract_json generate_again
  generate_json llm messages stage =
      let second = λ (raw : Text). generate_again llm messages stage raw in
      elim (llm messages) [
        | app_error e ↦ (app_error e, messages ∷ [])
        | crashed ↦ (crashed, messages ∷ [])
        | done raw ↦ elim (parse raw) [
          | some a ↦ (done a, messages ∷ [])
          | none ↦ ((second raw).0, messages ∷ (second raw).1)
        ]
      ]

  module _ (llm : List Message → Attempt Text) where
    -- A value is what the schema makes of an answer that the model gave.
    abbrev pub IsAnswer : Attempt A → Type 0
    IsAnswer (done a) =
        (messages : List Message) × (raw : Text) × (llm messages ≡ done raw) × (parse raw ≡ some a)
    IsAnswer (app_error e) = Unit
    IsAnswer crashed = Unit

    Attempt-cases :
        (o : Attempt Text)
        → ((raw : Text) × (o ≡ done raw)) ⊎ (((e : AppError) × (o ≡ app_error e)) ⊎ (o ≡ crashed))
    Attempt-cases (done raw) = inl (raw, refl)
    Attempt-cases (app_error e) = inr (inl (e, refl))
    Attempt-cases crashed = inr (inr refl)

    again-IsAnswer :
        (messages : List Message) (stage : QueryStage) (raw : Text)
        → IsAnswer (generate_again llm messages stage raw).0
    unfolding generate_again
    again-IsAnswer messages stage raw =
        let again = retry_messages messages raw in
        elim (Attempt-cases (llm again)) [
          | inr (inr c) ↦ rw c tt
          | inr (inl (e, c)) ↦ rw c tt
          | inl (text, c) ↦ elim (Option-cases (parse text)) [
            | inl bad ↦ rw (c, bad) tt
            | inr (a, good) ↦ rw (c, good) (again, text, c, good)
          ]
        ]

    -- Structured output is never made up: what `generate_json` returns is a validated parse of an
    -- answer of the model, to which it makes one call or two.
    pub generate_json-IsAnswer :
        (messages : List Message) (stage : QueryStage)
        → IsAnswer (generate_json llm messages stage).0
          × (1 ≤ length (generate_json llm messages stage).1)
          × (length (generate_json llm messages stage).1 ≤ 2)
    unfolding generate_json
    generate_json-IsAnswer messages stage = elim (Attempt-cases (llm messages)) [
      | inr (inr c) ↦ rw (c, generate_json) (tt, omega arith, omega arith)
      | inr (inl (e, c)) ↦ rw (c, generate_json) (tt, omega arith, omega arith)
      | inl (raw, c) ↦ elim (Option-cases (parse raw)) [
        | inr (a, good) ↦
            rw (c, good, generate_json) ((messages, raw, c, good), omega arith, omega arith)
        | inl bad ↦
            rw (c, bad, generate_json) (again-IsAnswer messages stage raw, omega arith, omega arith)
      ]
    ]
