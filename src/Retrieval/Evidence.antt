-- ===== src/Retrieval/Evidence.antt =====
-- app/retrieval/evidence.py: whether the chunks answer the question. The prompt and its rendering
-- are outside code.
use lrllm.Prelude.{
  ℕ, ◌≤◌, ◌≡◌, refl, ◌⊎◌, inl, inr, Bool, true, String, Text, List, [], ◌∷◌, map, select, length,
  elem, string_eq, ℕ_eq, All, arith, Bool-cases,
}
use lrllm.Core.Errors.{evidence_check}
use lrllm.Llm.Parsing.{
  Attempt, done, app_error, crashed, Message, JsonOps, generate_json, IsAnswer,
  generate_json-IsAnswer,
}
use lrllm.Retrieval.Models.{EvidenceStatus, insufficient, EvidenceResult, RankedChunk}

-- `EvidenceCheckOutput`
pub record EvidenceCheckOutput : Type 0 where
  pub status : EvidenceStatus
  pub reason : String
  pub supporting_chunk_ids : List String

abbrev pub insufficient_for : String → EvidenceResult
insufficient_for reason = record {
  status = insufficient;
  reason = reason;
  supporting_chunk_ids = [];
}

abbrev pub chunk_ids : {F : Type 0} → List (RankedChunk F) → List String
chunk_ids = map (λ c. c.chunk_id)

-- The lines of `check` from the output of the model on.
unfoldable pub judge : List String → Attempt EvidenceCheckOutput → Attempt EvidenceResult
judge known crashed = crashed
judge known (app_error e) =
    done (insufficient_for "evidence check output invalid; conservative fallback")
judge known (done output) = done (record {
  status = output.status;
  reason = output.reason;
  supporting_chunk_ids = select (λ cid. elem cid known) output.supporting_chunk_ids;
})

abbrev pub calls_allowed : {F : Type 0} → List (RankedChunk F) → ℕ
calls_allowed [] = 0
calls_allowed (c ∷ cs) = 2

module _ {F J : Type 0} (ops : JsonOps J EvidenceCheckOutput) (llm : List Message → Attempt Text)
    (render : String → List (RankedChunk F) → Attempt Text) where
  -- `EvidenceChecker.check`, with the calls of the model.
  unfoldable pub check :
      String → List (RankedChunk F) → Attempt EvidenceResult × List (List Message)
  unfolding generate_json judge
  check query [] = (done (insufficient_for "no evidence retrieved"), [])
  check query (c ∷ cs) = elim (render query (c ∷ cs)) [
    | crashed ↦ (crashed, [])
    | app_error e ↦ (app_error e, [])
    | done rendered ↦
        let messages : List Message = record { role = "system"; content = rendered } ∷ [] in
        let output = generate_json ops llm messages evidence_check in
        (judge (chunk_ids (c ∷ cs)) output.0, output.1)
  ]

  -- What a caller may rely on in a result: it names only chunks that were given, and it is
  -- INSUFFICIENT unless it has the status of a validated answer of the model.
  abbrev pub IsJudgement : List String → Attempt EvidenceResult → Type 0
  IsJudgement known crashed = Unit
  IsJudgement known (app_error e) = Unit
  IsJudgement known (done r) =
      All (λ id. elem id known ≡ true) r.supporting_chunk_ids
      × ((r.status ≡ insufficient)
          ⊎ ((output : EvidenceCheckOutput) × IsAnswer ops llm (done output)
              × (r.status ≡ output.status)))

  select-All : (p : String → Bool) (ids : List String) → All (λ id. p id ≡ true) (select p ids)
  select-All p [] = tt
  select-All p (id ∷ ids) = elim (Bool-cases (p id)) [
    | inl keep ↦ rw keep (keep, select-All p ids)
    | inr drop ↦ rw drop (select-All p ids)
  ]

  judge-IsJudgement :
      (known : List String) (o : Attempt EvidenceCheckOutput)
      → IsAnswer ops llm o
      → IsJudgement known (judge known o)
  unfolding judge
  judge-IsJudgement known crashed h = tt
  judge-IsJudgement known (app_error e) h = (tt, inl refl)
  judge-IsJudgement known (done o) h =
      (select-All (λ cid. elem cid known) o.supporting_chunk_ids, inr (o, h, refl))

  rendered-IsJudgement :
      (known : List String) (messages : List Message)
      → let output = generate_json ops llm messages evidence_check in
        IsJudgement known (judge known output.0) × (length output.1 ≤ 2)
  rendered-IsJudgement known messages =
      let (answer, low, high) = generate_json-IsAnswer ops llm messages evidence_check in
      (judge-IsJudgement known _ answer, high)

  -- The check of the evidence names only chunks that it was given, says anything but INSUFFICIENT
  -- only on a validated answer of the model, and calls the model at most twice, and not at all
  -- without chunks.
  pub check-IsJudgement :
      (query : String) (chunks : List (RankedChunk F))
      → IsJudgement (chunk_ids chunks) (check query chunks).0
        × (length (check query chunks).1 ≤ calls_allowed chunks)
  unfolding check
  check-IsJudgement query [] = ((tt, inl refl), omega arith)
  check-IsJudgement query (c ∷ cs) = by_prompt (render query (c ∷ cs)) refl
    where
      by_prompt :
          (prompt : Attempt Text)
          → render query (c ∷ cs) ≡ prompt
          → IsJudgement (chunk_ids (c ∷ cs)) (check query (c ∷ cs)).0
            × (length (check query (c ∷ cs)).1 ≤ 2)
      by_prompt crashed h = rw (h, check) (tt, omega arith)
      by_prompt (app_error e) h = rw (h, check) (tt, omega arith)
      by_prompt (done rendered) h = rw (h, check) (rendered-IsJudgement (chunk_ids (c ∷ cs)) _)
