-- ===== src/Jobs/Claims.antt =====
-- What a claim does to the table, and that no job is claimed twice.
use mathlib.Core.List.{Nodup}
use mathlib.Core.List.Nodup
use lrllm.Prelude.{
  ℕ, min, ◌≡◌, refl, ◌∙◌, Bool, true, false, not, ◌&&◌, ◌||◌, String, List, [], ◌∷◌, map, select,
  length, arith, elem, ◌==◌, string_eq, All, All-mono, All-unmap, map-cong, elem-All, elem-select,
  elem-select_key, elem-query, Nodup-query, select-OnlyIf, OnlyIf, length-sort_desc, length-take,
  length-map, length-le_of_distinct, select-sublist, map-sublist, ltb, Bool-cases, inl, inr, ◌⊎◌,
  if◌then◌else◌,
}
use lrllm.Jobs.Table.{JobRow, is_due, claimed, lock_due, claim, claim_pending, first_by}

abbrev pub job_ids : List JobRow → List String
job_ids = map (λ r. r.id)

module _ (now : ℕ) (locked : String → Bool) where
  -- A job that a claim may take.
  abbrev pub claimable : JobRow → Bool
  claimable r = is_due now r && not (locked r.id)

  module _ (limit : ℕ) (rows : List JobRow) where
    -- What a claim made of `rows`: the table `after`, and the `ids` that it returned.
    pub record IsClaim (after : List JobRow) (ids : List String) : Type 0 where
      pub count : length ids ≡ min limit (length (select claimable rows))
      pub only_due : All (λ r. (elem r.id ids ≡ false) ⊎ (claimable r ≡ true)) rows
      pub effect : after ≡ map (λ r. if elem r.id ids then claimed now r else r) rows

    abbrev due : List String
    due = lock_due limit now locked rows

    abbrev returned_ids : List String
    returned_ids = job_ids (select (λ r. elem r.id due) rows)

    elem-due : (id : String) → elem id due ≡ true → elem id (job_ids (select claimable rows)) ≡ true
    unfolding lock_due first_by
    elem-due id h = elem-query (λ (r : JobRow). r.id) _ _ id limit claimable rows h

    elem-returned : (id : String) → elem id returned_ids ≡ (elem id (job_ids rows) && elem id due)
    elem-returned id = elem-select_key (λ (r : JobRow). r.id) (λ k. elem k due) id rows

    due-Nodup : Nodup (job_ids rows) → Nodup due
    unfolding lock_due first_by
    due-Nodup d = Nodup-query (λ (r : JobRow). r.id) _ _ limit claimable rows d

    length-due : length due ≡ min limit (length (select claimable rows))
    unfolding lock_due first_by
    length-due =
        length-map _ (λ (r : JobRow). r.id)
        ∙ length-take limit _
        ∙ rw
            (length-sort_desc (λ (r : JobRow). r.id) (λ a b. ltb a b) (λ r. r.created_at)
              (select claimable rows))
            refl

    returned_due : All (λ id. elem id due ≡ true) returned_ids
    returned_due =
        All-mono (λ id h. ground (arith, h, elem-returned id)) returned_ids (elem-All returned_ids)

    due_returned : All (λ id. elem id returned_ids ≡ true) due
    due_returned =
        All-mono
          (λ id h. ground (
            arith,
            h,
            elem-returned id,
            elem-select (λ (r : JobRow). r.id) id claimable rows (elem-due id h),
          ))
          due (elem-All due)

    length-returned : Nodup (job_ids rows) → length returned_ids ≡ length due
    length-returned d =
        let distinct =
          Nodup.sublist
            (map-sublist (λ (r : JobRow). r.id) (select-sublist (λ r. elem r.id due) rows)) d in
        omega (
          arith,
          length-le_of_distinct returned_ids due distinct returned_due,
          length-le_of_distinct due returned_ids (due-Nodup d) due_returned,
        )

    returned_same : All (λ r. elem r.id due ≡ elem r.id returned_ids) rows
    returned_same =
        All-mono (λ r h. ground (arith, h, elem-returned r.id)) rows
          (All-unmap (λ id. elem id (job_ids rows) ≡ true) (λ r. r.id) rows
            (elem-All (job_ids rows)))

    returned_only :
        (r : JobRow)
        → OnlyIf (λ r. r.id) claimable rows r
        → (elem r.id returned_ids ≡ false) ⊎ (claimable r ≡ true)
    returned_only r (inr c) = inr c
    returned_only r (inl fresh) = elim (Bool-cases (elem r.id returned_ids)) [
      | inr new ↦ inl new
      | inl old ↦ absurd (ground (arith, old, elem-returned r.id, elem-due r.id, fresh))
    ]

    -- In a table without two rows of one id, a claim returns as many jobs as are due and not locked
    -- by others, up to the limit; it returns no other job; and it marks exactly the jobs that it
    -- returns as running since now, and leaves every other row as it is.
    pub claim_pending_lem :
        Nodup (job_ids rows)
        → IsClaim (claim_pending limit now locked rows).0 (claim_pending limit now locked rows).1
    unfolding claim_pending claim
    claim_pending_lem d = record {
      count = length-returned d ∙ length-due;
      only_due = All-mono returned_only rows (select-OnlyIf (λ r. r.id) claimable rows d);
      effect = map-cong _ _ rows (All-mono (λ r h. rw h refl) rows returned_same);
    }

module _ (now : ℕ) (due : List String) (q : JobRow → Bool)
    (skips : (r : JobRow) → q (claimed now r) ≡ false) where
  not_claimed :
      (k : String) (rows : List JobRow)
      → elem k (job_ids (select q (claim now due rows))) ≡ true
      → elem k due ≡ false
  unfolding claim
  not_claimed k [] = λ h. cc
  not_claimed k (r ∷ rows) = elim (Bool-cases (elem r.id due)) [
    | inl old ↦ rw (old, skips r) (not_claimed k rows)
    | inr new ↦ elim (Bool-cases (q r)) [
      | inr out ↦ rw (new, out) (not_claimed k rows)
      | inl found ↦
          rw (new, found)
            (λ h. elim (Bool-cases (k == r.id)) [
              | inl same ↦ let path = (string_eq.same_iff k r.id).0 same in cc
              | inr other ↦ not_claimed k rows (ground arith)
            ])
    ]
  ]

skips_locked :
    (now : ℕ) (locked : String → Bool) (k : String) (rows : List JobRow)
    → elem k (job_ids (select (claimable now locked) rows)) ≡ true
    → locked k ≡ false
skips_locked now locked k [] = λ h. cc
skips_locked now locked k (r ∷ rows) = elim (Bool-cases (claimable now locked r)) [
  | inr out ↦ rw out (skips_locked now locked k rows)
  | inl found ↦ rw found (λ h. elim (Bool-cases (k == r.id)) [
    | inl same ↦ rw ((string_eq.same_iff k r.id).0 same) (ground arith)
    | inr other ↦ skips_locked now locked k rows (ground arith)
  ])
]

-- Two claims never return one job: neither if the second runs on the table that the first left, at
-- any later time, nor if both select their rows before either writes, where the second skips the
-- rows that the first holds locked.
pub claim_pending-disjoint :
    (limit limit' now now' : ℕ) (locked locked' : String → Bool) (rows : List JobRow)
    → let first = claim_pending limit now locked rows in
      let due = lock_due limit now locked rows in
      All (λ id. elem id first.1 ≡ false) (claim_pending limit' now' locked' first.0).1
      × All
          (λ id. elem id due ≡ false)
          (lock_due limit' now' (λ id. locked' id || elem id due) rows)
unfolding claim_pending
claim_pending-disjoint limit limit' now now' locked locked' rows =
    let due = lock_due limit now locked rows in
    let left = claim now due rows in
    (
      All-mono
          (λ id h. ground (
            arith,
            elem-returned now locked limit rows id,
            not_claimed now due (claimable now' locked') (λ r. refl) id rows
                (elem-due now' locked' limit' left id
                  (ground (arith, h, elem-returned now' locked' limit' left id))),
          ))
          (returned_ids now' locked' limit' left)
          (elem-All (returned_ids now' locked' limit' left)),
      All-mono
          (λ id h.
            let held =
              skips_locked now' (λ id. locked' id || elem id due) id rows
                (elem-due now' (λ id. locked' id || elem id due) limit' rows id h) in
            ground (arith, held))
          (lock_due limit' now' (λ id. locked' id || elem id due) rows) (elem-All _),
    )
