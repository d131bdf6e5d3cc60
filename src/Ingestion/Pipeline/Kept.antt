-- ===== src/Ingestion/Pipeline/Kept.antt =====
-- What the statements of `process` do to the row of its job and to that of its document.
use lrllm.Prelude.{
  ◌≡◌, refl, sym, ap, ◌∙◌, Bool, true, ◌&&◌, String, some, List, [], ◌∷◌, map, select, ◌==◌,
  string_eq, if◌then◌else◌, Bool-cases, inl, inr, arith,
}
use lrllm.Jobs.Table.{JobRow, where_id}
use lrllm.Ingestion.Store.{
  DocumentRow, Db, first_of, is_live, get_job, get_document, where_document,
}
use lrllm.Ingestion.Services.{Stage, Fault}
use lrllm.Ingestion.Pipeline.{World, Step, go, stop, and_then, on_jobs}

module _ {A : Type 0} where
  -- A row that an UPDATE changes, found by a condition that the change leaves as it is.
  pub first-where :
      (p q : A → Bool) (f : A → A) (xs : List A)
      → ((x : A) → p x ≡ true → q x ≡ true)
      → ((x : A) → p (f x) ≡ p x)
      → (x : A) → first_of (select p xs) ≡ some x
      → first_of (select p (map (λ y. if q y then f y else y) xs)) ≡ some (f x)
  first-where p q f [] hq hf x h = cc
  first-where p q f (y ∷ ys) hq hf x h = elim (Bool-cases (p y)) [
    | inl e ↦
        let found : first_of (select p (y ∷ ys)) ≡ some y = rw e refl in
        let same : y ≡ x = cc in rw (hq y e, hf y, e, same) refl
    | inr e ↦
        let rest : first_of (select p ys) ≡ some x = sym (rw e refl) ∙ h in
        let later = first-where p q f ys hq hf x rest in
        elim (Bool-cases (q y)) [ inl i ↦ rw (i, hf y, e) later | inr i ↦ rw (i, e) later ]
  ]

  -- What a query finds meets its condition.
  first-select : (p : A → Bool) (xs : List A) (x : A) → first_of (select p xs) ≡ some x → p x ≡ true
  first-select p [] x h = cc
  first-select p (y ∷ ys) x h = elim (Bool-cases (p y)) [
    | inl e ↦
        let found : first_of (select p (y ∷ ys)) ≡ some y = rw e refl in
        let same : y ≡ x = cc in rw (sym same) e
    | inr e ↦ first-select p ys x (sym (rw e refl) ∙ h)
  ]

pub get_job-where_id :
    (id : String) (f : JobRow → JobRow) (db : Db) (r : JobRow)
    → ((x : JobRow) → (f x).id ≡ x.id)
    → get_job id db ≡ some r
    → get_job id (on_jobs (where_id id f) db) ≡ some (f r)
unfolding get_job where_id
get_job-where_id id f db r hf h =
    first-where (λ x. x.id == id) (λ x. x.id == id) f db.jobs (λ x e. e)
      (λ x. ap (λ i. i == id) (hf x)) r h

pub get_job-id : (id : String) (db : Db) (r : JobRow) → get_job id db ≡ some r → r.id ≡ id
unfolding get_job
get_job-id id db r h = (string_eq.same_iff r.id id).0 (first-select (λ x. x.id == id) db.jobs r h)

pub get_document-where_document :
    (id : String) (f : DocumentRow → DocumentRow) (db : Db) (d : DocumentRow)
    → ((x : DocumentRow) → (f x).id ≡ x.id)
    → ((x : DocumentRow) → (f x).deleted_at ≡ x.deleted_at)
    → get_document id db ≡ some d
    → get_document id (where_document id f db) ≡ some (f d)
unfolding get_document where_document
get_document-where_document id f db d hid hdel h =
    first-where (λ x. x.id == id && is_live x.deleted_at) (λ x. x.id == id) f db.documents
      (λ x e. ground (arith, e)) (λ x. rw (hid x, hdel x) refl) d h

pub get_document-id :
    (id : String) (db : Db) (d : DocumentRow) → get_document id db ≡ some d → d.id ≡ id
unfolding get_document
get_document-id id db d h =
    let found = first-select (λ x. x.id == id && is_live x.deleted_at) db.documents d h in
    (string_eq.same_iff d.id id).0 (ground (arith, found))

-- The row of a job, with what holds of it, and the row of a document.
abbrev pub JobAt : (JobRow → Type 0) → String → Db → Type 0
JobAt P id db = (r : JobRow) × (get_job id db ≡ some r) × P r

abbrev pub DocumentAt : (DocumentRow → Type 0) → String → Db → Type 0
DocumentAt P id db = (d : DocumentRow) × (get_document id db ≡ some d) × P d

pub JobAt-where_id :
    {P Q : JobRow → Type 0} (id : String) (f : JobRow → JobRow) (db : Db)
    → ((x : JobRow) → (f x).id ≡ x.id)
    → ((x : JobRow) → P x → Q (f x))
    → JobAt P id db
    → JobAt Q id (on_jobs (where_id id f) db)
JobAt-where_id id f db hf h (r, e, p) = (f r, get_job-where_id id f db r hf e, h r p)

pub DocumentAt-where :
    {P Q : DocumentRow → Type 0} (id : String) (f : DocumentRow → DocumentRow) (db : Db)
    → ((x : DocumentRow) → (f x).id ≡ x.id)
    → ((x : DocumentRow) → (f x).deleted_at ≡ x.deleted_at)
    → ((x : DocumentRow) → P x → Q (f x))
    → DocumentAt P id db
    → DocumentAt Q id (where_document id f db)
DocumentAt-where id f db hid hdel h (d, e, p) =
    (f d, get_document-where_document id f db d hid hdel e, h d p)

module _ {Points : Type 0} where
  -- What holds of the world when a part of `process` ends, and when an exception leaves it.
  abbrev pub Ends :
      {A : Type 0}
      → (World Points → A → Type 0)
      → (World Points → Stage → Fault → Type 0)
      → Step Points A
      → Type 0
  Ends G B (go w a) = G w a
  Ends G B (stop w stage f) = B w stage f

  pub and_then-Ends :
      {A B : Type 0} (G : World Points → A → Type 0) (H : World Points → B → Type 0)
      (X : World Points → Stage → Fault → Type 0) (s : Step Points A)
      (k : World Points → A → Step Points B)
      → Ends G X s
      → ((w : World Points) (a : A) → G w a → Ends H X (k w a))
      → Ends H X (and_then s k)
  and_then-Ends G H X (go w a) k h hk = hk w a h
  and_then-Ends G H X (stop w stage f) k h hk = h

-- A statement on the jobs leaves the documents as they are, and the other way round.
pub JobAt-where_document :
    {P : JobRow → Type 0} (id document_id : String) (f : DocumentRow → DocumentRow) (db : Db)
    → JobAt P id db
    → JobAt P id (where_document document_id f db)
unfolding get_job where_document
JobAt-where_document id document_id f db h = h

pub DocumentAt-on_jobs :
    {P : DocumentRow → Type 0} (id : String) (f : List JobRow → List JobRow) (db : Db)
    → DocumentAt P id db
    → DocumentAt P id (on_jobs f db)
unfolding get_document
DocumentAt-on_jobs id f db h = h
