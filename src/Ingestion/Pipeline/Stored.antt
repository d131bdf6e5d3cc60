-- ===== src/Ingestion/Pipeline/Stored.antt =====
-- The chunks of a document that the stage CHUNK leaves in the table.
use lrllm.Prelude.{
  ℕ, suc, ◌+◌, ◌≡◌, refl, ap, ap₂, ◌∙◌, Bool, not, String, Option, none, some, List, [], ◌∷◌, ◌++◌,
  map, length, select, select-append, ◌==◌, string_eq, eq_self, Bool-cases, inl, inr,
}
use lrllm.Ingestion.Semantic.{SemanticChunk}
use lrllm.Ingestion.Store.{
  Db, Chunk, StoredChunk, chunks_of, delete_chunks, create_chunks, chunk_rows, next_ids,
}
use lrllm.Ingestion.ChunkRows.{
  Scope, zip_strict, parent_rows, child_rows, VectorPoint, points_of, point_of,
}

-- The chunks of a document that are embedded.
abbrev pub children_of : String → Db → List StoredChunk
children_of id db = select (λ c. not c.chunk.is_parent) (chunks_of id db)

module _ {A : Type 0} where
  select_others : (p : A → Bool) (xs : List A) → select p (select (λ x. not (p x)) xs) ≡ []
  select_others p [] = refl
  select_others p (x ∷ xs) = elim (Bool-cases (p x)) [
    | inl e ↦ rw e (select_others p xs)
    | inr e ↦ rw (e, e) (select_others p xs)
  ]

-- The embedded ones of some rows of a document.
abbrev pub embedded : String → List StoredChunk → List StoredChunk
embedded id rows =
    select (λ c. not c.chunk.is_parent) (select (λ c. c.chunk.document_id == id) rows)

embedded-append :
    (id : String) (xs ys : List StoredChunk)
    → embedded id (xs ++ ys) ≡ embedded id xs ++ embedded id ys
embedded-append id xs ys =
    ap (select (λ c. not c.chunk.is_parent)) (select-append (λ c. c.chunk.document_id == id) xs ys)
    ∙ select-append (λ c. not c.chunk.is_parent) (select (λ c. c.chunk.document_id == id) xs)
        (select (λ c. c.chunk.document_id == id) ys)

module _ (new_id : ℕ → String) (scope : Scope) where
  embedded-parents :
      (given : ℕ) (parents : List (ℕ × SemanticChunk))
      → embedded scope.document_id (chunk_rows new_id given (parent_rows scope parents)) ≡ []
  embedded-parents given [] = refl
  embedded-parents given ((index, sc) ∷ parents) =
      rw (eq_self scope.document_id) (embedded-parents (suc given) parents)

  embedded-children :
      (model model_version : String) (ids : List String) (given index : ℕ)
      (scs : List SemanticChunk) (parents : List (Option ℕ))
      → map
          (λ c. c.id)
          (embedded scope.document_id
            (chunk_rows new_id given (child_rows scope model model_version ids index scs parents)))
        ≡ next_ids new_id given
            (length (child_rows scope model model_version ids index scs parents))
  embedded-children model model_version ids given index [] parents = refl
  embedded-children model model_version ids given index (sc ∷ scs) [] = refl
  embedded-children model model_version ids given index (sc ∷ scs) (p ∷ parents) =
      rw (eq_self scope.document_id) (
        ap (◌∷◌ (new_id given))
          (embedded-children model model_version ids (suc given) (suc index) scs parents))

  -- Once no chunk of a document is left, the rows of its parents and children are what is embedded.
  pub create_chunks-children :
      (db : Db) (parents : List (ℕ × SemanticChunk)) (model model_version : String) (index : ℕ)
      (scs : List SemanticChunk) (ordinals : List (Option ℕ))
      → embedded scope.document_id db.chunks ≡ []
      → let (with_parents, ids) = create_chunks new_id (parent_rows scope parents) db in
        let rows = child_rows scope model model_version ids index scs ordinals in
        let (after, new_ids) = create_chunks new_id rows with_parents in
        map (λ c. c.id) (children_of scope.document_id after) ≡ new_ids
  unfolding create_chunks
  create_chunks-children db parents model model_version index scs ordinals h =
      let d = scope.document_id in
      let ids = (create_chunks new_id (parent_rows scope parents) db).1 in
      let given = db.ids_given + length (parent_rows scope parents) in
      let rows = child_rows scope model model_version ids index scs ordinals in
      let parent_part = chunk_rows new_id db.ids_given (parent_rows scope parents) in
      let child_part = chunk_rows new_id given rows in
      let split : embedded d ((db.chunks ++ parent_part) ++ child_part) ≡ embedded d child_part =
        embedded-append d (db.chunks ++ parent_part) child_part
        ∙ ap (λ xs. xs ++ embedded d child_part)
            (embedded-append d db.chunks parent_part
              ∙ ap₂ (λ xs ys. xs ++ ys) h (embedded-parents db.ids_given parents)) in
      ap (map (λ c. c.id)) split
      ∙ embedded-children model model_version ids given index scs ordinals

pub delete_chunks-none : (id : String) (db : Db) → embedded id (delete_chunks id db).0.chunks ≡ []
unfolding delete_chunks
delete_chunks-none id db =
    ap (select (λ c. not c.chunk.is_parent))
      (select_others (λ c. c.chunk.document_id == id) db.chunks)

module _ {A B : Type 0} where
  -- What a strict zip must be for its result to have some pairs.
  abbrev pub FirstsAre : List A → Option (List (A × B)) → Type 0
  FirstsAre xs none = Unit
  FirstsAre xs (some ps) = map (λ p. p.0) ps ≡ xs

  pub zip_strict-FirstsAre : (xs : List A) (ys : List B) → FirstsAre xs (zip_strict xs ys)
  zip_strict-FirstsAre [] [] = refl
  zip_strict-FirstsAre [] (y ∷ ys) = tt
  zip_strict-FirstsAre (x ∷ xs) [] = tt
  zip_strict-FirstsAre (x ∷ xs) (y ∷ ys) = grown (zip_strict xs ys) (zip_strict-FirstsAre xs ys)
    where
      grown :
          (r : Option (List (A × B)))
          → FirstsAre xs r
          → FirstsAre (x ∷ xs) (elim r [ none ↦ none | some rest ↦ some ((x, y) ∷ rest) ])
      grown none h = tt
      grown (some rest) h = ap (◌∷◌ x) h

module _ {Vector : Type 0} where
  abbrev pub IdsAre : List String → Option (List (VectorPoint Vector)) → Type 0
  IdsAre ids none = Unit
  IdsAre ids (some ps) = map (λ p. p.chunk_id) ps ≡ ids

  point_ids :
      (scope : Scope) (doc_class : Option String) (ts : List ((String × Chunk) × Vector))
      → map (λ p. p.chunk_id) (map (λ t. point_of scope doc_class t.0.0 t.0.1 t.1) ts)
        ≡ map (λ p. p.0) (map (λ t. t.0) ts)
  point_ids scope doc_class [] = refl
  point_ids scope doc_class (t ∷ ts) = ap (◌∷◌ t.0.0) (point_ids scope doc_class ts)

  pub points_of-IdsAre :
      (scope : Scope) (doc_class : Option String) (ids : List String) (chunks : List Chunk)
      (vectors : List Vector)
      → IdsAre ids (points_of scope doc_class ids chunks vectors)
  points_of-IdsAre scope doc_class ids chunks vectors =
      outer (zip_strict ids chunks) (zip_strict-FirstsAre ids chunks)
    where
      inner :
          (pairs : List (String × Chunk))
          → map (λ p. p.0) pairs ≡ ids
          → (r : Option (List ((String × Chunk) × Vector))) → FirstsAre pairs r
          → IdsAre ids (elim r [
            | none ↦ none
            | some triples ↦ some (map (λ t. point_of scope doc_class t.0.0 t.0.1 t.1) triples)
          ])
      inner pairs h none k = tt
      inner pairs h (some ts) k = point_ids scope doc_class ts ∙ ap (map (λ p. p.0)) k ∙ h

      outer :
          (r : Option (List (String × Chunk)))
          → FirstsAre ids r
          → IdsAre ids (elim r [
            | none ↦ none
            | some pairs ↦ elim (zip_strict pairs vectors) [
              | none ↦ none
              | some triples ↦ some (map (λ t. point_of scope doc_class t.0.0 t.0.1 t.1) triples)
            ]
          ])
      outer none h = tt
      outer (some pairs) h =
          inner pairs h (zip_strict pairs vectors) (zip_strict-FirstsAre pairs vectors)
