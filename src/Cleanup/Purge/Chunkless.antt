-- ===== src/Cleanup/Purge/Chunkless.antt =====
-- The purge of documents takes no chunk with it.
use lrllm.Prelude.{
  ℕ, ◌≡◌, refl, sym, ap, ◌∙◌, inl, inr, true, false, not, ◌&&◌, String, List, [], ◌∷◌, map, select,
  elem, ◌==◌, string_eq, Bool-cases, List-cases, arith, All, eq_self, elem-take, map-take,
}
use lrllm.Ingestion.Store.{DocumentRow, StoredChunk, Db, is_live, any_of}
use lrllm.Cleanup.Purge.{has_chunk, list_purgeable_ids, hard_delete_documents, purge_documents}

module _ (db : Db) where
  has_chunk-own :
      (chunks : List StoredChunk)
      → ((id : String)
          → any_of (λ c. c.chunk.document_id == id) chunks ≡ true
          → has_chunk db id ≡ true)
      → All (λ c. has_chunk db c.chunk.document_id ≡ true) chunks
  has_chunk-own [] h = tt
  has_chunk-own (c ∷ chunks) h = (
    h c.chunk.document_id (rw (eq_self c.chunk.document_id) refl),
    has_chunk-own chunks (λ id e. h id (ground (arith, e))),
  )

  purgeable_chunkless :
      (id : String) (documents : List DocumentRow)
      → elem id (
          map
            (λ d. d.id)
            (select (λ d. not (is_live d.deleted_at) && not (has_chunk db d.id)) documents))
        ≡ true
      → has_chunk db id ≡ false
  purgeable_chunkless id [] h = cc
  purgeable_chunkless id (d ∷ documents) h =
      elim (Bool-cases (not (is_live d.deleted_at) && not (has_chunk db d.id))) [
        | inr e ↦ purgeable_chunkless id documents (sym (rw e refl) ∙ h)
        | inl e ↦ elim (Bool-cases (id == d.id)) [
          | inl same ↦ rw ((string_eq.same_iff id d.id).0 same) (ground (arith, e))
          | inr other ↦
              let split : elem id (
                    map (λ d. d.id)
                      (select (λ d. not (is_live d.deleted_at) && not (has_chunk db d.id))
                        (d ∷ documents)))
                  ≡ elem id (
                      map (λ d. d.id)
                        (select (λ d. not (is_live d.deleted_at) && not (has_chunk db d.id))
                          documents)) =
                rw (e, other) refl in
              purgeable_chunkless id documents (sym split ∙ h)
        ]
      ]

  keeps_chunks :
      (ids : List String) (chunks : List StoredChunk)
      → ((id : String) → elem id ids ≡ true → has_chunk db id ≡ false)
      → All (λ c. has_chunk db c.chunk.document_id ≡ true) chunks
      → select (λ c. not (elem c.chunk.document_id ids)) chunks ≡ chunks
  keeps_chunks ids [] h k = refl
  keeps_chunks ids (c ∷ chunks) h k = elim (Bool-cases (elem c.chunk.document_id ids)) [
    | inl e ↦ let gone = h c.chunk.document_id e in ground (arith, gone, k.0)
    | inr e ↦ rw e (ap (◌∷◌ c) (keeps_chunks ids chunks h k.1))
  ]

  listed-chunkless :
      (batch : ℕ) (id : String)
      → elem id (list_purgeable_ids batch db) ≡ true
      → has_chunk db id ≡ false
  unfolding list_purgeable_ids
  listed-chunkless batch id e =
      let found =
        select (λ d. not (is_live d.deleted_at) && not (has_chunk db d.id)) db.documents in
      purgeable_chunkless id db.documents
        (elem-take (λ d. d.id) id batch found (ap (elem id) (map-take (λ d. d.id) batch found) ∙ e))

  -- The purge of documents removes no chunk, although a document's chunks would go with it: it only
  -- takes documents of which no chunk is left.
  purge_documents-chunks : (batch : ℕ) → (purge_documents batch db).0.chunks ≡ db.chunks
  unfolding purge_documents hard_delete_documents
  purge_documents-chunks batch = elim (List-cases (list_purgeable_ids batch db)) [
    | inl e ↦ rw (e, purge_documents) refl
    | inr (id, more, e) ↦
        rw (e, purge_documents)
          (keeps_chunks (id ∷ more) db.chunks (λ k h. listed-chunkless batch k (ap (elem k) e ∙ h))
            (has_chunk-own db.chunks (λ k h. h)))
  ]
