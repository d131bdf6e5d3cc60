-- ===== src/Ingestion/ChunkRows.antt =====
-- app/ingestion/pipeline.py: the rows that `process` makes of chunks, with the parents they refer to,
-- the texts that are embedded and the points of the vector store. `id` is the identity of an object.
use lrllm.Prelude.{
  ℕ, suc, Bool, true, false, Text, codes, String, Option, none, some, List, [], ◌∷◌, ◌++◌, map,
  select, length, get_elem?, join, is_nonempty, ℕ_eq, list_eq, Dict, dict_get, dict_set,
}
use lrllm.Ingestion.Semantic.{SemanticChunk, ChunkType, ParentChunkNode}
use lrllm.Ingestion.Sections.{find_section_id}
use lrllm.Ingestion.Store.{Chunk}

-- `enumerate(xs, start)`
abbrev pub enumerate {ℓ} : {A : Type ℓ} → ℕ → List A → List (ℕ × A)
enumerate start [] = []
enumerate start (x ∷ xs) = (start, x) ∷ enumerate (suc start) xs

-- `zip(xs, ys, strict=True)`: none if it raises.
abbrev pub zip_strict {ℓ κ} : {A : Type ℓ} {B : Type κ} → List A → List B → Option (List (A × B))
zip_strict [] [] = some []
zip_strict [] (y ∷ ys) = none
zip_strict (x ∷ xs) [] = none
zip_strict (x ∷ xs) (y ∷ ys) = elim (zip_strict xs ys) [
  | none ↦ none
  | some rest ↦ some ((x, y) ∷ rest)
]

-- A dict comprehension over pairs: the last pair of a key counts.
abbrev pub dict_of : Dict (List Text) String → List (List Text × String) → Dict (List Text) String
dict_of d [] = d
dict_of d ((k, v) ∷ ps) = dict_of (dict_set k v d) ps

-- The arguments of `_to_chunk` that are the same for all chunks of a document.
pub record Scope : Type 0 where
  pub document_id : String
  pub knowledge_base_id : String
  pub product : Option String
  pub version : Option String
  pub by_path : Dict (List Text) String

-- `_to_chunk`, with `_section_for`; its cache holds what a search gives.
abbrev pub to_chunk :
    Scope → ℕ → Option String → Option String → Bool → Option String → SemanticChunk → Chunk
to_chunk scope index model model_version is_parent parent_chunk_id sc = record {
  document_id = scope.document_id;
  section_id = find_section_id sc.heading_path scope.by_path;
  knowledge_base_id = scope.knowledge_base_id;
  text = sc.text;
  raw_content = sc.raw_content;
  heading_path = join (codes " / ") sc.heading_path;
  line_start = sc.line_start;
  line_end = sc.line_end;
  chunk_index = index;
  token_count = sc.token_count;
  chunk_type = sc.chunk_type;
  is_parent = is_parent;
  parent_chunk_id = parent_chunk_id;
  product = scope.product;
  version = scope.version;
  embedding_model = model;
  embedding_model_version = model_version;
}

-- The text of a `str | None`.
abbrev pub text_or_empty : Option String → Text
text_or_empty none = []
text_or_empty (some s) = codes s

-- `_embedding_text`; a part that is None is left out like an empty one.
abbrev pub embedding_text : String → Option String → Option String → SemanticChunk → Text
embedding_text title product version sc = join (codes "\n") (
    select is_nonempty (
      codes title
      ∷ text_or_empty product
      ∷ text_or_empty version
      ∷ join (codes " / ") sc.heading_path
      ∷ sc.text
      ∷ []))

module _ (id : SemanticChunk → ℕ) where
  -- The loop over the nodes: the parents in the order of their first use, and for each node the
  -- ordinal of its parent.
  unfoldable pub ordinals :
      List SemanticChunk → Dict ℕ ℕ → List ParentChunkNode → List SemanticChunk × List (Option ℕ)
  unfolding dict_get dict_set
  ordinals parent_objs parent_ordinal [] = (parent_objs, [])
  ordinals parent_objs parent_ordinal (node ∷ nodes) = elim node.parent [
    | none ↦ let (objs, rest) = ordinals parent_objs parent_ordinal nodes in (objs, none ∷ rest)
    | some p ↦ elim (dict_get (id p) parent_ordinal) [
      | some ordinal ↦
          let (objs, rest) = ordinals parent_objs parent_ordinal nodes in
          (objs, some ordinal ∷ rest)
      | none ↦
          let ordinal = length parent_objs in
          let (objs, rest) =
            ordinals (parent_objs ++ p ∷ []) (dict_set (id p) ordinal parent_ordinal) nodes in
          (objs, some ordinal ∷ rest)
    ]
  ]

-- `parent_id_by_ordinal[parent_of_node[index]]`
abbrev pub parent_id : List String → Option ℕ → Option String
parent_id ids none = none
parent_id ids (some ordinal) = get_elem? ids ordinal

-- The rows of the parents.
abbrev pub parent_rows : Scope → List (ℕ × SemanticChunk) → List Chunk
parent_rows scope [] = []
parent_rows scope ((index, sc) ∷ rest) =
    to_chunk scope index none none true none sc ∷ parent_rows scope rest

-- The rows of the children, with the ids of the parents' rows and the ordinals of the nodes.
abbrev pub child_rows :
    Scope → String → String → List String → ℕ → List SemanticChunk → List (Option ℕ) → List Chunk
child_rows scope model model_version ids index (sc ∷ scs) (ordinal ∷ parents) =
    to_chunk scope index (some model) (some model_version) false (parent_id ids ordinal) sc
    ∷ child_rows scope model model_version ids (suc index) scs parents
child_rows scope model model_version ids index _ _ = []

-- `VectorPoint`, with its payload.
pub record VectorPoint (Vector : Type 0) : Type 0 where
  pub chunk_id : String
  pub vector : Vector
  pub knowledge_base_id : String
  pub document_id : String
  pub section_id : Option String
  pub product : Option String
  pub version : Option String
  pub doc_class : Option String
  pub chunk_type : ChunkType

module _ {Vector : Type 0} where
  -- The point of one chunk.
  abbrev pub point_of : Scope → Option String → String → Chunk → Vector → VectorPoint Vector
  point_of scope doc_class chunk_id chunk vector = record {
    chunk_id = chunk_id;
    vector = vector;
    knowledge_base_id = scope.knowledge_base_id;
    document_id = scope.document_id;
    section_id = chunk.section_id;
    product = scope.product;
    version = scope.version;
    doc_class = doc_class;
    chunk_type = chunk.chunk_type;
  }

  -- The points of `zip(chunk_ids, chunks, vectors, strict=True)`: none if it raises.
  abbrev pub points_of :
      Scope
      → Option String
      → List String
      → List Chunk
      → List Vector
      → Option (List (VectorPoint Vector))
  points_of scope doc_class ids chunks vectors = elim (zip_strict ids chunks) [
    | none ↦ none
    | some pairs ↦ elim (zip_strict pairs vectors) [
      | none ↦ none
      | some triples ↦ some (map (λ t. point_of scope doc_class t.0.0 t.0.1 t.1) triples)
    ]
  ]
