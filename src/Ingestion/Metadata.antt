-- ===== src/Ingestion/Metadata.antt =====
-- app/ingestion/metadata.py: the metadata of a document from what the upload says, what its front
-- matter says and its file name. `str.strip`, the regular expression of a version and `rsplit` are
-- library code: they are arguments. The values of a dict are texts.
use lrllm.Prelude.{
  ◌≡◌, refl, sym, subst, ap, ap₂, ◌∙◌, append-nil, append_assoc, Bool, true, false, not, ◌&&◌,
  String, Option, none, some, List, [], ◌∷◌, ◌++◌, select, ◌==◌, string_eq, option_eq,
  if◌then◌else◌, Dict, dict_get, Bool-cases, Option-cases, eq_self, inl, inr,
}

-- The entries of `_FIELDS`.
pub data Field : Type 0 where
  title doc_class source product version : Field

abbrev pub fields : List Field
fields = title ∷ doc_class ∷ source ∷ product ∷ version ∷ []

abbrev pub field_name : Field → String
field_name title = "title"
field_name doc_class = "doc_class"
field_name source = "source"
field_name product = "product"
field_name version = "version"

-- `ResolvedMetadata`
pub record ResolvedMetadata : Type 0 where
  pub title : Option String
  pub doc_class : Option String
  pub source : Option String
  pub product : Option String
  pub version : Option String

abbrev pub unresolved : ResolvedMetadata
unresolved = record {
  title = none;
  doc_class = none;
  source = none;
  product = none;
  version = none;
}

-- `setattr(resolved, field_name, value)`
abbrev pub set_field : Field → Option String → ResolvedMetadata → ResolvedMetadata
set_field title v m = record m { title = v }
set_field doc_class v m = record m { doc_class = v }
set_field source v m = record m { source = v }
set_field product v m = record m { product = v }
set_field version v m = record m { version = v }

abbrev pub is_version : Field → Bool
is_version version = true
is_version _ = false

abbrev pub is_title : Field → Bool
is_title title = true
is_title _ = false

-- `strip`, the first group of `_VERSION_RE` in a stripped text, and `rsplit(".", 1)[0]`.
pub record StringOps : Type 0 where
  pub strip : String → String
  pub match_version : String → Option String
  pub stem : String → String

-- `METADATA_CONFLICT` with the fields that it names, or the metadata.
pub data Resolution : Type 0 where
  resolved : ResolvedMetadata → Resolution
  conflict : List Field → Resolution

-- `if conflicts: raise`
abbrev pub unless_conflict : List Field → ResolvedMetadata → Resolution
unless_conflict [] m = resolved m
unless_conflict (f ∷ fs) m = conflict (f ∷ fs)

abbrev pub is_given : Option String → Bool
is_given none = false
is_given (some s) = true

same_metadata :
    {m n : ResolvedMetadata}
    → m.title ≡ n.title
    → m.doc_class ≡ n.doc_class
    → m.source ≡ n.source
    → m.product ≡ n.product
    → m.version ≡ n.version
    → m ≡ n
same_metadata t d s p v =
    λ i. record { title = t i; doc_class = d i; source = s i; product = p i; version = v i }

module _ (ops : StringOps) where
  -- `_clean`
  abbrev pub clean : Option String → Option String
  clean none = none
  clean (some value) = let text = ops.strip value in if text == "" then none else some text

  -- `normalize_version`
  abbrev pub normalize_version : Option String → Option String
  normalize_version none = none
  normalize_version (some raw) = elim (ops.match_version (ops.strip raw)) [
    | none ↦ some (ops.strip raw)
    | some v ↦ some v
  ]

  -- `a or b`, of two cleaned values.
  abbrev pub or_else : Option String → Option String → Option String
  or_else none b = b
  or_else (some a) b = some a

  module _ (explicit front_matter : Dict String String) (filename : Option String) where
    abbrev pub explicit_value : Field → Option String
    explicit_value f = clean (dict_get (field_name f) explicit)

    abbrev pub fm_value : Field → Option String
    fm_value f = clean (dict_get (field_name f) front_matter)

    -- `if explicit_value and fm_value and explicit_value != fm_value`, less the versions that only
    -- differ in notation.
    unfoldable pub conflicts_in : Field → Bool
    conflicts_in f =
        (is_given (explicit_value f)
          && is_given (fm_value f)
          && not (explicit_value f == fm_value f))
        && not
            (is_version f && normalize_version (explicit_value f) == normalize_version (fm_value f))

    -- The stem of the file name, for a title that is not given.
    abbrev pub titled : Field → Option String → Option String
    titled f (some v) = some v
    titled f none =
        if is_title f
        then elim filename [
          | none ↦ none
          | some name ↦ if name == "" then none else some (ops.stem name)
        ]
        else none

    -- One round of the loop over `_FIELDS`.
    unfoldable pub resolve_each :
        List Field → ResolvedMetadata → List Field → ResolvedMetadata × List Field
    resolve_each [] m conflicts = (m, conflicts)
    resolve_each (f ∷ fs) m conflicts =
        let value = or_else (explicit_value f) (fm_value f) in
        let found = if conflicts_in f then conflicts ++ f ∷ [] else conflicts in
        resolve_each fs (set_field f (titled f value) m) found

    -- `resolve_metadata`
    unfoldable pub resolve_metadata : Resolution
    unfolding resolve_each conflicts_in
    resolve_metadata =
        let (m, conflicts) = resolve_each fields unresolved [] in
        unless_conflict conflicts (record m { version = normalize_version m.version })

    -- The first value of several that is given.
    abbrev pub first_given : List (Option String) → Option String
    first_given [] = none
    first_given (none ∷ vs) = first_given vs
    first_given (some v ∷ vs) = some v

    abbrev stem_of_name : Option String
    stem_of_name = elim filename [
      | none ↦ none
      | some name ↦ if name == "" then none else some (ops.stem name)
    ]

    -- The metadata by priority.
    abbrev pub by_priority : ResolvedMetadata
    by_priority = record {
      title = first_given (explicit_value title ∷ fm_value title ∷ stem_of_name ∷ []);
      doc_class = first_given (explicit_value doc_class ∷ fm_value doc_class ∷ []);
      source = first_given (explicit_value source ∷ fm_value source ∷ []);
      product = first_given (explicit_value product ∷ fm_value product ∷ []);
      version = normalize_version (first_given (explicit_value version ∷ fm_value version ∷ []));
    }

    resolve_each-conflicts :
        (fs : List Field) (m : ResolvedMetadata) (cs : List Field)
        → (resolve_each fs m cs).1 ≡ cs ++ select conflicts_in fs
    unfolding resolve_each
    resolve_each-conflicts [] m cs = sym (append-nil cs)
    resolve_each-conflicts (f ∷ fs) m cs = elim (Bool-cases (conflicts_in f)) [
      | inl c ↦
          rw (c, resolve_each)
            (resolve_each-conflicts fs _ (cs ++ f ∷ []) ∙ append_assoc cs (f ∷ []) _)
      | inr a ↦ rw (a, resolve_each) (resolve_each-conflicts fs _ cs)
    ]

    or_else-given : (a b : Option String) → or_else a b ≡ first_given (a ∷ b ∷ [])
    or_else-given none none = refl
    or_else-given none (some b) = refl
    or_else-given (some a) b = refl

    only_given : (o : Option String) → o ≡ first_given (o ∷ [])
    only_given none = refl
    only_given (some v) = refl

    titled-same : (f : Field) (o : Option String) → is_title f ≡ false → titled f o ≡ o
    titled-same f none h = rw h refl
    titled-same f (some v) h = refl

    titled-given :
        (a b : Option String) → titled title (or_else a b) ≡ first_given (a ∷ b ∷ stem_of_name ∷ [])
    titled-given none none = only_given stem_of_name
    titled-given none (some b) = refl
    titled-given (some a) b = refl

    untitled :
        (f : Field)
        → is_title f ≡ false
        → titled f (or_else (explicit_value f) (fm_value f))
          ≡ first_given (explicit_value f ∷ fm_value f ∷ [])
    untitled f h = titled-same f _ h ∙ or_else-given (explicit_value f) (fm_value f)

    -- The upload and the front matter give a field two values, and not one version in two notations.
    abbrev pub IsConflict : Field → Type 0
    IsConflict f =
        (given stated : String) × (explicit_value f ≡ some given)
        × (fm_value f ≡ some stated)
        × (given ≡ stated → ⊥)
        × (f ≡ version → normalize_version (some given) ≡ normalize_version (some stated) → ⊥)

    is_version-only : (f : Field) → is_version f ≡ true → f ≡ version
    is_version-only version h = refl
    is_version-only title h = cc
    is_version-only doc_class h = cc
    is_version-only source h = cc
    is_version-only product h = cc

    conflicts_in-IsConflict : (f : Field) → conflicts_in f ≡ true → IsConflict f
    unfolding conflicts_in
    conflicts_in-IsConflict f h = elim (Option-cases (explicit_value f)) [
      | inl e ↦ let unseen : conflicts_in f ≡ false = rw (e, conflicts_in) refl in cc
      | inr (given, e) ↦ elim (Option-cases (fm_value f)) [
        | inl g ↦ let unseen : conflicts_in f ≡ false = rw (e, g, conflicts_in) refl in cc
        | inr (stated, g) ↦ (
          given,
          stated,
          e,
          g,
          (λ same.
              let unseen : conflicts_in f ≡ false =
                rw (e, g, conflicts_in, same, eq_self stated) refl in
              cc),
          (λ at same.
              let eqn =
                (option_eq.same_iff (normalize_version (some given))
                    (normalize_version (some stated))).1
                  same in
              let unseen : conflicts_in f ≡ false = elim (Bool-cases (given == stated)) [
                | inl s ↦ rw (e, g, conflicts_in, s) refl
                | inr o ↦ rw (e, g, conflicts_in, o, at, eqn) refl
              ] in
              cc),
        )
      ]
    ]

    IsConflict-conflicts_in : (f : Field) → IsConflict f → conflicts_in f ≡ true
    unfolding conflicts_in
    IsConflict-conflicts_in f (given, stated, e, g, differ, notation) =
        let a = Bool-cases (given == stated) in
        elim a [
          | inl same ↦ absurd (differ ((string_eq.same_iff given stated).0 same))
          | inr other ↦ elim (Bool-cases (is_version f)) [
            | inr not_version ↦ rw (e, g, conflicts_in, other, not_version) refl
            | inl is ↦
                elim (Bool-cases
                  (normalize_version (some given) == normalize_version (some stated))) [
                    | inl same ↦ absurd (
                        notation (is_version-only f is) (
                          (option_eq.same_iff (normalize_version (some given))
                              (normalize_version (some stated))).0
                            same))
                    | inr apart ↦ rw (e, g, conflicts_in, other, is, apart) refl
                  ]
          ]
        ]

    -- The fields in conflict are named, or the metadata are resolved.
    abbrev pub IsResolution : List Field → Resolution → Type 0
    IsResolution [] r = r ≡ resolved by_priority
    IsResolution (f ∷ fs) r = r ≡ conflict (f ∷ fs)

    unless_conflict-IsResolution :
        (fs : List Field) → IsResolution fs (unless_conflict fs by_priority)
    unless_conflict-IsResolution [] = refl
    unless_conflict-IsResolution (f ∷ fs) = refl

    resolve_metadata-unless_conflict :
        resolve_metadata ≡ unless_conflict (select conflicts_in fields) by_priority
    unfolding resolve_metadata
    resolve_metadata-unless_conflict =
        ap₂ unless_conflict (resolve_each-conflicts fields unresolved []) (
          same_metadata (titled-given (explicit_value title) (fm_value title))
            (untitled doc_class refl) (untitled source refl) (untitled product refl)
            (ap normalize_version (untitled version refl)))

    -- Metadata that the upload and the front matter give differently are refused, naming in order
    -- exactly the fields for which both give a value and the two differ (a version only if the two
    -- differ in their normal form); and otherwise every field is what the upload says, else what
    -- the front matter says, the title else the stem of the file name, and the version is in its
    -- normal form.
    pub resolve_metadata_lem :
        IsResolution (select conflicts_in fields) resolve_metadata
        × ((f : Field)
            → (conflicts_in f ≡ true → IsConflict f) × (IsConflict f → conflicts_in f ≡ true))
    resolve_metadata_lem = (
      subst (IsResolution (select conflicts_in fields)) (sym resolve_metadata-unless_conflict)
          (unless_conflict-IsResolution (select conflicts_in fields)),
      (λ f. (conflicts_in-IsConflict f, IsConflict-conflicts_in f)),
    )
