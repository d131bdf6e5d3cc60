-- ===== src/Prelude/Dicts.antt =====
-- Python's dict as an association list in insertion order: an update keeps the key's place.
use mathlib.Core.Path.{◌≡◌, refl, ap, ◌∙◌}
use mathlib.Core.Logic.{inl, inr}
use mathlib.Core.Bool.{false, ◌||◌}
use mathlib.Core.Option.{Option, none, some, get_or}
use mathlib.Core.List.{List, [], ◌∷◌, ◌++◌, map, Nodup, Nodup-cons, not-mem-nil}
use mathlib.Core.List.Pairwise
use native.Mathlib.Omega.{arith}
use lrllm.Prelude.Tests.{if◌then◌else◌, Bool-cases}
use lrllm.Prelude.Keys.{BoolEq, ◌==◌, elem, eq_self, not-mem→elem, not-mem_of_elem, beq_comm}

abbrev pub Dict {ℓ κ} : Type ℓ → Type κ → Type (ℓ ⊔ κ)
Dict K V = List (K × V)

module _ {ℓ κ} {K : Type ℓ} {V : Type κ} where
  abbrev pub keys : Dict K V → List K
  keys = map (λ p. p.0)

module _ {ℓ κ} {K : Type ℓ} {V : Type κ} ⦃e : BoolEq K⦄ where
  -- `d.get(k)`
  unfoldable pub dict_get : K → Dict K V → Option V
  dict_get k [] = none
  dict_get k ((j, v) ∷ d) = if k == j then some v else dict_get k d

  -- `d[k] = v`
  unfoldable pub dict_set : K → V → Dict K V → Dict K V
  dict_set k v [] = (k, v) ∷ []
  dict_set k v ((j, w) ∷ d) = if k == j then (j, v) ∷ d else (j, w) ∷ dict_set k v d

  pub get-set :
      (k j : K) (v : V) (d : Dict K V)
      → dict_get j (dict_set k v d) ≡ (if j == k then some v else dict_get j d)
  unfolding dict_get dict_set
  get-set k j v [] = refl
  get-set k j v ((i, w) ∷ d) =
      ground (arith, get-set k j v d, e.same_iff k i, e.same_iff j i, e.same_iff j k)

  pub elem-keys : (k : K) (d : Dict K V) → dict_get k d ≡ none → elem k (keys d) ≡ false
  unfolding dict_get
  elem-keys k [] h = refl
  elem-keys k ((j, w) ∷ d) h = ground (arith, elem-keys k d)

  -- A write adds at most its key, at the end.
  pub elem-keys-set :
      (k j : K) (v : V) (d : Dict K V)
      → elem j (keys (dict_set k v d)) ≡ (j == k || elem j (keys d))
  unfolding dict_set
  elem-keys-set k j v [] = refl
  elem-keys-set k j v ((i, w) ∷ d) =
      ground (arith, elem-keys-set k j v d, e.same_iff k i, e.same_iff j i, e.same_iff j k)

  pub keys-set :
      (k : K) (v : V) (d : Dict K V)
      → keys (dict_set k v d) ≡ (if elem k (keys d) then keys d else keys d ++ k ∷ [])
  unfolding dict_set
  keys-set k v [] = refl
  keys-set k v ((j, w) ∷ d) = elim (Bool-cases (k == j)) [
    | inl p ↦ rw p
    | inr p ↦
        rw (p, keys-set k v d) (elim (Bool-cases (elem k (keys d))) [ inl q ↦ rw q | inr q ↦ rw q ])
  ]

  pub keys-set-Nodup :
      (k : K) (v : V) (d : Dict K V) → Nodup (keys d) → Nodup (keys (dict_set k v d))
  unfolding dict_set
  keys-set-Nodup k v [] h = Nodup-cons.1 (not-mem-nil, Pairwise.nil)
  keys-set-Nodup k v ((j, w) ∷ d) h = elim (Bool-cases (k == j)) [
    | inl p ↦ rw p h
    | inr p ↦
        let (fresh, rest) = Nodup-cons.0 h in
        rw p (
          Nodup-cons.1 (
            not-mem_of_elem j (keys (dict_set k v d))
                (elem-keys-set k j v d ∙ rw (beq_comm j k, p) (not-mem→elem j (keys d) fresh)),
            keys-set-Nodup k v d rest,
          ))
  ]

module _ {K V : Type 0} ⦃e : BoolEq K⦄ where
  -- Some keys with what they are mapped to, or `z`.
  abbrev pub entries_at : V → Dict K V → List K → Dict K V
  entries_at z d [] = []
  entries_at z d (k ∷ ks) = (k, get_or (dict_get k d) z) ∷ entries_at z d ks

  entries_at_shadowed :
      (z : V) (k : K) (v : V) (d : Dict K V) (js : List K)
      → elem k js ≡ false
      → entries_at z ((k, v) ∷ d) js ≡ entries_at z d js
  unfolding dict_get
  entries_at_shadowed z k v d [] h = refl
  entries_at_shadowed z k v d (j ∷ js) h =
      ground (arith, entries_at_shadowed z k v d js, e.same_iff k j, e.same_iff j k)

  -- A dict whose keys differ is the list of its keys with what they are mapped to.
  pub entries_at-keys : (z : V) (d : Dict K V) → Nodup (keys d) → entries_at z d (keys d) ≡ d
  unfolding dict_get
  entries_at-keys z [] h = refl
  entries_at-keys z ((k, v) ∷ d) h =
      let fresh = not-mem→elem k (keys d) (Nodup-cons.0 h).0 in
      rw (eq_self k, entries_at_shadowed z k v d (keys d) fresh)
        (ap (◌∷◌ (k, v)) (entries_at-keys z d (Nodup-cons.0 h).1))

  pub entries_at_same :
      (z : V) (d d' : Dict K V) (ks : List K)
      → ((k : K) → get_or (dict_get k d) z ≡ get_or (dict_get k d') z)
      → entries_at z d ks ≡ entries_at z d' ks
  entries_at_same z d d' [] h = refl
  entries_at_same z d d' (k ∷ ks) h = rw (h k, entries_at_same z d d' ks h)
