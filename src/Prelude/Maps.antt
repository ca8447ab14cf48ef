-- ===== src/Prelude/Maps.antt =====
-- A Go map keyed by strings, as an association list. A range over the map goes through the list;
-- Go leaves that order open.
use Prim.Native.String.{String}
use text.Mathlib.Text.{◌==◌}
use text.Mathlib.TextEquality.{eq_iff}
use mathlib.Core.Path.{◌≡◌, refl, ap, subst}
use mathlib.Core.Bool.{◌&&◌}
use mathlib.Core.Option.{Option, none, some}
use mathlib.Core.List.{List, [], ◌∷◌, ◌++◌, map}
use mathlib.Core.Logic.{inl, inr, ◌≢◌}
use native.Mathlib.Omega.{arith}
use kasirinaja.Prelude.Lists.{All}
use kasirinaja.Prelude.Tests.{Bool-cases, if◌then◌else◌, get_or}

abbrev pub Dict {ℓ} : Type ℓ → Type ℓ
Dict V = List (String × V)

module _ {ℓ} {V : Type ℓ} where
  -- `v, ok := d[k]`
  unfoldable pub lookup : String → Dict V → Option V
  lookup k [] = none
  lookup k ((j, v) ∷ d) = if j == k then some v else lookup k d

  -- `d[k] = v`
  unfoldable pub insert : String → V → Dict V → Dict V
  insert k v [] = (k, v) ∷ []
  insert k v ((j, w) ∷ d) = if j == k then (k, v) ∷ d else (j, w) ∷ insert k v d

  -- `delete(d, k)`
  unfoldable pub erase : String → Dict V → Dict V
  erase k [] = []
  erase k ((j, w) ∷ d) = if j == k then erase k d else (j, w) ∷ erase k d

  abbrev pub values : Dict V → List V
  values = map (λ e. e.1)

  abbrev pub keys : Dict V → List String
  keys = map (λ e. e.0)

  pub lookup-insert :
      (j k : String) (v : V) (d : Dict V)
      → lookup j (insert k v d) ≡ (if k == j then some v else lookup j d)
  unfolding lookup insert
  lookup-insert j k v [] = refl
  lookup-insert j k v ((i, w) ∷ d) =
      ground (arith, eq_iff k j, eq_iff i k, eq_iff i j, lookup-insert j k v d)

  pub lookup-erase :
      (j k : String) (d : Dict V) → lookup j (erase k d) ≡ (if k == j then none else lookup j d)
  unfolding lookup erase
  lookup-erase j k [] = ground arith
  lookup-erase j k ((i, w) ∷ d) =
      ground (arith, eq_iff k j, eq_iff i k, eq_iff i j, lookup-erase j k d)

  -- A new key goes to the end.
  pub values-insert_new :
      (k : String) (v : V) (d : Dict V)
      → lookup k d ≡ none
      → values (insert k v d) ≡ values d ++ (v ∷ [])
  unfolding lookup insert
  values-insert_new k v [] h = refl
  values-insert_new k v ((i, w) ∷ d) h = elim (Bool-cases (i == k)) [
    | inl same ↦ ground arith
    | inr other ↦ rw other (ap (◌∷◌ w) (values-insert_new k v d (rw other at h)))
  ]

module _ {ℓ} {V : Type ℓ} where
  -- `d[k][j]` in a map of maps, where a missing inner map is empty
  unfoldable pub lookup_inner : String → String → Dict (Dict V) → Option V
  lookup_inner k j d = lookup j (get_or (lookup k d) [])

  -- `d[k][j] = v` in a map of maps
  unfoldable pub insert_inner : String → String → V → Dict (Dict V) → Dict (Dict V)
  insert_inner k j v d = insert k (insert j v (get_or (lookup k d) [])) d

  pub lookup_inner-insert_inner :
      (k' j' k j : String) (v : V) (d : Dict (Dict V))
      → lookup_inner k' j' (insert_inner k j v d)
        ≡ (if (k == k') && (j == j') then some v else lookup_inner k' j' d)
  unfolding lookup_inner insert_inner
  lookup_inner-insert_inner k' j' k j v d =
      let inner = get_or (lookup k d) [] in
      ground (
        arith,
        eq_iff k k',
        eq_iff j j',
        lookup-insert k' k (insert j v inner) d,
        lookup-insert j' j v inner,
      )

-- A predicate on the entries.
module _ {ℓ κ} {V : Type ℓ} (P : String × V → Type κ) where
  pub All-insert : (k : String) (v : V) (d : Dict V) → P (k, v) → All P d → All P (insert k v d)
  unfolding insert
  All-insert k v [] p h = (p, tt)
  All-insert k v ((j, w) ∷ d) p h = elim (Bool-cases (j == k)) [
    | inl same ↦ rw same (p, h.1)
    | inr other ↦ rw other (h.0, All-insert k v d p h.1)
  ]

  pub All-lookup : (k : String) (v : V) (d : Dict V) → All P d → lookup k d ≡ some v → P (k, v)
  unfolding lookup
  All-lookup k v [] h e = absurd (ground arith)
  All-lookup k v ((j, w) ∷ d) h e = elim (Bool-cases (j == k)) [
    | inl same ↦
        let found : some w ≡ some v = rw same at e in
        let value : w ≡ v = cc in
        subst (λ x. P (k, x)) value (subst (λ x. P (x, w)) ((eq_iff j k).0 same) h.0)
    | inr other ↦ All-lookup k v d h.1 (rw other at e)
  ]

-- A key that is not there differs from every key.
pub ne_of_lookup-none {ℓ} :
    {V : Type ℓ} (k : String) (d : Dict V) → lookup k d ≡ none → All (λ e. e.0 ≢ k) d
unfolding lookup
ne_of_lookup-none k [] h = tt
ne_of_lookup-none k ((j, w) ∷ d) h = elim (Bool-cases (j == k)) [
  | inl same ↦ absurd (ground arith)
  | inr other ↦ (ground (arith, eq_iff j k), ne_of_lookup-none k d (rw other at h))
]
