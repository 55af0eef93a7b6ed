-- ===== src/Protocol/Fields.antt =====
-- The two `std::map` members of `ProtocolMessage`: association lists in the order of their keys.
use share_note_pad.Base.{
  ◌≡◌, refl, true, false, Option, none, some, List, [], ◌∷◌, arith, if◌then◌else◌, Bool-cases, inl,
  inr, Text, text_eq, text_lt, text_eq_iff, text_lt_irrefl, text_lt_trans, text_lt_total,
}

abbrev pub Fields {ℓ} : Type ℓ → Type ℓ
Fields V = List (Text × V)

module _ {ℓ} {V : Type ℓ} where
  -- `find`; `none` is `end()`.
  unfoldable pub lookup : Text → Fields V → Option V
  lookup k [] = none
  lookup k ((j, v) ∷ m) = if text_eq j k then some v else lookup k m

  -- `map[key] = value`.
  unfoldable pub insert : Text → V → Fields V → Fields V
  insert k v [] = (k, v) ∷ []
  insert k v ((j, w) ∷ m) =
      if text_eq j k
      then (k, v) ∷ m
      else if text_lt k j
      then (k, v) ∷ (j, w) ∷ m
      else (j, w) ∷ insert k v m

  -- Every key of the map comes after `k`.
  abbrev pub Above : Text → Fields V → Type 0
  Above k [] = Unit
  Above k ((j, _) ∷ m) = (text_lt k j ≡ true) × Above k m

  -- The keys are in order, so each stands once.
  abbrev pub IsSorted : Fields V → Type 0
  IsSorted [] = Unit
  IsSorted ((k, _) ∷ m) = Above k m × IsSorted m

module _ {ℓ} {V : Type ℓ} where
  pub lookup-insert :
      (k j : Text) (v : V) (m : Fields V)
      → lookup j (insert k v m) ≡ (if text_eq k j then some v else lookup j m)
  unfolding lookup insert
  lookup-insert k j v [] = refl
  lookup-insert k j v ((i, w) ∷ m) =
      ground (arith, text_eq_iff k j, text_eq_iff i k, text_eq_iff i j, lookup-insert k j v m)

  Above-trans : (j k : Text) (m : Fields V) → text_lt j k ≡ true → Above k m → Above j m
  Above-trans j k [] h a = tt
  Above-trans j k ((i, w) ∷ m) h a = (text_lt_trans j k i h a.0, Above-trans j k m h a.1)

  Above-insert :
      (j k : Text) (v : V) (m : Fields V) → text_lt j k ≡ true → Above j m → Above j (insert k v m)
  unfolding insert
  Above-insert j k v [] h a = (h, tt)
  Above-insert j k v ((i, w) ∷ m) h a = ground (arith, text_eq_iff i k, Above-insert j k v m h a.1)

  pub insert-IsSorted : (k : Text) (v : V) (m : Fields V) → IsSorted m → IsSorted (insert k v m)
  unfolding insert
  insert-IsSorted k v [] s = (tt, tt)
  insert-IsSorted k v ((i, w) ∷ m) s = elim (Bool-cases (text_eq i k)) [
    | inl same ↦ ground (arith, text_eq_iff i k)
    | inr other ↦ elim (Bool-cases (text_lt k i)) [
      | inl before ↦
          rw (other, before)
            let above : Above k ((i, w) ∷ m) = (before, Above-trans k i m before s.0) in (above, s)
      | inr behind ↦
          rw (other, behind)
            (Above-insert i k v m (later other behind) s.0, insert-IsSorted k v m s.1)
    ]
  ]
    where
      later : text_eq i k ≡ false → text_lt k i ≡ false → text_lt i k ≡ true
      later e h = ground (arith, text_lt_total k i, text_eq_iff i k, text_eq_iff k i)

  -- A key that lies before all others is not in the map.
  pub lookup-Above : (k : Text) (m : Fields V) → Above k m → lookup k m ≡ none
  unfolding lookup
  lookup-Above k [] a = refl
  lookup-Above k ((i, w) ∷ m) a =
      ground (arith, text_eq_iff i k, text_lt_irrefl k, lookup-Above k m a.1)
