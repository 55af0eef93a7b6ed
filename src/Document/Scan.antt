-- ===== src/Document/Scan.antt =====
-- The two loops of `ComputeEditorDiff` in client/editor_diff.cpp: what they find.
use share_note_pad.Base.{
  ℕ, zero, suc, ◌+◌, ◌≤◌, ◌≡◌, refl, sym, ap, ◌∙◌, Bool, true, ◌&&◌, Option, none, some, [], ◌∷◌,
  ◌++◌, ltb, ==_iff, length, get_elem?, take, drop, Text, arith, take-suc, drop-get_elem?,
  get_elem?-lt, Bool-cases, inl, inr,
}
use share_note_pad.Document.Diff.{same_unit, scan_prefix, scan_suffix}

-- Equal units at two places inside two texts.
same_unit-eq : (o p : Option ℕ) → same_unit o p ≡ true → (u : ℕ) × (o ≡ some u) × (p ≡ some u)
unfolding same_unit
same_unit-eq none p h = cc
same_unit-eq (some a) none h = cc
same_unit-eq (some a) (some b) h = (a, refl, ap some (sym ((==_iff a b).0 h)))

-- The two texts agree in front of the first loop's index, which stays inside both.
pub record CommonPrefix (old new : Text) (k : ℕ) : Type 0 where
  pub in_old : k ≤ length old
  pub in_new : k ≤ length new
  pub agrees : take k old ≡ take k new

pub scan_prefix-CommonPrefix :
    (rounds : ℕ) (old new : Text) (k : ℕ)
    → CommonPrefix old new k
    → CommonPrefix old new (scan_prefix rounds old new k)
unfolding scan_prefix
scan_prefix-CommonPrefix zero old new k c = c
scan_prefix-CommonPrefix (suc rounds) old new k c =
    elim (Bool-cases (same_unit (get_elem? old k) (get_elem? new k))) [
      | inl same ↦
          let (u, e, f) = same_unit-eq (get_elem? old k) (get_elem? new k) same in
          rw same (scan_prefix-CommonPrefix rounds old new (k + 1) (longer u e f))
      | inr other ↦ rw other c
    ]
  where
    longer :
        (u : ℕ) → get_elem? old k ≡ some u → get_elem? new k ≡ some u → CommonPrefix old new (k + 1)
    longer u e f =
        let s : k + 1 ≡ suc k = omega arith in
        rw s (record {
          in_old = get_elem?-lt k old e;
          in_new = get_elem?-lt k new f;
          agrees = take-suc k old e ∙ ap (λ t. t ++ u ∷ []) c.agrees ∙ sym (take-suc k new f);
        })

-- The two texts agree behind the second loop's indices.
pub record CommonSuffix (old new : Text) (prefix o n : ℕ) : Type 0 where
  pub old_from : prefix ≤ o
  pub new_from : prefix ≤ n
  pub in_old : o ≤ length old
  pub in_new : n ≤ length new
  pub agrees : drop o old ≡ drop n new

-- The test of the second loop.
abbrev goes_on : Text → Text → ℕ → ℕ → ℕ → Bool
goes_on old new prefix o n =
    ltb prefix (suc o) && (ltb prefix (suc n) && same_unit (get_elem? old o) (get_elem? new n))

CommonSuffix-step :
    (old new : Text) (prefix o n : ℕ)
    → CommonSuffix old new prefix (suc o) (suc n)
    → goes_on old new prefix o n ≡ true
    → CommonSuffix old new prefix o n
CommonSuffix-step old new prefix o n c more =
    let same : same_unit (get_elem? old o) (get_elem? new n) ≡ true = ground arith in
    let (u, e, f) = same_unit-eq (get_elem? old o) (get_elem? new n) same in
    record {
      old_from = ground arith;
      new_from = ground arith;
      in_old = omega (arith, c.in_old);
      in_new = omega (arith, c.in_new);
      agrees = drop-get_elem? o old e ∙ ap (◌∷◌ u) c.agrees ∙ sym (drop-get_elem? n new f);
    }

pub scan_suffix-CommonSuffix :
    (old new : Text) (prefix o n : ℕ)
    → CommonSuffix old new prefix o n
    → let (o', n') = scan_suffix old new prefix o n in CommonSuffix old new prefix o' n'
unfolding scan_suffix
scan_suffix-CommonSuffix old new prefix zero n c = c
scan_suffix-CommonSuffix old new prefix (suc o) zero c = c
scan_suffix-CommonSuffix old new prefix (suc o) (suc n) c =
    elim (Bool-cases (goes_on old new prefix o n)) [
      | inl more ↦ rw more (
          scan_suffix-CommonSuffix old new prefix o n (CommonSuffix-step old new prefix o n c more))
      | inr stop ↦ rw stop c
    ]
