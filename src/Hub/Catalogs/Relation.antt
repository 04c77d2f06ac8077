-- ===== src/Hub/Catalogs/Relation.antt =====
-- Models of ops/hubctl.py of which some have been through the check, and their merge with a base.
use agent_ui.Prelude.{
  String, true, false, Option, none, some, ◌≡◌, refl, arith, eq_iff, ◌==◌, string_eq, ◌⊎◌,
  Bool-cases, inl, inr, sym, ◌∙◌, ap, subst, is_some,
}
use agent_ui.Prelude.Json.{
  Value, Fields, null, boolean, int, float, str, arr, obj, end, field, get_field, put_field,
  pop_field,
}
use agent_ui.Host.{Host}
use agent_ui.Hub.Merge.{merge_mapping}
use agent_ui.Hub.Merge.Lookup.{
  IsDistinct, merged_value, assign, merge-step, get-assign, assign-IsDistinct,
}
use agent_ui.Hub.Merge.Replaced.{merged_mapping}
use agent_ui.Hub.Validation.{with_capabilities}
use agent_ui.Hub.Catalogs.{mapping_part, checked_models}

-- A model and the same model, or the one that the check leaves.
abbrev pub IsChecked : Host → Value → Value → Type 0
IsChecked h v w = (v ≡ w) ⊎ ((m : Fields) × (v ≡ obj m) × (w ≡ obj (with_capabilities h m)))

-- Models, key by key.
pub data AreChecked (h : Host) : Fields → Fields → Type 0 where
  both_end : AreChecked h end end
  both_field :
      (k : String) {v w : Value} {d e : Fields}
      → IsChecked h v w
      → AreChecked h d e
      → AreChecked h (field k v d) (field k w e)

abbrev IsCheckedOption : Host → Option Value → Option Value → Type 0
IsCheckedOption h v w =
    (v ≡ w) ⊎ ((m : Fields) × (v ≡ some (obj m)) × (w ≡ some (obj (with_capabilities h m))))

later-other :
    (j i : String) (rest : Fields)
    → get_field j rest ≡ none
    → is_some (get_field i rest) ≡ true
    → (j == i) ≡ false
later-other j i rest absent there = elim (Bool-cases (j == i)) [
  | inl same ↦
      absurd (
        ground
          (arith, ap is_some (ap (λ k. get_field k rest) ((eq_iff j i).0 same)), absent, there))
  | inr other ↦ other
]

module _ (h : Host) where
  self-AreChecked : (d : Fields) → AreChecked h d d
  self-AreChecked end = both_end
  self-AreChecked (field k v d) = both_field k (inl refl) (self-AreChecked d)

  put-AreChecked :
      (k : String) (v w : Value) (d e : Fields)
      → IsChecked h v w
      → AreChecked h d e
      → AreChecked h (put_field k v d) (put_field k w e)
  unfolding put_field
  put-AreChecked k v w _ _ new both_end = both_field k new both_end
  put-AreChecked k v w _ _ new (both_field j {d = d} {e = e} first rest) =
      elim (Bool-cases (j == k)) [
        | inl same ↦ rw same (both_field j new rest)
        | inr other ↦ rw other (both_field j first (put-AreChecked k v w d e new rest))
      ]

  pop-AreChecked :
      (k : String) (d e : Fields) → AreChecked h d e → AreChecked h (pop_field k d) (pop_field k e)
  unfolding pop_field
  pop-AreChecked k _ _ both_end = both_end
  pop-AreChecked k _ _ (both_field j {d = d} {e = e} first rest) = elim (Bool-cases (j == k)) [
    | inl same ↦ rw same rest
    | inr other ↦ rw other (both_field j first (pop-AreChecked k d e rest))
  ]

  assign-AreChecked :
      (k : String) (x y : Option Value) (d e : Fields)
      → IsCheckedOption h x y
      → AreChecked h d e
      → AreChecked h (assign k x d) (assign k y e)
  unfolding assign
  assign-AreChecked k none y d e (inl same) rel =
      subst (λ z. AreChecked h (pop_field k d) (assign k z e)) same (pop-AreChecked k d e rel)
  assign-AreChecked k (some v) y d e (inl same) rel =
      subst (λ z. AreChecked h (put_field k v d) (assign k z e)) same
        (put-AreChecked k v v d e (inl refl) rel)
  assign-AreChecked k x y d e (inr (m, is_x, is_y)) rel =
      rw (is_x, is_y)
        (put-AreChecked k (obj m) (obj (with_capabilities h m)) d e (inr (m, refl, refl)) rel)

  -- What the check makes of the first model of an overlay.
  record FirstChecked (base : Fields) (j : String) (v : Value) (rest : Fields) : Type 0 where
    new : Value
    is : checked_models h base (field j v rest) ≡ field j new (checked_models h base rest)
    checked :
        IsCheckedOption h
          (merged_value (get_field j base) (some v))
          (merged_value (get_field j base) (some new))
    alone : get_field j base ≡ none → IsChecked h v new

  checked_new :
      (base : Fields) (j : String) (m rest : Fields)
      → checked_models h base (field j (obj m) rest)
        ≡ field j (obj (with_capabilities h m)) (checked_models h base rest)
      → merged_value (get_field j base) (some (obj m)) ≡ some (obj m)
      → merged_value (get_field j base) (some (obj (with_capabilities h m)))
        ≡ some (obj (with_capabilities h m))
      → FirstChecked base j (obj m) rest
  checked_new base j m rest is before after = record {
    new = obj (with_capabilities h m);
    is = is;
    checked = inr (m, before, after);
    alone = λ a. inr (m, refl, refl);
  }

  first-checked :
      (base : Fields) (j : String) (v : Value) (rest : Fields) → FirstChecked base j v rest
  unfolding checked_models merged_value
  first-checked base j null rest = record {
    new = null;
    is = refl;
    checked = inl refl;
    alone = λ a. inl refl;
  }
  first-checked base j (boolean b) rest = record {
    new = boolean b;
    is = refl;
    checked = inl refl;
    alone = λ a. inl refl;
  }
  first-checked base j (int n) rest = record {
    new = int n;
    is = refl;
    checked = inl refl;
    alone = λ a. inl refl;
  }
  first-checked base j (float x) rest = record {
    new = float x;
    is = refl;
    checked = inl refl;
    alone = λ a. inl refl;
  }
  first-checked base j (str s) rest = record {
    new = str s;
    is = refl;
    checked = inl refl;
    alone = λ a. inl refl;
  }
  first-checked base j (arr xs) rest = record {
    new = arr xs;
    is = refl;
    checked = inl refl;
    alone = λ a. inl refl;
  }
  first-checked base j (obj m) rest = by-base (get_field j base) refl
    where
      by-base : (o : Option Value) → get_field j base ≡ o → FirstChecked base j (obj m) rest
      by-base (some (obj b)) at = record {
        new = obj m;
        is = rw (at, checked_models) refl;
        checked = inl refl;
        alone = λ a. inl refl;
      }
      by-base none at =
          checked_new base j m rest (rw (at, checked_models) refl) (rw at refl) (rw at refl)
      by-base (some null) at =
          checked_new base j m rest (rw (at, checked_models) refl) (rw at refl) (rw at refl)
      by-base (some (boolean _)) at =
          checked_new base j m rest (rw (at, checked_models) refl) (rw at refl) (rw at refl)
      by-base (some (int _)) at =
          checked_new base j m rest (rw (at, checked_models) refl) (rw at refl) (rw at refl)
      by-base (some (float _)) at =
          checked_new base j m rest (rw (at, checked_models) refl) (rw at refl) (rw at refl)
      by-base (some (str _)) at =
          checked_new base j m rest (rw (at, checked_models) refl) (rw at refl) (rw at refl)
      by-base (some (arr _)) at =
          checked_new base j m rest (rw (at, checked_models) refl) (rw at refl) (rw at refl)

  merge-AreChecked :
      (base models d e : Fields)
      → IsDistinct d
      → IsDistinct e
      → IsDistinct models
      → AreChecked h d e
      → ((j : String)
          → is_some (get_field j models) ≡ true
          → (get_field j d ≡ get_field j base) × (get_field j e ≡ get_field j base))
      → AreChecked h (merge_mapping d models) (merge_mapping e (checked_models h base models))
  unfolding merge_mapping checked_models get_field
  merge-AreChecked base end d e dist_d dist_e dist rel here = rel
  merge-AreChecked base (field j v rest) d e dist_d dist_e dist rel here =
      let first = first-checked base j v rest in
      let (at_d, at_e) = here j (rw ((eq_iff j j).1 refl) refl) in
      let x = merged_value (get_field j base) (some v) in
      let y = merged_value (get_field j base) (some first.new) in
      let more =
        merge-AreChecked base rest (assign j x d) (assign j y e) (assign-IsDistinct j x d dist_d)
          (assign-IsDistinct j y e dist_e) dist.1 (assign-AreChecked j x y d e first.checked rel)
          (λ i there.
            let apart : (j == i) ≡ false = later-other j i rest dist.0 there in
            let (d_i, e_i) = here i (rw apart there) in
            (get-assign j i x d dist_d ∙ rw apart d_i, get-assign j i y e dist_e ∙ rw apart e_i)) in
      subst (λ z. AreChecked h (merge_mapping d (field j v rest)) z)
        (sym (
          ap (merge_mapping e) first.is
          ∙ merge-step e j first.new (checked_models h base rest)
          ∙ ap
              (λ b.
                merge_mapping (assign j (merged_value b (some first.new)) e)
                  (checked_models h base rest))
              at_e))
        (subst (λ z. AreChecked h z (merge_mapping (assign j y e) (checked_models h base rest)))
          (sym (
            merge-step d j v rest
            ∙ ap (λ b. merge_mapping (assign j (merged_value b (some v)) d) rest) at_d))
          more)

  alone-AreChecked : (models : Fields) → AreChecked h models (checked_models h end models)
  unfolding get_field checked_models
  alone-AreChecked end = both_end
  alone-AreChecked (field j v rest) =
      let first = first-checked end j v rest in
      subst (AreChecked h (field j v rest)) (sym first.is)
        (both_field j (first.alone refl) (alone-AreChecked rest))

  -- The models of a merged catalog, with those of the overlay as they were and as the check left them.
  pub merged-AreChecked :
      (base : Option Value) (models : Fields)
      → IsDistinct (mapping_part base)
      → IsDistinct models
      → AreChecked h
          (merged_mapping base models)
          (merged_mapping base (checked_models h (mapping_part base) models))
  unfolding merged_mapping
  merged-AreChecked (some (obj b)) models dist_base dist =
      merge-AreChecked b models b b dist_base dist_base dist (self-AreChecked b)
        λ j there. (refl, refl)
  merged-AreChecked none models dist_base dist = alone-AreChecked models
  merged-AreChecked (some null) models dist_base dist = alone-AreChecked models
  merged-AreChecked (some (boolean _)) models dist_base dist = alone-AreChecked models
  merged-AreChecked (some (int _)) models dist_base dist = alone-AreChecked models
  merged-AreChecked (some (float _)) models dist_base dist = alone-AreChecked models
  merged-AreChecked (some (str _)) models dist_base dist = alone-AreChecked models
  merged-AreChecked (some (arr _)) models dist_base dist = alone-AreChecked models
