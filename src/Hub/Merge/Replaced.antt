-- ===== src/Hub/Merge/Replaced.antt =====
-- A merge in ops/hubctl.py with another mapping under one key of the overlay.
use agent_ui.Prelude.{
  String, true, false, Option, none, some, ◌≡◌, ◌≢◌, refl, arith, eq_iff, ◌==◌, string_eq,
  Bool-cases, inl, inr, sym, ◌∙◌, ap, subst, is_some,
}
use agent_ui.Prelude.Json.{
  Value, Fields, null, boolean, int, float, str, arr, obj, end, field, get_field, put_field,
  pop_field, get-put_other, get-put_same,
}
use agent_ui.Hub.Merge.{merge_mapping}
use agent_ui.Hub.Merge.Lookup.{
  IsDistinct, merged_value, assign, merge-step, get-assign, assign-IsDistinct, put-IsDistinct,
}

pub put-put_same :
    (k : String) (v w : Value) (d : Fields) → put_field k w (put_field k v d) ≡ put_field k w d
unfolding put_field
put-put_same k v w end = rw ((eq_iff k k).1 refl) refl
put-put_same k v w (field j u d) = elim (Bool-cases (j == k)) [
  | inl same ↦ rw (same, same) refl
  | inr other ↦ rw (other, other, put-put_same k v w d) refl
]

-- Two writes commute where the key of one is there.
put-put_other :
    (k j : String) (v w : Value) (d : Fields)
    → k ≢ j
    → is_some (get_field k d) ≡ true
    → put_field j w (put_field k v d) ≡ put_field k v (put_field j w d)
unfolding put_field get_field
put-put_other k j v w end other there = absurd (ground (arith, there))
put-put_other k j v w (field i u d) other there = elim (Bool-cases (i == k)) [
  | inl at_k ↦
      let not_j : (i == j) ≡ false = ground (arith, eq_iff i k, eq_iff i j, at_k, other) in
      rw (at_k, not_j, at_k) refl
  | inr past_k ↦ elim (Bool-cases (i == j)) [
    | inl at_j ↦ rw (past_k, at_j, past_k) refl
    | inr past_j ↦
        rw (past_k, past_j, past_k, put-put_other k j v w d other (rw past_k at there)) refl
  ]
]

pop-put_other :
    (k j : String) (v : Value) (d : Fields)
    → k ≢ j
    → is_some (get_field k d) ≡ true
    → pop_field j (put_field k v d) ≡ put_field k v (pop_field j d)
unfolding put_field get_field pop_field
pop-put_other k j v end other there = absurd (ground (arith, there))
pop-put_other k j v (field i u d) other there = elim (Bool-cases (i == k)) [
  | inl at_k ↦
      let not_j : (i == j) ≡ false = ground (arith, eq_iff i k, eq_iff i j, at_k, other) in
      rw (at_k, not_j, at_k) refl
  | inr past_k ↦ elim (Bool-cases (i == j)) [
    | inl at_j ↦ rw (past_k, at_j) refl
    | inr past_j ↦
        rw (past_k, past_j, past_k, pop-put_other k j v d other (rw past_k at there)) refl
  ]
]

assign-put_other :
    (k j : String) (v : Value) (o : Option Value) (d : Fields)
    → k ≢ j
    → is_some (get_field k d) ≡ true
    → assign j o (put_field k v d) ≡ put_field k v (assign j o d)
unfolding assign
assign-put_other k j v none d other there = pop-put_other k j v d other there
assign-put_other k j v (some w) d other there = put-put_other k j v w d other there

-- A key that is there and that the overlay does not have can be written before or after the merge.
merge-put_other :
    (k : String) (v : Value) (d overlay : Fields)
    → IsDistinct d
    → is_some (get_field k d) ≡ true
    → get_field k overlay ≡ none
    → merge_mapping (put_field k v d) overlay ≡ put_field k v (merge_mapping d overlay)
unfolding merge_mapping get_field
merge-put_other k v d end distinct there absent = refl
merge-put_other k v d (field j u rest) distinct there absent =
    let apart : k ≢ j = ground (arith, eq_iff j k, absent) in
    let later : get_field k rest ≡ none = ground (arith, eq_iff j k, absent) in
    let not_same : (j == k) ≡ false = ground (arith, eq_iff j k, apart) in
    let o = merged_value (get_field j d) (some u) in
    let still : is_some (get_field k (assign j o d)) ≡ true =
      ap is_some (get-assign j k o d distinct) ∙ rw not_same there in
    merge-step (put_field k v d) j u rest
    ∙ ap (λ x. merge_mapping (assign j (merged_value x (some u)) (put_field k v d)) rest)
        (get-put_other k j v d apart)
    ∙ ap (λ x. merge_mapping x rest) (assign-put_other k j v o d apart there)
    ∙ merge-put_other k v (assign j o d) rest (assign-IsDistinct j o d distinct) still later
    ∙ ap (put_field k v) (sym (merge-step d j u rest))

-- A mapping of an overlay merged onto a value.
unfoldable pub merged_mapping : Option Value → Fields → Fields
unfolding merge_mapping
merged_mapping (some (obj base)) overlay = merge_mapping base overlay
merged_mapping _ overlay = overlay

pub merged_value-obj :
    (base : Option Value) (overlay : Fields)
    → merged_value base (some (obj overlay)) ≡ some (obj (merged_mapping base overlay))
unfolding merged_value merged_mapping
merged_value-obj none overlay = refl
merged_value-obj (some null) overlay = refl
merged_value-obj (some (boolean _)) overlay = refl
merged_value-obj (some (int _)) overlay = refl
merged_value-obj (some (float _)) overlay = refl
merged_value-obj (some (str _)) overlay = refl
merged_value-obj (some (arr _)) overlay = refl
merged_value-obj (some (obj _)) overlay = refl

merge-field_obj :
    (k : String) (d inner rest : Fields)
    → merge_mapping d (field k (obj inner) rest)
      ≡ merge_mapping (put_field k (obj (merged_mapping (get_field k d) inner)) d) rest
unfolding assign
merge-field_obj k d inner rest =
    merge-step d k (obj inner) rest
    ∙ ap (λ o. merge_mapping (assign k o d) rest) (merged_value-obj (get_field k d) inner)

merge-replaced_first :
    (k : String) (d inner other rest : Fields)
    → IsDistinct d
    → get_field k rest ≡ none
    → merge_mapping d (field k (obj other) rest)
      ≡ put_field k
          (obj (merged_mapping (get_field k d) other))
          (merge_mapping d (field k (obj inner) rest))
merge-replaced_first k d inner other rest distinct absent =
    let old = obj (merged_mapping (get_field k d) inner) in
    let new = obj (merged_mapping (get_field k d) other) in
    merge-field_obj k d other rest
    ∙ ap (λ x. merge_mapping x rest) (sym (put-put_same k old new d))
    ∙ merge-put_other k new (put_field k old d) rest (put-IsDistinct k old d distinct)
        (ap is_some (get-put_same k old d)) absent
    ∙ ap (put_field k new) (sym (merge-field_obj k d inner rest))

-- Another mapping under a key of the overlay: the merge differs under that key alone.
pub merge-replaced :
    (k : String) (d overlay inner other : Fields)
    → IsDistinct d
    → IsDistinct overlay
    → get_field k overlay ≡ some (obj inner)
    → merge_mapping d (put_field k (obj other) overlay)
      ≡ put_field k (obj (merged_mapping (get_field k d) other)) (merge_mapping d overlay)
unfolding put_field get_field
merge-replaced k d end inner other distinct o there = absurd (ground (arith, there))
merge-replaced k d (field j u rest) inner other distinct o there = elim (Bool-cases (j == k)) [
  | inl same ↦
      let is : j ≡ k = (eq_iff j k).0 same in
      let holds : u ≡ obj inner = ground (arith, rw same at there) in
      rw (same, is, holds)
        (merge-replaced_first k d inner other rest distinct
          (subst (λ x. get_field x rest ≡ none) is o.0))
  | inr apart ↦
      let x = merged_value (get_field j d) (some u) in
      let kept : get_field k (assign j x d) ≡ get_field k d =
        get-assign j k x d distinct ∙ rw apart refl in
      rw apart (
        merge-step d j u (put_field k (obj other) rest)
        ∙ merge-replaced k (assign j x d) rest inner other (assign-IsDistinct j x d distinct) o.1
            (rw apart at there)
        ∙ ap (λ y. put_field k (obj (merged_mapping y other)) (merge_mapping (assign j x d) rest))
            kept
        ∙ ap (put_field k (obj (merged_mapping (get_field k d) other)))
            (sym (merge-step d j u rest)))
]
