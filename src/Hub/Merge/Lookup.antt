-- ===== src/Hub/Merge/Lookup.antt =====
-- What a merged document of ops/hubctl.py holds under each key.
use agent_ui.Prelude.{
  String, Option, none, some, ◌≡◌, ◌≢◌, refl, arith, eq_iff, ◌==◌, string_eq, if◌then◌else◌,
  Bool-cases, inl, inr, sym, ◌∙◌, ap, subst,
}
use agent_ui.Prelude.Json.{
  Value, Fields, null, boolean, int, float, str, arr, obj, end, field, get_field, put_field,
  pop_field, get-put_field, get-put_other,
}
use agent_ui.Hub.Merge.{merge_mapping}

-- No key twice, as in every `dict`.
abbrev pub IsDistinct : Fields → Type 0
IsDistinct end = Unit
IsDistinct (field k v fs) = (get_field k fs ≡ none) × IsDistinct fs

-- The value under a key, from the value of the document and that of the overlay.
unfoldable pub merged_value : Option Value → Option Value → Option Value
unfolding merge_mapping
merged_value base none = base
merged_value base (some null) = none
merged_value base (some (obj overlay)) = elim base [
  | some (obj inner) ↦ some (obj (merge_mapping inner overlay))
  | _ ↦ some (obj overlay)
]
merged_value base (some value) = some value

-- `d[k] = v`, or `d.pop(k, None)` for no value.
unfoldable pub assign : String → Option Value → Fields → Fields
assign key none d = pop_field key d
assign key (some value) d = put_field key value d

pub merge-step :
    (result : Fields) (key : String) (value : Value) (rest : Fields)
    → merge_mapping result (field key value rest)
      ≡ merge_mapping (assign key (merged_value (get_field key result) (some value)) result) rest
unfolding merge_mapping assign merged_value
merge-step result key (obj overlay) rest = by-lookup (get_field key result)
  where
    by-lookup :
        (o : Option Value)
        → elim o [
          | some (obj base) ↦
              merge_mapping (put_field key (obj (merge_mapping base overlay)) result) rest
          | _ ↦ merge_mapping (put_field key (obj overlay) result) rest
        ]
          ≡ merge_mapping (assign key (merged_value o (some (obj overlay))) result) rest
    by-lookup none = refl
    by-lookup (some null) = refl
    by-lookup (some (boolean b)) = refl
    by-lookup (some (int n)) = refl
    by-lookup (some (float x)) = refl
    by-lookup (some (str s)) = refl
    by-lookup (some (arr xs)) = refl
    by-lookup (some (obj fs)) = refl
merge-step result key null rest = refl
merge-step result key (boolean b) rest = refl
merge-step result key (int n) rest = refl
merge-step result key (float x) rest = refl
merge-step result key (str s) rest = refl
merge-step result key (arr xs) rest = refl

pub get-pop_field :
    (k j : String) (d : Fields)
    → IsDistinct d
    → get_field j (pop_field k d) ≡ (if k == j then none else get_field j d)
unfolding get_field pop_field
get-pop_field k j end h = ground arith
get-pop_field k j (field i w d) h =
    ground (arith, eq_iff k j, eq_iff i k, eq_iff i j, get-pop_field k j d)

pub get-assign :
    (k j : String) (v : Option Value) (d : Fields)
    → IsDistinct d
    → get_field j (assign k v d) ≡ (if k == j then v else get_field j d)
unfolding assign
get-assign k j none d h = get-pop_field k j d h
get-assign k j (some v) d h = get-put_field k j v d

pub put-IsDistinct :
    (k : String) (v : Value) (d : Fields) → IsDistinct d → IsDistinct (put_field k v d)
unfolding put_field get_field
put-IsDistinct k v end h = (refl, tt)
put-IsDistinct k v (field i w d) h = elim (Bool-cases (i == k)) [
  | inl same ↦ rw same (h.0, h.1)
  | inr other ↦
      rw other
        (ground (arith, get-put_field k i v d, eq_iff k i, eq_iff i k), put-IsDistinct k v d h.1)
]

pop-IsDistinct : (k : String) (d : Fields) → IsDistinct d → IsDistinct (pop_field k d)
unfolding pop_field get_field
pop-IsDistinct k end h = tt
pop-IsDistinct k (field i w d) h = elim (Bool-cases (i == k)) [
  | inl same ↦ rw same h.1
  | inr other ↦
      rw other (ground (arith, get-pop_field k i d, eq_iff k i, eq_iff i k), pop-IsDistinct k d h.1)
]

pub assign-IsDistinct :
    (k : String) (v : Option Value) (d : Fields) → IsDistinct d → IsDistinct (assign k v d)
unfolding assign
assign-IsDistinct k none d h = pop-IsDistinct k d h
assign-IsDistinct k (some v) d h = put-IsDistinct k v d h

pub merge-IsDistinct : (d overlay : Fields) → IsDistinct d → IsDistinct (merge_mapping d overlay)
unfolding merge_mapping
merge-IsDistinct d end h = h
merge-IsDistinct d (field k v rest) h = subst IsDistinct (sym (merge-step d k v rest)) (
    merge-IsDistinct (assign k (merged_value (get_field k d) (some v)) d) rest
      (assign-IsDistinct k (merged_value (get_field k d) (some v)) d h))

-- A merged document holds, under every key, the value of the overlay; but a null of the overlay
-- removes the key, two mappings are merged, and a key that the overlay does not have keeps its
-- value, where neither document has a key twice.
pub merge_mapping-get :
    (k : String) (d overlay : Fields)
    → IsDistinct d
    → IsDistinct overlay
    → get_field k (merge_mapping d overlay) ≡ merged_value (get_field k d) (get_field k overlay)
unfolding merge_mapping get_field merged_value
merge_mapping-get k d end h o = refl
merge_mapping-get k d (field j v rest) h o =
    let w = merged_value (get_field j d) (some v) in
    let ih = merge_mapping-get k (assign j w d) rest (assign-IsDistinct j w d h) o.1 in
    ap (get_field k) (merge-step d j v rest) ∙ ih ∙ elim (Bool-cases (j == k)) [
      | inl same ↦ ground (arith, get-assign j k w d h, eq_iff j k, same, o.0)
      | inr other ↦ ground (arith, get-assign j k w d h, other)
    ]

-- A key that the overlay gets beside others does not change what they give.
pub merge_mapping-put :
    (k j : String) (v : Value) (d overlay : Fields)
    → IsDistinct d
    → IsDistinct overlay
    → k ≢ j
    → get_field j (merge_mapping d (put_field k v overlay)) ≡ get_field j (merge_mapping d overlay)
merge_mapping-put k j v d overlay h o other =
    merge_mapping-get j d (put_field k v overlay) h (put-IsDistinct k v overlay o)
    ∙ ap (merged_value (get_field j d)) (get-put_other k j v overlay other)
    ∙ sym (merge_mapping-get j d overlay h o)

-- No key twice in a document, nor in a mapping under one of its keys.
abbrev pub IsDocument : Fields → Type 0
IsDocument end = Unit
IsDocument (field k (obj d) fs) = (get_field k fs ≡ none) × IsDocument d × IsDocument fs
IsDocument (field k v fs) = (get_field k fs ≡ none) × IsDocument fs

pub Document-IsDistinct : (d : Fields) → IsDocument d → IsDistinct d
Document-IsDistinct end h = tt
Document-IsDistinct (field k (obj d) fs) h = (h.0, Document-IsDistinct fs h.2)
Document-IsDistinct (field k null fs) h = (h.0, Document-IsDistinct fs h.1)
Document-IsDistinct (field k (boolean b) fs) h = (h.0, Document-IsDistinct fs h.1)
Document-IsDistinct (field k (int n) fs) h = (h.0, Document-IsDistinct fs h.1)
Document-IsDistinct (field k (float x) fs) h = (h.0, Document-IsDistinct fs h.1)
Document-IsDistinct (field k (str s) fs) h = (h.0, Document-IsDistinct fs h.1)
Document-IsDistinct (field k (arr xs) fs) h = (h.0, Document-IsDistinct fs h.1)

abbrev pub inner : Value → Fields
inner (obj d) = d
inner _ = end

-- What a document has at and behind its first key.
pub IsDocument-parts :
    (k : String) (v : Value) (fs : Fields)
    → IsDocument (field k v fs)
    → ((d : Fields) → v ≡ obj d → IsDocument d) × IsDocument fs
IsDocument-parts k (obj d) fs h = ((λ e same. subst IsDocument (ap inner same) h.1), h.2)
IsDocument-parts k null fs h = ((λ e same. absurd (ground (arith, same))), h.1)
IsDocument-parts k (boolean b) fs h = ((λ e same. absurd (ground (arith, same))), h.1)
IsDocument-parts k (int n) fs h = ((λ e same. absurd (ground (arith, same))), h.1)
IsDocument-parts k (float x) fs h = ((λ e same. absurd (ground (arith, same))), h.1)
IsDocument-parts k (str s) fs h = ((λ e same. absurd (ground (arith, same))), h.1)
IsDocument-parts k (arr xs) fs h = ((λ e same. absurd (ground (arith, same))), h.1)

pub get-IsDocument :
    (k : String) (d e : Fields) → IsDocument d → get_field k d ≡ some (obj e) → IsDocument e
unfolding get_field
get-IsDocument k end e h at = absurd (ground (arith, at))
get-IsDocument k (field j v fs) e h at =
    let (here, rest) = IsDocument-parts j v fs h in
    elim (Bool-cases (j == k)) [
      | inl same ↦ here e (ground (arith, rw same at at))
      | inr other ↦ get-IsDocument k fs e rest (rw other at at)
    ]
