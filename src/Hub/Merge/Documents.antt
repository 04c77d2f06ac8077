-- ===== src/Hub/Merge/Documents.antt =====
-- Writes and merges of ops/hubctl.py keep documents: no key twice, at any depth of mappings.
use agent_ui.Prelude.{
  String, Bool, true, false, Option, none, some, ◌≡◌, refl, arith, eq_iff, ◌==◌, string_eq,
  if◌then◌else◌, Bool-cases, inl, inr, sym, ◌∙◌, ap, subst,
}
use agent_ui.Prelude.Json.{
  Value, Fields, null, boolean, int, float, str, arr, obj, end, field, get_field, put_field,
  pop_field, get-put_field,
}
use agent_ui.Hub.Merge.{merge_mapping}
use agent_ui.Hub.Merge.Lookup.{
  IsDocument, Document-IsDistinct, IsDocument-parts, get-IsDocument, inner, get-pop_field, assign,
  merge-step,
}
use agent_ui.Hub.Merge.Replaced.{merged_mapping, merged_value-obj}

-- A value of a document.
abbrev pub IsInner : Value → Type 0
IsInner v = (d : Fields) → v ≡ obj d → IsDocument d

field-IsDocument :
    (k : String) (v : Value) (fs : Fields)
    → get_field k fs ≡ none
    → IsInner v
    → IsDocument fs
    → IsDocument (field k v fs)
field-IsDocument k (obj d) fs absent inner rest = (absent, inner d refl, rest)
field-IsDocument k null fs absent inner rest = (absent, rest)
field-IsDocument k (boolean b) fs absent inner rest = (absent, rest)
field-IsDocument k (int n) fs absent inner rest = (absent, rest)
field-IsDocument k (float x) fs absent inner rest = (absent, rest)
field-IsDocument k (str s) fs absent inner rest = (absent, rest)
field-IsDocument k (arr xs) fs absent inner rest = (absent, rest)

pub put-IsDocument :
    (k : String) (v : Value) (d : Fields) → IsInner v → IsDocument d → IsDocument (put_field k v d)
unfolding put_field get_field
put-IsDocument k v end inner h = field-IsDocument k v end refl inner tt
put-IsDocument k v (field i w d) inner h =
    let (own, rest) = IsDocument-parts i w d h in
    let absent = (Document-IsDistinct (field i w d) h).0 in
    elim (Bool-cases (i == k)) [
      | inl same ↦ rw same (field-IsDocument i v d absent inner rest)
      | inr other ↦ rw other (
          field-IsDocument i w (put_field k v d)
            (ground (arith, get-put_field k i v d, eq_iff k i, eq_iff i k, absent, other)) own
            (put-IsDocument k v d inner rest))
    ]

popped : (b : Bool) (o : Option Value) → o ≡ none → (if b then none else o) ≡ none
popped true o h = refl
popped false o h = h

pop-IsDocument : (k : String) (d : Fields) → IsDocument d → IsDocument (pop_field k d)
unfolding pop_field get_field
pop-IsDocument k end h = tt
pop-IsDocument k (field i w d) h =
    let (own, rest) = IsDocument-parts i w d h in
    let absent = (Document-IsDistinct (field i w d) h).0 in
    elim (Bool-cases (i == k)) [
      | inl same ↦ rw same rest
      | inr other ↦ rw other (
          field-IsDocument i w (pop_field k d)
            (get-pop_field k i d (Document-IsDistinct d rest)
              ∙ popped (k == i) (get_field i d) absent)
            own (pop-IsDocument k d rest))
    ]

merge_obj-IsDocument :
    (k : String) (d inner rest : Fields)
    → IsDocument (merge_mapping (put_field k (obj (merged_mapping (get_field k d) inner)) d) rest)
    → IsDocument (merge_mapping d (field k (obj inner) rest))
unfolding assign
merge_obj-IsDocument k d inner rest h =
    subst IsDocument
      (sym (
        merge-step d k (obj inner) rest
        ∙ ap (λ o. merge_mapping (assign k o d) rest) (merged_value-obj (get_field k d) inner)))
      h

merged_mapping-IsDocument :
    (b : Option Value) (inner : Fields)
    → ((base : Fields) → b ≡ some (obj base) → IsDocument base)
    → IsDocument inner
    → ((base : Fields) → IsDocument base → IsDocument (merge_mapping base inner))
    → IsDocument (merged_mapping b inner)
unfolding merged_mapping
merged_mapping-IsDocument (some (obj base)) inner own h merged = merged base (own base refl)
merged_mapping-IsDocument none inner own h merged = h
merged_mapping-IsDocument (some null) inner own h merged = h
merged_mapping-IsDocument (some (boolean _)) inner own h merged = h
merged_mapping-IsDocument (some (int _)) inner own h merged = h
merged_mapping-IsDocument (some (float _)) inner own h merged = h
merged_mapping-IsDocument (some (str _)) inner own h merged = h
merged_mapping-IsDocument (some (arr _)) inner own h merged = h

obj-IsInner : (d : Fields) → IsDocument d → IsInner (obj d)
obj-IsInner d h e same = subst IsDocument (ap inner same) h

put_plain :
    (k : String) (v : Value) (d : Fields)
    → inner v ≡ end
    → IsDocument d
    → IsDocument (put_field k v d)
put_plain k v d empty h =
    put-IsDocument k v d (λ e same. subst IsDocument (sym empty ∙ ap inner same) tt) h

pub merge-IsDocument :
    (d overlay : Fields) → IsDocument d → IsDocument overlay → IsDocument (merge_mapping d overlay)
unfolding merge_mapping
merge-IsDocument d end h o = h
merge-IsDocument d (field k (obj own) rest) h o =
    let merged =
      merged_mapping-IsDocument (get_field k d) own (λ base at. get-IsDocument k d base h at) o.1
        (λ base hb. merge-IsDocument base own hb o.1) in
    let v = obj (merged_mapping (get_field k d) own) in
    merge_obj-IsDocument k d own rest (
      merge-IsDocument (put_field k v d) rest
        (put-IsDocument k v d (obj-IsInner (merged_mapping (get_field k d) own) merged) h) o.2)
merge-IsDocument d (field k null rest) h o =
    merge-IsDocument (pop_field k d) rest (pop-IsDocument k d h) o.1
merge-IsDocument d (field k (boolean b) rest) h o =
    merge-IsDocument (put_field k (boolean b) d) rest (put_plain k (boolean b) d refl h) o.1
merge-IsDocument d (field k (int n) rest) h o =
    merge-IsDocument (put_field k (int n) d) rest (put_plain k (int n) d refl h) o.1
merge-IsDocument d (field k (float x) rest) h o =
    merge-IsDocument (put_field k (float x) d) rest (put_plain k (float x) d refl h) o.1
merge-IsDocument d (field k (str s) rest) h o =
    merge-IsDocument (put_field k (str s) d) rest (put_plain k (str s) d refl h) o.1
merge-IsDocument d (field k (arr xs) rest) h o =
    merge-IsDocument (put_field k (arr xs) d) rest (put_plain k (arr xs) d refl h) o.1
