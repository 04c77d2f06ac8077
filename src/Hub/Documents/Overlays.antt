-- ===== src/Hub/Documents/Overlays.antt =====
-- How ops/hubctl.py reads a document with its overlay, before and after a write.
use agent_ui.Prelude.{
  String, true, false, some, ◌≡◌, ◌≢◌, refl, arith, string_eq, Option-cases, inl, inr, ◌∙◌, ap, ok,
}
use agent_ui.Prelude.Bind.{and_then-Ran}
use agent_ui.Prelude.Dict.{get, put, get-put_ne}
use agent_ui.Prelude.Json.{Fields, obj, end}
use agent_ui.Hub.Merge.{merge_mapping}
use agent_ui.Hub.Documents.{Yaml, Files, read_yaml, with_overlay}

module _ {Content : Type 0} (y : Yaml Content) where
  pub overlaid :
      (base above merged : Fields) (overlay : String) (files : Files Content)
      → read_yaml y overlay true files ≡ ok above
      → with_overlay y base (some overlay) files ≡ ok merged
      → merged ≡ merge_mapping base above
  unfolding with_overlay read_yaml merge_mapping
  overlaid base above merged overlay files upper h = elim (Option-cases (get overlay files)) [
    | inl absent ↦
        let is_end : end ≡ above = ground (arith, rw (absent, read_yaml) at upper) in
        let is_base : merged ≡ base = ground (arith, rw (absent, with_overlay) at h) in
        is_base ∙ ap (merge_mapping base) is_end
    | inr (content, there) ↦
        let (m, read, last) =
          and_then-Ran (read_yaml y overlay true files) _ merged (rw (there, with_overlay) at h) in
        let is_above : m ≡ above = ground (arith, read, upper) in
        let is_merged : merged ≡ merge_mapping base m = ground (arith, last) in
        is_merged ∙ ap (merge_mapping base) is_above
  ]

  pub read-other :
      (path overlay : String) (content : Content) (files : Files Content)
      → overlay ≢ path
      → read_yaml y path false (put overlay content files) ≡ read_yaml y path false files
  unfolding read_yaml
  read-other path overlay content files apart =
      rw (get-put_ne overlay path content files apart) refl

  read-written :
      (above : Fields) (overlay : String) (files : Files Content)
      → get overlay files ≡ some (y.safe_dump above)
      → y.safe_load (y.safe_dump above) ≡ some (obj above)
      → read_yaml y overlay true files ≡ ok above
  unfolding read_yaml
  read-written above overlay files upper reads = rw (upper, reads) refl

  pub written :
      (base above : Fields) (overlay : String) (files : Files Content)
      → get overlay files ≡ some (y.safe_dump above)
      → y.safe_load (y.safe_dump above) ≡ some (obj above)
      → with_overlay y base (some overlay) files ≡ ok (merge_mapping base above)
  unfolding with_overlay read_yaml
  written base above overlay files upper reads =
      rw (upper, with_overlay, read-written above overlay files upper reads) refl
