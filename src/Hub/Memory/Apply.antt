-- ===== src/Hub/Memory/Apply.antt =====
-- What `memory apply` of ops/hubctl.py leaves on disk.
use agent_ui.Prelude.{
  String, true, false, some, ◌≡◌, ◌≢◌, ◌⊎◌, string_eq, Bool-cases, inl, inr, sym, ◌∙◌, ap, ok,
  Result, if◌then◌else◌,
}
use agent_ui.Prelude.Bind.{and_then-Ran, ok-injective, Result-cases}
use agent_ui.Prelude.Dict.{get, put, get-put_self, get-put_ne}
use agent_ui.Prelude.Json.{Fields, null, obj, end}
use agent_ui.Hub.Merge.{merge_mapping}
use agent_ui.Hub.Documents.{
  Yaml, Files, Failure, read_yaml, atomic_write, get_or, is_version, require,
}
use agent_ui.Hub.Memory.{
  validate_memory_config, load_memory_config, applied_memory, applied_report, cmd_memory_apply,
  MemoryApplyArgs,
}
use agent_ui.Hub.Documents.Overlays.{read-other}
use agent_ui.Hub.Memory.Loading.{merged-load}

module _ {Content : Type 0} (y : Yaml Content) (a : MemoryApplyArgs) (files : Files Content) where
  -- The plan is the merge with the base, and it is valid.
  applied-merged :
      (candidate merged : Fields)
      → applied_memory y a files ≡ ok (candidate, merged)
      → (base : Fields) × (read_yaml y a.config false files ≡ ok base)
        × (merged ≡ merge_mapping base candidate)
        × (validate_memory_config merged ≡ ok tt)
  unfolding applied_memory
  applied-merged candidate merged h =
      let plan : Fields × Fields = (candidate, merged) in
      let (incoming, _, at_version) = and_then-Ran (read_yaml y a.file false files) _ plan h in
      let (right, _, at_right) =
        and_then-Ran (is_version 1 (get_or "version" null incoming)) _ plan at_version in
      let (_, _, at_current) = and_then-Ran (require right _) _ plan at_right in
      let (current, _, at_base) =
        and_then-Ran (if a.replace then ok end else read_yaml y a.overlay true files) _ plan
          at_current in
      let (base, lower, at_valid) =
        and_then-Ran (read_yaml y a.config false files) _ plan at_base in
      let own = if a.replace then incoming else merge_mapping current incoming in
      let (_, valid, last) =
        and_then-Ran (validate_memory_config (merge_mapping base own)) _ plan at_valid in
      let same : ◌≡◌ {A = Fields × Fields} (own, merge_mapping base own) plan =
        ok-injective _ plan last in
      (
        base,
        lower,
        sym (ap (λ p. p.1) same) ∙ ap (λ p. merge_mapping base p.0) same,
        ap (λ p. validate_memory_config p.1) (sym same) ∙ valid,
      )

  -- Where the command does not end in an error and is no dry run, the plan is what is written.
  apply-cases :
      (outcome : Result Failure Fields) (after : Files Content)
      → cmd_memory_apply y a files ≡ (outcome, after)
      → (after ≡ files)
        ⊎ ((candidate merged : Fields) × (applied_memory y a files ≡ ok (candidate, merged))
            × (after ≡ atomic_write a.overlay (y.safe_dump candidate) files))
  unfolding cmd_memory_apply
  apply-cases outcome after run = elim (Result-cases (applied_memory y a files)) [
    | inl (e, failed) ↦ inl (sym (ap (λ p. p.1) (rw (failed, cmd_memory_apply) at run)))
    | inr (plan, planned) ↦ elim (Result-cases (applied_report y a.dry_run plan.1)) [
      | inl (e, failed) ↦ inl (sym (ap (λ p. p.1) (rw (planned, cmd_memory_apply, failed) at run)))
      | inr (report, reported) ↦ elim (Bool-cases a.dry_run) [
        | inl dry ↦ inl (sym (ap (λ p. p.1) (rw (planned, cmd_memory_apply, reported, dry) at run)))
        | inr wet ↦ inr (
          plan.0,
          plan.1,
          planned,
          sym (ap (λ p. p.1) (rw (planned, cmd_memory_apply, reported, wet) at run)),
        )
      ]
    ]
  ]

  -- Whatever `memory apply` ends in, it leaves every file but its overlay as it was, and it leaves
  -- all files as they were or an overlay with which the configuration loads, where the overlay is
  -- another file than the configuration and YAML reads back what it has written.
  pub cmd_memory_apply-load :
      (outcome : Result Failure Fields) (after : Files Content) (path : String)
      → ((d : Fields) → y.safe_load (y.safe_dump d) ≡ some (obj d))
      → a.overlay ≢ a.config
      → a.overlay ≢ path
      → cmd_memory_apply y a files ≡ (outcome, after)
      → (get path after ≡ get path files)
        × ((after ≡ files)
            ⊎ ((c : Fields) × (load_memory_config y a.config (some a.overlay) after ≡ ok c)))
  unfolding atomic_write put get
  cmd_memory_apply-load outcome after path law apart other run =
      elim (apply-cases outcome after run) [
        | inl same ↦ (ap (get path) same, inl same)
        | inr (candidate, merged, planned, written) ↦
            let (base, lower, is_merged, valid) = applied-merged candidate merged planned in
            let content = y.safe_dump candidate in
            (
              ap (get path) written ∙ get-put_ne a.overlay path content files other,
              inr (
                merge_mapping base candidate,
                ap (load_memory_config y a.config (some a.overlay)) written
                    ∙ merged-load y a.config a.overlay (put a.overlay content files) base candidate
                        (read-other y a.config a.overlay content files apart ∙ lower)
                        (get-put_self a.overlay content files) (law candidate)
                        (ap validate_memory_config (sym is_merged) ∙ valid),
              ),
            )
      ]
