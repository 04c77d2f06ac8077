-- ===== src/Service/Skips.antt =====
-- What `import_personal` counts.
use agent_ui.Prelude.{
  ℕ, suc, ◌+◌, ◌≤◌, String, Bool, true, false, not, List, [], ◌∷◌, Option, none, some, ◌≡◌, refl,
  arith, Result, ok, pure, ◌>>=◌, case_option, if◌then◌else◌, is_some, length, nat_eq, string_eq,
  Bool-cases, Option-cases, inl, inr, ap, subst,
}
use agent_ui.Prelude.Bind.{>>=-Ran}
use agent_ui.Prelude.Json.{Fields}
use agent_ui.Repository.State.{MemorySpace, Repository}
use agent_ui.Repository.Spaces
use agent_ui.Repository.Spaces.{is_personal_of}
use agent_ui.Repository.References.{find_external_ref}
use agent_ui.Repository.Steps.{Step, IsValid, Step-IsValid}
use agent_ui.Repository.Tombstones.{Knows, Step-Knows}
use agent_ui.Service.World.{MemoryService, World, drawing, reading}
use agent_ui.Service.Access.{personal_space}
use agent_ui.Provider.{Error}
use agent_ui.Service.Import.{
  Imported, import_content, import_id, import_one, import_loop, import_personal, count_skipped,
  count_imported, find_known, add_item,
}
use agent_ui.Service.Closed.Rules.{IsClosed}
use agent_ui.Service.Closed.Methods.{personal_space-Keeps}
use agent_ui.Service.Closed.Review.{import_one-Keeps}
use agent_ui.Service.Guarantees.{repository-IsClosed}
use agent_ui.Repository.Personal.{IsPersonal, Step-IsPersonal}

-- The items of an import that are neither blank nor known by their external id in the personal
-- space.
module _ (s : MemoryService) (principal : String) (target : MemorySpace) (r0 : Repository) where
  pub is_new : Fields → Bool
  is_new item = case_option (import_content item) false (λ content.
      case_option (import_id s.host item) true
        (λ e. not (is_some (find_external_ref r0 principal target.id e))))

  pub new_items : List Fields → ℕ
  new_items [] = 0
  new_items (item ∷ items) = (if is_new item then 1 else 0) + new_items items

  -- What holds throughout the import.
  record OfImport (n : ℕ) (r : Repository) : Type 0 where
    valid : IsValid n r
    personal : IsPersonal principal target r
    known : (e : String) → Knows r0 principal target.id e → Knows r principal target.id e

  Step-OfImport : (n m : ℕ) (r t : Repository) → Step n r m t → OfImport n r → OfImport m t
  Step-OfImport n m r t step h = record {
    valid = Step-IsValid step h.valid;
    personal = Step-IsPersonal principal target step h.valid h.personal;
    known = λ e k. Step-Knows principal target.id e step h.valid (h.known e k);
  }

  abbrev Holds : World s.provider.State → Type 0
  Holds w = OfImport w.uuids w.repository

  closed : IsClosed s Holds
  closed = repository-IsClosed s OfImport Step-OfImport

  personal_space-target :
      (w u : World s.provider.State) (space : MemorySpace)
      → Holds w
      → personal_space s principal w ≡ (ok space, u)
      → (space ≡ target) × Holds u
  unfolding personal_space drawing Spaces.ensure_personal_space pure
  personal_space-target w u space h ran =
      let kept = (personal_space-Keeps s Holds closed principal).at w h in
      let first = >>=-Ran _ _ w space u ran in
      let last = >>=-Ran _ _ first.between space u first.rest in
      (ground (arith, first.first, last.rest, h.personal), subst Holds (ap (λ p. p.1) ran) kept)

  -- A round that adds counts one as imported.
  added_counts :
      (item : Fields) (content : String) (external : Option String) (before : MemorySpace)
      (counts counted : Imported) (w v : World s.provider.State)
      → add_item s principal item content external before counts w ≡ (ok counted, v)
      → counted ≡ count_imported counts
  unfolding add_item pure
  added_counts item content external before counts counted w v ran =
      let a = >>=-Ran _ _ w counted v ran in
      let b = >>=-Ran _ _ a.between counted v a.rest in
      let c = >>=-Ran _ _ b.between counted v b.rest in ground (arith, c.rest)

  -- What a round that returns has counted.
  abbrev IsRound : Fields → Imported → Imported → Type 0
  IsRound item counts counted =
      (counted.imported + counted.skipped ≡ suc (counts.imported + counts.skipped))
      × (counted.imported ≤ counts.imported + (if is_new item then 1 else 0))

  skipped-IsRound :
      (item : Fields) (counts counted : Imported) (w v : World s.provider.State)
      → ◌≡◌ {A = Result Error Imported × World s.provider.State}
          (pure (count_skipped counts) w)
          (ok counted, v)
      → IsRound item counts counted
  unfolding pure
  skipped-IsRound item counts counted w v ran = (ground (arith, ran), ground (arith, ran))

  added-IsRound :
      (item : Fields) (counts counted : Imported)
      → is_new item ≡ true
      → counted ≡ count_imported counts
      → IsRound item counts counted
  added-IsRound item counts counted new e = rw new (ground (arith, e), ground (arith, e))

  -- The end of a round for an item with a content.
  found-IsRound :
      (item : Fields) (content : String) (external : Option String) (before : MemorySpace)
      (counts counted : Imported) (w v : World s.provider.State)
      → import_content item ≡ some content
      → import_id s.host item ≡ external
      → before ≡ target
      → Holds w
      → (find_known s principal before external >>= λ existing.
            case_option existing
              (add_item s principal item content external before counts)
              (λ _. pure (count_skipped counts)))
          w
        ≡ (ok counted, v)
      → IsRound item counts counted
  unfolding is_new pure reading
  found-IsRound item content none before counts counted w v there named own h ran =
      let b = >>=-Ran (find_known s principal before none) _ w counted v ran in
      let nothing : b.value ≡ none = ground (arith, b.first) in
      added-IsRound item counts counted (rw (there, named) refl)
        (added_counts item content none before counts counted b.between v (rw nothing at b.rest))
  found-IsRound item content (some e) before counts counted w v there named own h ran =
      let b = >>=-Ran (find_known s principal before (some e)) _ w counted v ran in
      let answer : b.value ≡ find_external_ref w.repository principal before.id e =
        ground (arith, b.first) in
      elim (Option-cases b.value) [
        | inr (reference, known) ↦
            skipped-IsRound item counts counted b.between v (rw known at b.rest)
        | inl nothing ↦
            let unknown : is_some (find_external_ref r0 principal target.id e) ≡ false =
              elim (Bool-cases (is_some (find_external_ref r0 principal target.id e))) [
                | inr not_known ↦ not_known
                | inl known ↦ absurd (
                    ground (
                      arith,
                      h.known e known,
                      rw nothing at answer,
                      ap (λ x. find_external_ref w.repository principal x.id e) own,
                    ))
              ] in
            added-IsRound item counts counted (rw (there, named, unknown) refl) (
              added_counts item content (some e) before counts counted b.between v
                (rw nothing at b.rest))
      ]

  import_one-IsRound :
      (item : Fields) (counts counted : Imported) (w v : World s.provider.State)
      → Holds w
      → import_one s principal item counts w ≡ (ok counted, v)
      → IsRound item counts counted
  unfolding import_one
  import_one-IsRound item counts counted w v h ran = elim (Option-cases (import_content item)) [
    | inl blank ↦ skipped-IsRound item counts counted w v (rw blank at ran)
    | inr (content, there) ↦
        let external = import_id s.host item in
        let a = >>=-Ran (personal_space s principal) _ w counted v (rw there at ran) in
        let (own, held) = personal_space-target w a.between a.value h a.first in
        found-IsRound item content external a.value counts counted a.between v there refl own held
          a.rest
  ]

  import_loop-IsCounted :
      (items : List Fields) (counts result : Imported) (w v : World s.provider.State)
      → Holds w
      → import_loop s principal items counts w ≡ (ok result, v)
      → (result.imported + result.skipped ≡ counts.imported + counts.skipped + length items)
        × (result.imported ≤ counts.imported + new_items items)
  unfolding import_loop pure new_items
  import_loop-IsCounted [] counts result w v h ran = (ground (arith, ran), ground (arith, ran))
  import_loop-IsCounted (item ∷ items) counts result w v h ran =
      let a = >>=-Ran (import_one s principal item counts) _ w result v ran in
      let round = import_one-IsRound item counts a.value w a.between h a.first in
      let kept =
        subst Holds (ap (λ p. p.1) a.first)
          ((import_one-Keeps s Holds closed principal item counts).at w h) in
      let rest = import_loop-IsCounted items a.value result a.between v kept a.rest in
      (omega (arith, round.0, rest.0), omega (arith, round.1, rest.1))

-- From a well-formed state in which the principal has a personal space, an import that returns
-- counts every item once, as imported or as skipped, and it counts no more as imported than the
-- items that are neither blank nor known, by their external id, in that space at the start.
pub import_personal-counts :
    (s : MemoryService) (principal : String) (target : MemorySpace) (items : List Fields)
    (result : Imported) (w v : World s.provider.State)
    → IsValid w.uuids w.repository
    → IsPersonal principal target w.repository
    → import_personal s principal items w ≡ (ok result, v)
    → (result.imported + result.skipped ≡ length items)
      × (result.imported ≤ new_items s principal target w.repository items)
unfolding import_personal
import_personal-counts s principal target items result w v valid personal ran =
    let counted =
      import_loop-IsCounted s principal target w.repository items
        (record { imported = 0; skipped = 0 }) result w v
        (record { valid = valid; personal = personal; known = λ e k. k }) ran in
    (omega (arith, counted.0), omega (arith, counted.1))
