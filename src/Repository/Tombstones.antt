-- ===== src/Repository/Tombstones.antt =====
-- What is left of a record that was corrected, forgotten or purged.
use agent_ui.Prelude.{
  ℕ, ◌≤◌, String, ◌≡◌, refl, inl, inr, true, Option, none, some, arith, nat_eq, string_eq,
  option_eq, find, Option-cases, eq_iff, is_some,
}
use agent_ui.Prelude.Dict.{values, get, get-put, find-put}
use agent_ui.Prelude.Json.{Fields}
use agent_ui.Repository.State.{Uuid, MemoryProposal, MemoryRecordRef, Repository}
use agent_ui.Repository.References.{
  add_record_ref, get_record_ref, find_external_ref, set_record_status, erase_proposal,
  purge_record_content, is_external_of, is_record_of, new_reference,
}
use agent_ui.Repository.Steps.{Step, IsValid, Step-IsValid}
use agent_ui.Repository.Invariant.ReferenceTable.{ReferencesValid, get_record_ref-lem}
use agent_ui.Repository.Invariant.Frames.{
  ensure_personal_space-frame, create_game_space-frame, transition_proposal-frame,
  erase_proposal-frame, expire_loop-frame, ReferencesValid-frame,
}
use agent_ui.Repository.Spaces
use agent_ui.Repository.Proposals
use agent_ui.Repository.Bridges

abbrev pub Knows : Repository → String → Uuid → String → Type 0
Knows r principal space external = is_some (find_external_ref r principal space external) ≡ true

module _ (principal : String) (space : Uuid) (external : String) where
  same_references :
      (r t : Repository)
      → t.references ≡ r.references
      → Knows r principal space external
      → Knows t principal space external
  unfolding find_external_ref
  same_references r t e h = rw e h

  set_record_status-Knows :
      (r : Repository) (n : ℕ) (caller : String) (id : Uuid) (status : String)
      → ReferencesValid n r
      → Knows r principal space external
      → Knows (set_record_status r caller id status) principal space external
  unfolding set_record_status find_external_ref
  set_record_status-Knows r n caller id status v h =
      elim (Option-cases (get_record_ref r caller id)) [
        | inl absent ↦ rw (absent, set_record_status) h
        | inr (a, found) ↦
            let at = (get_record_ref-lem r caller id a found).0 in
            rw (found, set_record_status)
              (find-put (is_external_of principal space external) a.id
                (record a { status = status }) r.references
                (λ b at_b passes. ground (arith, v.reference_ids id a at)) h)
      ]

  add_record_ref-Knows :
      (r : Repository) (n : ℕ) (id where_to : Uuid) (caller record_id : String)
      (proposal : Option Uuid) (ext : Option String) (provenance : Fields)
      → ReferencesValid n r
      → n ≤ id
      → Knows r principal space external
      → Knows
          (add_record_ref r id where_to caller record_id proposal ext provenance).0
          principal
          space
          external
  unfolding add_record_ref find_external_ref
  add_record_ref-Knows r n id where_to caller record_id proposal ext provenance v new h =
      elim (Option-cases (find (is_record_of where_to record_id) (values r.references))) [
        | inr (a, found) ↦ rw (found, add_record_ref) h
        | inl absent ↦
            rw (absent, add_record_ref)
              (find-put (is_external_of principal space external) id
                (new_reference id where_to caller record_id proposal ext provenance) r.references
                (λ b at_b passes. absurd (omega (arith, v.reference_ids id b at_b))) h)
      ]

  purge_record_content-Knows :
      (r : Repository) (n : ℕ) (caller : String) (id : Uuid)
      → ReferencesValid n r
      → Knows r principal space external
      → Knows (purge_record_content r caller id) principal space external
  unfolding purge_record_content
  purge_record_content-Knows r n caller id v h = elim (Option-cases (get_record_ref r caller id)) [
    | inl absent ↦
        rw (absent, purge_record_content) (set_record_status-Knows r n caller id "purged" v h)
    | inr (a, found) ↦
        let erased = erase_proposal r a.proposal_id in
        let same = (erase_proposal-frame r a.proposal_id).1 in
        rw (found, purge_record_content)
          (set_record_status-Knows erased n caller id "purged"
            (ReferencesValid-frame n r erased same v) (same_references r erased same h))
  ]

  -- No call makes the repository forget an external id.
  pub Step-Knows :
      {n m : ℕ} {r t : Repository}
      → Step n r m t
      → IsValid n r
      → Knows r principal space external
      → Knows t principal space external
  unfolding Spaces.set_settings Spaces.audit Bridges.set_bridge_consent Proposals.expire_proposals
      Proposals.add_proposal
  Step-Knows {r = r} (Step.set_settings p s) v h = same_references r _ refl h
  Step-Knows {n} {r = r} (Step.ensure_personal_space p namespace) v h =
      same_references r _ (ensure_personal_space-frame r n p namespace).1 h
  Step-Knows {n} {r = r} (Step.create_game_space p name namespace metadata) v h =
      same_references r _ (create_game_space-frame r n p name namespace metadata).1 h
  Step-Knows {r = r} (Step.add_proposal now sp p content experience hash metadata days) v h =
      same_references r _ refl h
  Step-Knows {r = r} (Step.transition_proposal p id state content) v h =
      same_references r _ (transition_proposal-frame r p id state content).1 h
  Step-Knows {r = r} (Step.expire_proposals now) v h =
      same_references r _ (expire_loop-frame now (values r.proposals) (r, 0)).1 h
  Step-Knows {n} {r = r} (Step.add_record_ref sp p record_id proposal ext provenance) v h =
      add_record_ref-Knows r n n sp p record_id proposal ext provenance v.of_references
        (omega arith) h
  Step-Knows {n} {r = r} (Step.set_record_status p id status) v h =
      set_record_status-Knows r n p id status v.of_references h
  Step-Knows {n} {r = r} (Step.purge_record_content p id) v h =
      purge_record_content-Knows r n p id v.of_references h
  Step-Knows {r = r} (Step.set_bridge_consent p source target a b) v h = same_references r _ refl h
  Step-Knows {r = r} (Step.audit lower p action target_type target metadata) v h =
      same_references r _ refl h

-- States that later calls lead to.
pub data Later (n : ℕ) (r : Repository) : ℕ → Repository → Type 0 where
  now : Later n r n r
  after : {m k : ℕ} {t u : Repository} → Later n r m t → Step m t k u → Later n r k u

Later-IsValid :
    {n : ℕ} {r : Repository} {m : ℕ} {t : Repository} → Later n r m t → IsValid n r → IsValid m t
Later-IsValid Later.now v = v
Later-IsValid (Later.after l s) v = Step-IsValid s (Later-IsValid l v)

-- An external id that a principal has used in a space is found by `find_external_ref` after any
-- later calls by anybody: correcting, forgetting and purging the record included.
pub Later-Knows :
    (principal : String) (space : Uuid) (external : String) {n : ℕ} {r : Repository} {m : ℕ}
    {t : Repository}
    → IsValid n r
    → Later n r m t
    → Knows r principal space external
    → Knows t principal space external
Later-Knows principal space external v Later.now h = h
Later-Knows principal space external v (Later.after l s) h =
    Step-Knows principal space external s (Later-IsValid l v)
      (Later-Knows principal space external v l h)

-- On a well-formed state, after a principal purges a reference of theirs it is kept with status
-- purged, and the proposal behind it, if there is one that is stored, has no content.
pub purge_record_content-erases :
    (n : ℕ) (r : Repository) (principal : String) (id : Uuid) (a : MemoryRecordRef)
    → IsValid n r
    → get_record_ref r principal id ≡ some a
    → (get_record_ref (purge_record_content r principal id) principal id
        ≡ some (record a { status = "purged" }))
      × ((p : Uuid) (q : MemoryProposal)
          → a.proposal_id ≡ some p
          → get p (purge_record_content r principal id).proposals ≡ some q
          → q.content ≡ none)
unfolding purge_record_content set_record_status erase_proposal get_record_ref
purge_record_content-erases n r principal id a v found =
    let at = (get_record_ref-lem r principal id a found).0 in
    elim (Option-cases a.proposal_id) [
      | inl alone ↦ (
        ground (
          arith,
          at,
          v.of_references.reference_ids id a at,
          eq_iff a.principal_id principal,
          get-put id id (record a { status = "purged" }) r.references,
        ),
        λ p q e at_q. absurd (ground arith),
      )
      | inr (o, behind) ↦ (
        ground (
          arith,
          at,
          v.of_references.reference_ids id a at,
          eq_iff a.principal_id principal,
          get-put id id (record a { status = "purged" }) r.references,
        ),
        λ p q e at_q. elim (Option-cases (get o r.proposals)) [
          | inl absent ↦ absurd (ground arith)
          | inr (y, at_y) ↦ ground (
            arith,
            at,
            v.of_proposals.proposal_ids o y at_y,
            get-put o o (record y { content = none }) r.proposals,
          )
        ],
      )
    ]
