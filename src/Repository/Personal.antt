-- ===== src/Repository/Personal.antt =====
-- The personal space of a principal stays theirs through all writing calls of the repository.
use agent_ui.Prelude.{
  ℕ, String, Bool, [], ◌∷◌, none, some, ◌≡◌, arith, nat_eq, string_eq, Bool-cases, Option-cases,
  inl, inr, ◌∙◌, find, ◌==◌,
}
use agent_ui.Prelude.Dict.{Dict, get, put, values}
use agent_ui.Repository.State.{Uuid, MemorySpace, Repository}
use agent_ui.Repository.Spaces
use agent_ui.Repository.Spaces.{is_personal_of}
use agent_ui.Repository.Proposals
use agent_ui.Repository.Bridges
use agent_ui.Repository.References
use agent_ui.Repository.References.{find_external_ref}
use agent_ui.Repository.Steps.{Step, IsValid}
use agent_ui.Repository.Invariant.SpaceTable.{SpacesValid}
use agent_ui.Repository.Invariant.Frames.{
  transition_proposal-frame, add_record_ref-frame, set_record_status-frame, erase_proposal-frame,
  expire_loop-frame,
}

find-put_new :
    {V : Type 0} (p : V → Bool) (k : Uuid) (v : V) (d : Dict Uuid V) (x : V)
    → get k d ≡ none
    → find p (values d) ≡ some x
    → find p (values (put k v d)) ≡ some x
unfolding find get put
find-put_new p k v [] x absent found = absurd (ground (arith, found))
find-put_new p k v ((j, w) ∷ d) x absent found = elim (Bool-cases (j == k)) [
  | inl same ↦ absurd (ground (arith, rw same at absent))
  | inr other ↦ elim (Bool-cases (p w)) [
    | inl hit ↦ rw (other, hit) (rw hit at found)
    | inr miss ↦ rw (other, miss) (find-put_new p k v d x (rw other at absent) (rw miss at found))
  ]
]

module _ (principal : String) (target : MemorySpace) where
  -- The personal space of the principal.
  abbrev pub IsPersonal : Repository → Type 0
  IsPersonal r = find (is_personal_of principal) (values r.spaces) ≡ some target

  same_spaces :
      (r : Repository) (d : Dict Uuid MemorySpace)
      → d ≡ r.spaces
      → IsPersonal r
      → find (is_personal_of principal) (values d) ≡ some target
  same_spaces r d e h = rw e h

  new_space : (n : ℕ) (r : Repository) → SpacesValid n r → get n r.spaces ≡ none
  new_space n r v = elim (Option-cases (get n r.spaces)) [
    | inl absent ↦ absent
    | inr (space, there) ↦ absurd (omega (arith, (v.space_ids n space there).1))
  ]

  purged_spaces :
      (r : Repository) (p : String) (id : Uuid)
      → (References.purge_record_content r p id).spaces ≡ r.spaces
  unfolding References.purge_record_content
  purged_spaces r p id = elim (Option-cases (References.get_record_ref r p id)) [
    | inl absent ↦
        rw (absent, References.purge_record_content)
          (set_record_status-frame r p id "purged").0.spaces
    | inr (a, found) ↦
        rw (found, References.purge_record_content)
          ((set_record_status-frame (References.erase_proposal r a.proposal_id) p id
              "purged").0.spaces
            ∙ (erase_proposal-frame r a.proposal_id).0.spaces)
  ]

  pub Step-IsPersonal :
      {n m : ℕ} {r t : Repository} → Step n r m t → IsValid n r → IsPersonal r → IsPersonal t
  unfolding Spaces.ensure_personal_space Spaces.create_game_space Spaces.store_space
      Spaces.set_settings Proposals.add_proposal Bridges.set_bridge_consent Spaces.audit
      Proposals.expire_proposals
  Step-IsPersonal {r = r} (Step.set_settings p s) v h = h
  Step-IsPersonal {n} {r = r} (Step.ensure_personal_space p namespace) v h =
      elim (Option-cases (find (is_personal_of p) (values r.spaces))) [
        | inr (own, at) ↦ rw (at, Spaces.ensure_personal_space) h
        | inl absent ↦
            rw (absent, Spaces.ensure_personal_space)
              (find-put_new (is_personal_of principal) n (Spaces.new_personal_space n p namespace)
                r.spaces target (new_space n r v.of_spaces) h)
      ]
  Step-IsPersonal {n} {r = r} (Step.create_game_space p name namespace metadata) v h =
      elim (Option-cases (find (Spaces.is_game_of p name) (values r.spaces))) [
        | inr (own, at) ↦ rw (at, Spaces.create_game_space) h
        | inl absent ↦
            rw (absent, Spaces.create_game_space)
              (find-put_new (is_personal_of principal) n _ r.spaces target
                (new_space n r v.of_spaces) h)
      ]
  Step-IsPersonal {r = r} (Step.add_proposal now sp p content experience hash metadata days) v h = h
  Step-IsPersonal {r = r} (Step.transition_proposal p id state content) v h =
      same_spaces r _ (transition_proposal-frame r p id state content).0.spaces h
  Step-IsPersonal {r = r} (Step.expire_proposals now) v h =
      same_spaces r _ (expire_loop-frame now (values r.proposals) (r, 0)).0.spaces h
  Step-IsPersonal {n} {r = r} (Step.add_record_ref sp p record_id proposal ext provenance) v h =
      same_spaces r _ (add_record_ref-frame r n sp p record_id proposal ext provenance).0.spaces h
  Step-IsPersonal {r = r} (Step.set_record_status p id status) v h =
      same_spaces r _ (set_record_status-frame r p id status).0.spaces h
  Step-IsPersonal {r = r} (Step.purge_record_content p id) v h =
      same_spaces r _ (purged_spaces r p id) h
  Step-IsPersonal {r = r} (Step.set_bridge_consent p source target a b) v h = h
  Step-IsPersonal {r = r} (Step.audit lower p action target_type target metadata) v h = h
