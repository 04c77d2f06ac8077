-- ===== src/Repository/Invariant/ReferenceTable.antt =====
-- The table of record references.
use agent_ui.Prelude.{
  ℕ, ◌≤◌, ◌<◌, String, ◌≡◌, inl, inr, true, Option, some, arith, nat_eq, string_eq, find,
  Option-cases, eq_iff,
}
use agent_ui.Prelude.Dict.{values, get, put, IsDict, get-put, put-IsDict, get-of_find-none}
use agent_ui.Prelude.Json.{Fields}
use agent_ui.Repository.State.{Uuid, MemoryRecordRef, Repository}
use agent_ui.Repository.References.{
  add_record_ref, get_record_ref, set_record_status, is_record_of, new_reference,
}

-- A reference is stored under its id, and no two of a space name one record of the provider.
pub record ReferencesValid (fresh : ℕ) (r : Repository) : Type 0 where
  pub references_dict : IsDict r.references
  pub reference_ids :
      (k : Uuid) (a : MemoryRecordRef) → get k r.references ≡ some a → (a.id ≡ k) × (k < fresh)
  pub one_record :
      (j k : Uuid) (a b : MemoryRecordRef)
      → get j r.references ≡ some a
      → get k r.references ≡ some b
      → is_record_of b.space_id b.provider_record_id a ≡ true
      → j ≡ k

pub ReferencesValid-mono :
    (fresh bound : ℕ) (r : Repository)
    → fresh ≤ bound
    → ReferencesValid fresh r
    → ReferencesValid bound r
ReferencesValid-mono fresh bound r le v = record {
  references_dict = v.references_dict;
  reference_ids = λ k a at. omega (arith, v.reference_ids k a at);
  one_record = v.one_record;
}

module _ (fresh bound : ℕ) (r : Repository) (v : ReferencesValid fresh r) (le : fresh ≤ bound) where
  -- A write of a reference whose record no reference under another id has.
  pub put-ReferencesValid :
      (a : MemoryRecordRef)
      → a.id < bound
      → ((k : Uuid) (b : MemoryRecordRef)
          → get k r.references ≡ some b
          → is_record_of a.space_id a.provider_record_id b ≡ true
          → k ≡ a.id)
      → ReferencesValid bound (record r { references = put a.id a r.references })
  put-ReferencesValid a below sole = record {
    references_dict = put-IsDict a.id a r.references v.references_dict;
    reference_ids = λ k b at. ground (arith, get-put a.id k a r.references, v.reference_ids k b);
    one_record = λ j k b c at_b at_c same. ground (
      arith,
      get-put a.id j a r.references,
      get-put a.id k a r.references,
      sole j b,
      sole k c,
      v.one_record j k b c,
      eq_iff b.provider_record_id c.provider_record_id,
      eq_iff c.provider_record_id b.provider_record_id,
    );
  }

  pub add_record_ref-ReferencesValid :
      (new_id space : Uuid) (principal record_id : String) (proposal : Option Uuid)
      (external : Option String) (provenance : Fields)
      → new_id < bound
      → ReferencesValid bound
          (add_record_ref r new_id space principal record_id proposal external provenance).0
  unfolding add_record_ref
  add_record_ref-ReferencesValid new_id space principal record_id proposal external provenance
        below =
      elim (Option-cases (find (is_record_of space record_id) (values r.references))) [
        | inr (a, found) ↦ rw (found, add_record_ref) (ReferencesValid-mono fresh bound r le v)
        | inl absent ↦
            rw (absent, add_record_ref)
              (put-ReferencesValid
                (new_reference new_id space principal record_id proposal external provenance) below
                (λ k b at same. ground (
                  arith,
                  get-of_find-none (is_record_of space record_id) k r.references absent at,
                )))
      ]

pub get_record_ref-lem :
    (r : Repository) (principal : String) (id : Uuid) (a : MemoryRecordRef)
    → get_record_ref r principal id ≡ some a
    → (get id r.references ≡ some a) × (a.principal_id ≡ principal)
unfolding get_record_ref
get_record_ref-lem r principal id a h = elim (Option-cases (get id r.references)) [
  | inl absent ↦ ground arith
  | inr (b, at) ↦ ground (arith, eq_iff b.principal_id principal)
]

module _ (fresh : ℕ) (r : Repository) (v : ReferencesValid fresh r) where
  pub set_record_status-ReferencesValid :
      (principal : String) (id : Uuid) (status : String)
      → ReferencesValid fresh (set_record_status r principal id status)
  unfolding set_record_status
  set_record_status-ReferencesValid principal id status =
      elim (Option-cases (get_record_ref r principal id)) [
        | inl absent ↦ rw (absent, set_record_status) v
        | inr (a, found) ↦
            let at = (get_record_ref-lem r principal id a found).0 in
            let own = v.reference_ids id a at in
            rw (found, set_record_status)
              (put-ReferencesValid fresh fresh r v (omega arith) (record a { status = status })
                (omega (arith, own))
                (λ k b at_b same. ground (arith, own, v.one_record k id b a at_b at)))
      ]
