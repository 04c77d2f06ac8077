-- ===== src/Service/Closed/Review.antt =====
-- The methods on proposals, captures, imports, bridges and games keep a closed predicate.
use agent_ui.Prelude.{
  ℕ, ◌&&◌, String, Bool, true, false, not, List, [], ◌∷◌, Option, none, some, ◌≡◌, arith,
}
use agent_ui.Prelude.Keeps.{Keeps, keeps_rules, Keeps-bind, Keeps-pure}
use agent_ui.Prelude.Json.{Fields, Float}
use agent_ui.Provider.{MemoryScope, ProviderRecord}
use agent_ui.Repository.State.{Uuid, MemorySpace, MemoryProposal}
use agent_ui.Service.World.{MemoryService, World, provided}
use agent_ui.Service.Candidates.{SafeCandidate}
use agent_ui.Service.Records.{is_secret}
use agent_ui.Service.Import.{
  import_one, add_item, import_loop, import_personal, Imported, find_known,
}
use agent_ui.Service.Review.{
  proposals, expire_on_approval, store_approved, approve_proposal, reject_proposal,
}
use agent_ui.Service.Capture.{
  propose_loop, add_proposals, capture_one, capture_loop, add_automatic_candidates,
}
use agent_ui.Service.Sharing.{
  PrincipalKind, bridge_loop, context, set_bridge, create_game_space, ingest_game_event,
  game_context,
}
use agent_ui.Service.Closed.Rules.{
  IsClosed, reading-Keeps, clock_now-Keeps, audit-Keeps, transition_proposal-Keeps,
  expire_proposals-Keeps, set_bridge_consent-Keeps, add_proposal-Keeps, add_record_ref-Keeps,
}
use agent_ui.Service.Closed.Rules
use agent_ui.Service.Closed.Methods.{
  personal_space-Keeps, require_space-Keeps, can_retrieve-Keeps, add_approved-Keeps,
}

module _ (s : MemoryService) (P : World s.provider.State → Type 0) (c : IsClosed s P) where
  pub proposals-Keeps : (principal state : String) → Keeps P (proposals s principal state)
  unfolding proposals
  proposals-Keeps principal state =
      let clock = clock_now-Keeps s P c in
      search (keeps_rules, expire_proposals-Keeps s P c, reading-Keeps s P c) depth 9

  expire_on_approval-Keeps :
      (principal : String) (p : MemoryProposal) → Keeps P (expire_on_approval s principal p)
  unfolding expire_on_approval
  expire_on_approval-Keeps principal p =
      search (keeps_rules, transition_proposal-Keeps s P c, audit-Keeps s P c) depth 9

  store_approved-Keeps :
      (principal : String) (p : MemoryProposal) (approved : String)
      → is_secret s approved ≡ false
      → Keeps P (store_approved s principal p approved)
  unfolding store_approved
  store_approved-Keeps principal p approved clean =
      search
        (
          keeps_rules,
          require_space-Keeps s P c,
          c.ingested,
          add_record_ref-Keeps s P c,
          transition_proposal-Keeps s P c,
          audit-Keeps s P c,
        )
        depth 13

  clean_of :
      (b : Bool) (content : String)
      → (b && not (is_secret s content)) ≡ true
      → is_secret s content ≡ false
  clean_of b content h = ground arith

  pub approve_proposal-Keeps :
      (principal : String) (id : Uuid) (content : Option String)
      → Keeps P (approve_proposal s principal id content)
  unfolding approve_proposal
  approve_proposal-Keeps principal id content =
      let clock = clock_now-Keeps s P c in
      search
        (keeps_rules, reading-Keeps s P c, expire_on_approval-Keeps, store_approved-Keeps, clean_of)
        depth 13

  pub reject_proposal-Keeps :
      (principal : String) (id : Uuid) → Keeps P (reject_proposal s principal id)
  unfolding reject_proposal
  reject_proposal-Keeps principal id =
      search (keeps_rules, transition_proposal-Keeps s P c, audit-Keeps s P c) depth 9

  propose_loop-Keeps :
      (principal : String) (target : MemorySpace) (experience : String) (hash : Option String)
      (cs : List SafeCandidate)
      → Keeps P (propose_loop s principal target experience hash cs)
  unfolding propose_loop
  propose_loop-Keeps principal target experience hash [] = search keeps_rules
  propose_loop-Keeps principal target experience hash (d ∷ cs) =
      let clock = clock_now-Keeps s P c in
      let rest = propose_loop-Keeps principal target experience hash cs in
      search (keeps_rules, add_proposal-Keeps s P c) depth 9

  pub add_proposals-Keeps :
      (principal : String) (candidates : List Fields) (experience : String) (hash : Option String)
      → Keeps P (add_proposals s principal candidates experience hash)
  unfolding add_proposals
  add_proposals-Keeps principal candidates experience hash =
      search (keeps_rules, personal_space-Keeps s P c, propose_loop-Keeps) depth 9

  capture_one-Keeps :
      (principal : String) (target : MemorySpace) (experience : String) (d : SafeCandidate)
      → Keeps P (capture_one s principal target experience d)
  unfolding capture_one
  capture_one-Keeps principal target experience d =
      search (keeps_rules, reading-Keeps s P c, add_approved-Keeps s P c) depth 9

  capture_loop-Keeps :
      (principal : String) (target : MemorySpace) (experience : String) (cs : List SafeCandidate)
      → Keeps P (capture_loop s principal target experience cs)
  unfolding capture_loop
  capture_loop-Keeps principal target experience [] = search keeps_rules
  capture_loop-Keeps principal target experience (d ∷ cs) =
      let rest = capture_loop-Keeps principal target experience cs in
      search (keeps_rules, capture_one-Keeps) depth 9

  pub add_automatic_candidates-Keeps :
      (principal : String) (candidates : List Fields) (experience : String)
      → Keeps P (add_automatic_candidates s principal candidates experience)
  unfolding add_automatic_candidates
  add_automatic_candidates-Keeps principal candidates experience =
      search (keeps_rules, personal_space-Keeps s P c, capture_loop-Keeps) depth 9

  find_known-Keeps :
      (principal : String) (space : MemorySpace) (o : Option String)
      → Keeps P (find_known s principal space o)
  find_known-Keeps principal space none = Keeps-pure none
  find_known-Keeps principal space (some id) = reading-Keeps s P c _

  pub import_one-Keeps :
      (principal : String) (item : Fields) (counts : Imported)
      → Keeps P (import_one s principal item counts)
  unfolding import_one add_item
  import_one-Keeps principal item counts =
      search (keeps_rules, personal_space-Keeps s P c, find_known-Keeps, add_approved-Keeps s P c)
        depth 13

  import_loop-Keeps :
      (principal : String) (items : List Fields) (counts : Imported)
      → Keeps P (import_loop s principal items counts)
  unfolding import_loop
  import_loop-Keeps principal [] counts = search keeps_rules
  import_loop-Keeps principal (item ∷ items) counts =
      Keeps-bind _ _ (import_one-Keeps principal item counts)
        (λ counted. import_loop-Keeps principal items counted)

  pub import_personal-Keeps :
      (principal : String) (items : List Fields) → Keeps P (import_personal s principal items)
  unfolding import_personal
  import_personal-Keeps principal items = import_loop-Keeps principal items _

  bridge_loop-Keeps :
      (principal query : String) (limit : ℕ) (sources : List MemorySpace)
      (found : List ProviderRecord)
      → Keeps P (bridge_loop s principal query limit sources found)
  unfolding bridge_loop
  bridge_loop-Keeps principal query limit [] found = search keeps_rules
  bridge_loop-Keeps principal query limit (source ∷ sources) found =
      search
        (
          keeps_rules,
          c.loaded,
          λ (all : List ProviderRecord). bridge_loop-Keeps principal query limit sources all,
        )
        depth 9

  pub context-Keeps :
      (principal query : String) (limit : ℕ) (experience : String) (capability : Option String)
      → Keeps P (context s principal query limit experience capability)
  unfolding context
  context-Keeps principal query limit experience capability =
      search
        (
          keeps_rules,
          can_retrieve-Keeps s P c,
          personal_space-Keeps s P c,
          c.loaded,
          reading-Keeps s P c,
          bridge_loop-Keeps,
        )
        depth 17

  pub set_bridge-Keeps :
      (principal : String) (source target : Uuid) (a b : Bool)
      → Keeps P (set_bridge s principal source target a b)
  unfolding set_bridge
  set_bridge-Keeps principal source target a b =
      search
        (keeps_rules, require_space-Keeps s P c, set_bridge_consent-Keeps s P c, audit-Keeps s P c)
        depth 13

  pub create_game_space-Keeps :
      (principal : String) (kind : PrincipalKind) (name namespace world campaign : String)
      (player : Option String)
      → Keeps P (create_game_space s principal kind name namespace world campaign player)
  unfolding create_game_space
  create_game_space-Keeps principal kind name namespace world campaign player =
      search (keeps_rules, Rules.create_game_space-Keeps s P c) depth 9

  pub game_context-Keeps :
      (principal : String) (kind : PrincipalKind) (space : Uuid) (query : String) (limit : ℕ)
      (session : Option String)
      → Keeps P (game_context s principal kind space query limit session)
  unfolding game_context
  game_context-Keeps principal kind space query limit session =
      search (keeps_rules, require_space-Keeps s P c, c.loaded) depth 13

  -- A game event is not looked through for secrets: the predicate has to be kept by any `ingest`.
  pub ingest_game_event-Keeps :
      ((scope : MemoryScope) (content : String) (source : Option String) (metadata : Fields)
          (importance : Float) (record_id : Option String)
        → Keeps P (provided (s.provider.ingest scope content source metadata importance record_id)))
      → (principal : String) (kind : PrincipalKind) (space : Uuid) (external content : String)
        (metadata : Fields) (session : Option String)
      → Keeps P (ingest_game_event s principal kind space external content metadata session)
  unfolding ingest_game_event
  ingest_game_event-Keeps any_ingest principal kind space external content metadata session =
      search
        (
          keeps_rules,
          require_space-Keeps s P c,
          reading-Keeps s P c,
          any_ingest,
          add_record_ref-Keeps s P c,
        )
        depth 15
