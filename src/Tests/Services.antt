-- ===== src/Tests/Services.antt =====
-- The theorems on the service, for a service whose provider logs all that it is told.
use agent_ui.Prelude.{
  ◌+◌, ◌≤◌, length, String, false, List, [], ◌∷◌, none, some, ◌≡◌, ◌≢◌, refl, arith, All, any, ok,
  raise, nat_eq, string_eq, eq_iff, find, contains, ◌>>=◌,
}
use agent_ui.Prelude.Json.{Fields, float_half, end, field, str, get_field}
use agent_ui.Prelude.Dict.{get, put}
use agent_ui.Prelude.Text.{is_space, strip, join}
use agent_ui.Provider.{access_error}
use agent_ui.Repository.State.{MemoryProposal, MemoryRecordRef, MemorySpace}
use agent_ui.Repository.Spaces
use agent_ui.Repository.Proposals
use agent_ui.Repository.Proposals.{moved}
use agent_ui.Repository.References
use agent_ui.Repository.References.{new_reference}
use agent_ui.Repository.Bridges
use agent_ui.Repository.Tombstones.{Knows}
use agent_ui.Repository.Steps.{IsValid, empty-IsValid, Step-IsValid}
use agent_ui.Repository.Steps
use agent_ui.Service.World.{World, drawing, provided, reading, clock_now}
use agent_ui.Secrets.{contains_probable_secret}
use agent_ui.Service.Candidates.{SafeCandidate}
use agent_ui.Service.Records.{is_secret, correct_record, forget_record, purge_record}
use agent_ui.Repository.Personal.{IsPersonal}
use agent_ui.Service.Skips.{new_items, import_personal-counts}
use agent_ui.Service.Import.{import_personal, Imported}
use agent_ui.Service.Capture.{capture_loop, automatic_capture_id}
use agent_ui.Service.Review.{approve_proposal}
use agent_ui.Service.Closed.Calls.{Call, is_game_event, perform_all}
use agent_ui.Service.Guarantees.{
  ProviderKeeps, perform_all-store, perform_all-IsValid, perform_all-Knows,
}
use agent_ui.Service.Outcomes.{foreign_record-refused, capture_loop-after_calls}
use agent_ui.Service.Approval.{approve_proposal-Approved, Approved}
use agent_ui.Tests.Demo.{tally, service, world_of, new_world}
use agent_ui.Tests.Repositories.{full, full-IsValid, tea, known_run}

abbrev calls : List Call
calls =
    Call.add_approved "alice" "likes tea" none end float_half none
    ∷ Call.add_approved "alice" "password: hunter2" none end float_half none
    ∷ Call.import_personal "alice" (field "content" (str "has a cat") end ∷ end ∷ [])
    ∷ []

calls_run : (perform_all service calls new_world).store ≡ "has a cat" ∷ "likes tea" ∷ []
unfolding perform_all import_personal ◌>>=◌ get_field strip is_space drawing
    contains_probable_secret Spaces.ensure_personal_space find provided Spaces.audit
    References.add_record_ref put
calls_run = refl

abbrev pub Clean : List String → Type 0
Clean log = All (λ content. is_secret service content ≡ false) log

pub log-keeps : ProviderKeeps service Clean
log-keeps = record {
  ingested =
      λ scope content source metadata importance id clean. record { at = λ log h. (clean, h) };
  corrected = λ scope id content reason clean. record { at = λ log h. (clean, h) };
  loaded = λ scope query limit. record { at = λ log h. h };
  listed = λ scope all. record { at = λ log h. h };
  forgotten = λ scope id reason. record { at = λ log h. h };
  purged = λ scope id reason. record { at = λ log h. h };
  exported = λ scope. record { at = λ log h. h };
  migrated = λ migrate principal scope e. absurd (ground arith);
}

no_game : any is_game_event calls ≡ false
unfolding any
no_game = refl

perform_all-store_example : Clean (perform_all service calls new_world).store
perform_all-store_example = perform_all-store service Clean calls new_world log-keeps no_game tt

perform_all-IsValid_example :
    IsValid
      (perform_all service calls new_world).uuids
      (perform_all service calls new_world).repository
perform_all-IsValid_example = perform_all-IsValid service calls new_world (empty-IsValid 1)

abbrev full_world : World (List String)
full_world = world_of 5 full

abbrev purge_calls : List Call
purge_calls = Call.purge_record "alice" 4 "asked" ∷ Call.spaces "bob" ∷ []

perform_all-Knows_example :
    Knows (perform_all service purge_calls full_world).repository "alice" 1 "capture"
perform_all-Knows_example =
    perform_all-Knows service purge_calls full_world "alice" 1 "capture" full-IsValid known_run

abbrev approved : MemoryProposal
approved = moved tea "approved" (some "likes tea")

approved_run :
    approve_proposal service "alice" 3 none full_world
    ≡ (ok (approved, 4), (approve_proposal service "alice" 3 none full_world).1)
unfolding approve_proposal Spaces.ensure_personal_space Spaces.create_game_space
    Proposals.add_proposal References.add_record_ref Bridges.set_bridge_consent get put find
    contains ◌>>=◌ reading Proposals.get_proposal clock_now strip is_space contains_probable_secret
    Spaces.get_space get_field provided drawing Proposals.transition_proposal
approved_run = refl

approve_proposal-Approved_example :
    Approved service "alice" 3 none full_world
      (approve_proposal service "alice" 3 none full_world).1
      approved
approve_proposal-Approved_example =
    approve_proposal-Approved service "alice" 5 3 none full_world
      (approve_proposal service "alice" 3 none full_world).1 approved 4 full-IsValid approved_run

abbrev reference : MemoryRecordRef
reference = new_reference 4 1 "alice" "record" (some 3) (some "capture") end

reference_run : get 4 full.references ≡ some reference
unfolding Spaces.ensure_personal_space Spaces.create_game_space Proposals.add_proposal
    References.add_record_ref Bridges.set_bridge_consent get put find contains
reference_run = refl

not_bob : ◌≢◌ {A = String} "alice" "bob"
not_bob = ground (arith, eq_iff "alice" "bob")

clean_run : is_secret service "likes coffee" ≡ false
unfolding contains_probable_secret
clean_run = refl

foreign_record-refused_example :
    (correct_record service "bob" 4 "likes coffee" "mine" full_world
      ≡ (raise (access_error "memory record was not found"), full_world))
    × (forget_record service "bob" 4 "mine" full_world
        ≡ (raise (access_error "memory record was not found"), full_world))
    × (purge_record service "bob" 4 "mine" full_world
        ≡ (raise (access_error "memory record was not found"), full_world))
foreign_record-refused_example =
    foreign_record-refused service "bob" 4 full_world reference "likes coffee" "mine" reference_run
      not_bob clean_run

-- One item is known by its external id, one is new, and one is blank.
abbrev items : List Fields
items =
    field "content" (str "likes tea") (field "external_id" (str "capture") end)
    ∷ field "content" (str "has a cat") end
    ∷ end
    ∷ []

abbrev imported : Imported
imported = record { imported = 1; skipped = 2 }

imported_run :
    import_personal service "alice" items full_world
    ≡ (ok imported, (import_personal service "alice" items full_world).1)
unfolding import_personal ◌>>=◌ get_field strip is_space drawing contains_probable_secret
    Spaces.ensure_personal_space Spaces.create_game_space Proposals.add_proposal
    References.add_record_ref Bridges.set_bridge_consent get put find contains provided reading
    References.find_external_ref
imported_run = refl

alice-IsPersonal : IsPersonal "alice" (Spaces.new_personal_space 1 "alice" "agent-ui") full
unfolding Spaces.ensure_personal_space Spaces.create_game_space Proposals.add_proposal
    References.add_record_ref Bridges.set_bridge_consent get put find contains
alice-IsPersonal = refl

import_personal-counts_example :
    (imported.imported + imported.skipped ≡ length items)
    × (imported.imported
        ≤ new_items service "alice" (Spaces.new_personal_space 1 "alice" "agent-ui") full items)
import_personal-counts_example =
    import_personal-counts service "alice" (Spaces.new_personal_space 1 "alice" "agent-ui") items
      imported full_world (import_personal service "alice" items full_world).1 full-IsValid
      alice-IsPersonal imported_run

abbrev captured : SafeCandidate
captured = record {
  content = "likes tea";
  kind = "fact";
  importance = float_half;
  normalized = "likes tea";
}

abbrev capture_id : String
capture_id = automatic_capture_id service 1 "likes tea"

abbrev captured_world : World (List String)
captured_world =
    world_of 6 (References.add_record_ref full 5 1 "alice" "other" none (some capture_id) end).0

captured-IsValid : IsValid 6 captured_world.repository
captured-IsValid =
    Step-IsValid (Steps.add_record_ref 1 "alice" "other" none (some capture_id) end) full-IsValid

captured_known : Knows captured_world.repository "alice" 1 capture_id
unfolding References.find_external_ref Spaces.ensure_personal_space Spaces.create_game_space
    Proposals.add_proposal References.add_record_ref Bridges.set_bridge_consent get put find
    contains automatic_capture_id join tally
captured_known = refl

abbrev alices : MemorySpace
alices = Spaces.new_personal_space 1 "alice" "agent-ui"

abbrev purge_captured : List Call
purge_captured = Call.purge_record "alice" 5 "asked" ∷ []

capture_loop-after_calls_example :
    capture_loop service "alice" alices "chat"
      (captured ∷ [])
      (perform_all service purge_captured captured_world)
    ≡ (ok [], perform_all service purge_captured captured_world)
capture_loop-after_calls_example =
    capture_loop-after_calls service "alice" alices "chat" (captured ∷ []) purge_captured
      captured_world captured-IsValid (captured_known, tt)
