-- ===== src/Service/Closed/Calls.antt =====
-- Sequences of calls of `MemoryService`.
use agent_ui.Prelude.{
  ℕ, String, Bool, List, [], ◌∷◌, Option, none, ◌≡◌, refl, true, false, any, arith,
}
use agent_ui.Prelude.Keeps.{Keeps}
use agent_ui.Prelude.Json.{Fields, Float}
use agent_ui.Provider.{MemoryScope}
use agent_ui.Repository.State.{Uuid}
use agent_ui.Service.World.{MemoryService, World, provided}
use agent_ui.Service.Access
use agent_ui.Service.Records
use agent_ui.Service.Records.{is_secret}
use agent_ui.Service.Import
use agent_ui.Service.Review
use agent_ui.Service.Capture
use agent_ui.Service.Sharing
use agent_ui.Service.Sharing.{PrincipalKind}
use agent_ui.Service.Closed.Rules.{IsClosed}
use agent_ui.Service.Closed.Methods
use agent_ui.Service.Closed.Review as ReviewKeeps

-- A call by an HTTP route or by the capture worker, with its arguments.
pub data Call : Type 0 where
  update_settings : String → Bool → Bool → Bool → Call
  spaces : String → Call
  context : String → String → ℕ → String → Option String → Call
  manual_search : String → String → ℕ → Call
  add_approved : String → String → Option String → Fields → Float → Option String → Call
  add_proposals : String → List Fields → String → Option String → Call
  add_automatic_candidates : String → List Fields → String → Call
  proposals : String → String → Call
  approve_proposal : String → Uuid → Option String → Call
  reject_proposal : String → Uuid → Call
  records : String → Call
  correct_record : String → Uuid → String → String → Call
  forget_record : String → Uuid → String → Call
  purge_record : String → Uuid → String → Call
  export_personal : String → Call
  import_personal : String → List Fields → Call
  set_bridge : String → Uuid → Uuid → Bool → Bool → Call
  create_game_space :
      String → PrincipalKind → String → String → String → String → Option String → Call
  game_context : String → PrincipalKind → Uuid → String → ℕ → Option String → Call
  ingest_game_event :
      String → PrincipalKind → Uuid → String → String → Fields → Option String → Call

abbrev pub is_game_event : Call → Bool
is_game_event (ingest_game_event p k i x t m d) = true
is_game_event _ = false

module _ (s : MemoryService) where
  -- The world that a call leaves, whether it returns or raises.
  unfoldable pub perform : Call → World s.provider.State → World s.provider.State
  perform (update_settings p a b d) w = (Access.update_settings s p a b d w).1
  perform (spaces p) w = (Access.spaces s p w).1
  perform (context p q n e k) w = (Sharing.context s p q n e k w).1
  perform (manual_search p q n) w = (Records.manual_search s p q n w).1
  perform (add_approved p t a m x i) w = (Records.add_approved s p t a m x i none w).1
  perform (add_proposals p cs e h) w = (Capture.add_proposals s p cs e h w).1
  perform (add_automatic_candidates p cs e) w = (Capture.add_automatic_candidates s p cs e w).1
  perform (proposals p st) w = (Review.proposals s p st w).1
  perform (approve_proposal p i t) w = (Review.approve_proposal s p i t w).1
  perform (reject_proposal p i) w = (Review.reject_proposal s p i w).1
  perform (records p) w = (Records.records s p w).1
  perform (correct_record p i t r) w = (Records.correct_record s p i t r w).1
  perform (forget_record p i r) w = (Records.forget_record s p i r w).1
  perform (purge_record p i r) w = (Records.purge_record s p i r w).1
  perform (export_personal p) w = (Records.export_personal s p w).1
  perform (import_personal p items) w = (Import.import_personal s p items w).1
  perform (set_bridge p i j a b) w = (Sharing.set_bridge s p i j a b w).1
  perform (create_game_space p k n m a b d) w = (Sharing.create_game_space s p k n m a b d w).1
  perform (game_context p k i q n d) w = (Sharing.game_context s p k i q n d w).1
  perform (ingest_game_event p k i x t m d) w = (Sharing.ingest_game_event s p k i x t m d w).1

  unfoldable pub perform_all : List Call → World s.provider.State → World s.provider.State
  unfolding perform
  perform_all [] w = w
  perform_all (call ∷ calls) w = perform_all calls (perform call w)

-- `ingest` keeps the predicate whatever the content is.
pub record AnyIngest (s : MemoryService) (P : World s.provider.State → Type 0) : Type 0 where
  pub ingested :
      (scope : MemoryScope) (content : String) (source : Option String) (metadata : Fields)
      (importance : Float) (record_id : Option String)
      → Keeps P (provided (s.provider.ingest scope content source metadata importance record_id))

module _ (s : MemoryService) (P : World s.provider.State → Type 0) (c : IsClosed s P) where
  pub perform-Keeps :
      (call : Call)
      → (is_game_event call ≡ true → AnyIngest s P)
      → (w : World s.provider.State) → P w
      → P (perform s call w)
  unfolding perform
  perform-Keeps (update_settings p a b d) _ = (Methods.update_settings-Keeps s P c p a b d).at
  perform-Keeps (spaces p) _ = (Methods.spaces-Keeps s P c p).at
  perform-Keeps (context p q n e k) _ = (ReviewKeeps.context-Keeps s P c p q n e k).at
  perform-Keeps (manual_search p q n) _ = (Methods.manual_search-Keeps s P c p q n).at
  perform-Keeps (add_approved p t a m x i) _ =
      (Methods.add_approved-Keeps s P c p t a m x i none).at
  perform-Keeps (add_proposals p cs e h) _ = (ReviewKeeps.add_proposals-Keeps s P c p cs e h).at
  perform-Keeps (add_automatic_candidates p cs e) _ =
      (ReviewKeeps.add_automatic_candidates-Keeps s P c p cs e).at
  perform-Keeps (proposals p st) _ = (ReviewKeeps.proposals-Keeps s P c p st).at
  perform-Keeps (approve_proposal p i t) _ = (ReviewKeeps.approve_proposal-Keeps s P c p i t).at
  perform-Keeps (reject_proposal p i) _ = (ReviewKeeps.reject_proposal-Keeps s P c p i).at
  perform-Keeps (records p) _ = (Methods.records-Keeps s P c p).at
  perform-Keeps (correct_record p i t r) _ = (Methods.correct_record-Keeps s P c p i t r).at
  perform-Keeps (forget_record p i r) _ = (Methods.forget_record-Keeps s P c p i r).at
  perform-Keeps (purge_record p i r) _ = (Methods.purge_record-Keeps s P c p i r).at
  perform-Keeps (export_personal p) _ = (Methods.export_personal-Keeps s P c p).at
  perform-Keeps (import_personal p items) _ = (ReviewKeeps.import_personal-Keeps s P c p items).at
  perform-Keeps (set_bridge p i j a b) _ = (ReviewKeeps.set_bridge-Keeps s P c p i j a b).at
  perform-Keeps (create_game_space p k n m a b d) _ =
      (ReviewKeeps.create_game_space-Keeps s P c p k n m a b d).at
  perform-Keeps (game_context p k i q n d) _ = (ReviewKeeps.game_context-Keeps s P c p k i q n d).at
  perform-Keeps (ingest_game_event p k i x t m d) game =
      (ReviewKeeps.ingest_game_event-Keeps s P c (game refl).ingested p k i x t m d).at

  pub perform_all-Keeps :
      (calls : List Call)
      → (any is_game_event calls ≡ true → AnyIngest s P)
      → (w : World s.provider.State) → P w
      → P (perform_all s calls w)
  unfolding perform_all any
  perform_all-Keeps [] game w h = h
  perform_all-Keeps (call ∷ calls) game w h =
      perform_all-Keeps calls (λ e. game (ground arith)) (perform s call w)
        (perform-Keeps call (λ e. game (ground arith)) w h)
