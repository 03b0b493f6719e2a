-- ===== src/Workers/Lost.antt =====
-- The race of two goroutines that append to the list of instances.
use grpc_gw_controller.Base.{none, [], ◌∷◌, ◌≡◌, refl, ok}
use grpc_gw_controller.Base.Text.{Bytes}
use grpc_gw_controller.Apps.{AppInstanceData, create}
use grpc_gw_controller.Workers.{
  generate_proto_data, ApiClient, step, run, start, first_call, collect, create_upgrade_apps,
}

-- Two instances to create, whose creations both succeed: one order of the goroutines ends with a
-- success that reports the second instance only.
pub create_upgrade_apps-loses :
    {W : Type 0} (api : ApiClient W) (catalog_id : Bytes) (a b : AppInstanceData) (w : W)
    → a.next_action ≡ create
    → b.next_action ≡ create
    → (api.create_app_instance a a.requested_version w).0 ≡ none
    → (api.create_app_instance b b.requested_version
        (api.create_app_instance a a.requested_version w).1).0
      ≡ none
    → create_upgrade_apps api catalog_id (a ∷ b ∷ []) (0 ∷ 1 ∷ 0 ∷ 1 ∷ 0 ∷ 1 ∷ []) w
      ≡ ok (generate_proto_data b catalog_id ∷ [])
unfolding create_upgrade_apps run step start first_call collect
create_upgrade_apps-loses api catalog_id a b w ea eb ra rb = simp (ea, eb, ra, rb) refl
