-- ===== src/Charts/NoName.antt =====
-- The name of the image in the values of the last chart.
use grpc_gw_controller.Base.{none, some, ok, Holds, Holds-bind, Holds-then, ◌≡◌, ◌≢◌}
use mathlib.Core.Path.{subst}
use grpc_gw_controller.Base.Text.{Bytes}
use grpc_gw_controller.Messages.{AppRequest}
use grpc_gw_controller.Apps.{AppInstanceData}
use grpc_gw_controller.Charts.{Fields, no_fields, field, mapping, Reader, FlexApi, at, as_text}
use grpc_gw_controller.Charts.Reuse.{reuse_configs, reuse_secrets, reuse_image, reuse_values}
use grpc_gw_controller.Charts.Request.{with_defaults}
use grpc_gw_controller.Charts.SetData.{set_chart_data}

abbrev Never : AppInstanceData → Type 0
Never _ = ⊥

module _ (r : Reader) (vs image : Fields) (has : at vs "image" ≡ some (mapping image))
    (no_name : at image "name" ≡ none) where
  reuse_image-Never : (d : AppInstanceData) → Holds Never (reuse_image r vs d)
  unfolding reuse_image
  reuse_image-Never d =
      rw (has, no_name) (Holds-bind Never (as_text (at image "repository")) _ (λ t. tt))

  reuse_values-Never : (dir : Bytes) (d : AppInstanceData) → Holds Never (reuse_values r dir vs d)
  unfolding reuse_values
  reuse_values-Never dir d = Holds-bind Never (reuse_configs r dir vs d) _ (λ d1.
      Holds-bind Never (reuse_secrets r dir vs d1) _ (λ d2.
        Holds-then Never Never (reuse_image r vs d2) _ (reuse_image-Never d2) (λ d3 h. absurd h)))

-- Where the values of the last chart have an image with no name, `SetChartData` has no result: it
-- returns an error or panics.
pub set_chart_data-no_image_name :
    {F : Type 0} (r : Reader) (flex : FlexApi) (req : AppRequest F) (dir : Bytes)
    (vs image : Fields) (d e : AppInstanceData)
    → at vs "image" ≡ some (mapping image)
    → at image "name" ≡ none
    → set_chart_data r flex req dir vs d ≢ ok e
unfolding set_chart_data at
set_chart_data-no_image_name r flex req dir no_fields image d e has lacks h = absurd cc
set_chart_data-no_image_name r flex req dir (field k v fs) image d e has lacks h =
    subst (Holds Never) h (
      Holds-then Never Never (reuse_values r dir (field k v fs) (with_defaults d)) _
        (reuse_values-Never r (field k v fs) image has lacks dir (with_defaults d))
        (λ f g. absurd g))
