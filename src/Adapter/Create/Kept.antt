-- ===== src/Adapter/Create/Kept.antt =====
-- Instances of a new request that nothing is to be done for, on their way through `CreateApp`.
use grpc_gw_controller.Base.{
  Option, none, some, Bool, true, false, Outcome, ok, err, panic, Holds, Holds-if, Holds-then,
  if◌then◌else◌, ◌≡◌,
}
use grpc_gw_controller.Base.Text.{Bytes}
use grpc_gw_controller.Cron.{CyclePeriodicReqAttr, NoFuel, periodic_to_cron_string}
use grpc_gw_controller.Messages.{AppRequest}
use grpc_gw_controller.Apps.{AppInstanceData, keep}
use grpc_gw_controller.Charts.{no_fields, Reader, FlexApi, add_annotation, add_env, add_label}
use grpc_gw_controller.Charts.Request.{
  with_defaults, merge_annotations, merge_labels, add_draft, merge_data, set_schedule, new_schedule,
  with_cron,
}
use grpc_gw_controller.Charts.Spec.{
  is_unset, set_description, set_repo, set_tag, set_ports, resize, set_size, set_storage,
}
use grpc_gw_controller.Charts.SetData.{add_identity, set_requested, set_chart_data}

-- Nothing to do, and the size of the storage is not set yet.
abbrev pub Idle : AppInstanceData → Type 0
Idle i = (i.next_action ≡ keep) × (is_unset i.instance_storage_size ≡ true)

abbrev pub Stays : AppInstanceData → Type 0
Stays i = i.next_action ≡ keep

if_Idle : (b : Bool) (x y : AppInstanceData) → Idle x → Idle y → Idle (if b then x else y)
if_Idle true x y h g = h
if_Idle false x y h g = g

if_Stays : (b : Bool) (x y : AppInstanceData) → Stays x → Stays y → Stays (if b then x else y)
if_Stays true x y h g = h
if_Stays false x y h g = g

module _ {F : Type 0} (req : AppRequest F) where
  merge_texts-Idle :
      (d : AppInstanceData)
      → Idle d
      → Idle (merge_data req (merge_labels req (merge_annotations req d)))
  unfolding merge_annotations merge_labels merge_data add_annotation add_label add_draft
  merge_texts-Idle d h = if_Idle _ _ _ h h

  with_cron-Idle :
      (d : AppInstanceData) (o : Outcome NoFuel Bytes) → Idle d → Holds Idle (with_cron req d o)
  with_cron-Idle d (ok s) h = h
  with_cron-Idle d (err e) h = tt
  with_cron-Idle d panic h = tt

  new_schedule-Idle :
      (o : Option CyclePeriodicReqAttr) (d : AppInstanceData)
      → Idle d
      → Holds Idle (new_schedule req o d)
  new_schedule-Idle none d h = h
  new_schedule-Idle (some c) d h = with_cron-Idle d (periodic_to_cron_string 24 (some c)) h

  set_schedule-Idle : (d : AppInstanceData) → Idle d → Holds Idle (set_schedule req d)
  unfolding set_schedule add_annotation
  set_schedule-Idle d h =
      let o = req.cycle_periodic_attr in
      Holds-if Idle _ _ (ok d)
        (Holds-then Idle Idle (new_schedule req o d) _ (new_schedule-Idle o d h) (λ e q. q)) h

  set_description-Idle : (d : AppInstanceData) → Idle d → Idle (set_description req d)
  unfolding set_description
  set_description-Idle d h = if_Idle _ _ _ h h

  set_repo-Idle : (d : AppInstanceData) → Idle d → Idle (set_repo req d)
  unfolding set_repo add_annotation
  set_repo-Idle d h = if_Idle _ _ _ h h

  set_tag-Idle : (d : AppInstanceData) → Idle d → Idle (set_tag req d)
  unfolding set_tag add_annotation
  set_tag-Idle d h = if_Idle _ _ _ h h

  set_ports-Idle : (d : AppInstanceData) → Idle d → Idle (set_ports req d)
  unfolding set_ports
  set_ports-Idle d h = if_Idle _ _ _ h h

  -- Only a size that is set can differ.
  resize-Stays : (d : AppInstanceData) → Idle d → Stays (resize req d)
  unfolding resize
  resize-Stays d h = rw h.1 h.0

  set_storage-Stays : (d : AppInstanceData) → Idle d → Stays (set_storage req false d)
  unfolding set_storage set_size add_annotation
  set_storage-Stays d h = if_Stays _ _ _ (resize-Stays d h) (resize-Stays d h)

add_identity-Stays : (flex : FlexApi) (d : AppInstanceData) → Stays d → Stays (add_identity flex d)
unfolding add_identity add_env
add_identity-Stays flex d h = if_Stays _ _ _ h h

pub set_chart_data-Stays :
    {F : Type 0} (r : Reader) (flex : FlexApi) (req : AppRequest F) (dir : Bytes)
    (d : AppInstanceData)
    → Idle d
    → Holds Stays (set_chart_data r flex req dir no_fields d)
unfolding set_chart_data set_requested with_defaults add_env
set_chart_data-Stays r flex req dir d h =
    Holds-then Idle Stays (set_requested r flex req (with_defaults d)) _
      (Holds-then Idle Idle (set_schedule req _) _
        (set_schedule-Idle req _ (merge_texts-Idle req (with_defaults d) h))
        (λ e q.
          set_ports-Idle req _
            (set_tag-Idle req _ (set_repo-Idle req _ (set_description-Idle req e q)))))
      (λ f p. add_identity-Stays flex _ (set_storage-Stays req f p))
