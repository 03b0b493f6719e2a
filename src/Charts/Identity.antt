-- ===== src/Charts/Identity.antt =====
-- `SetChartData` and what identifies an instance.
use grpc_gw_controller.Base.{
  Option, none, some, Bool, true, false, [], String, string_eq, ◌≟◌, Outcome, ok, err, panic,
  if◌then◌else◌, bytes_eq, Holds, Holds-if, Holds-then, ◌≡◌, refl,
}
use grpc_gw_controller.Base.Text.{Bytes}
use grpc_gw_controller.Base.Dict.{lookup}
use grpc_gw_controller.Maps.{map_merge}
use grpc_gw_controller.Maps.Merge.{NodupKeys, mem_key, lookup-map_merge}
use grpc_gw_controller.Cron.{CyclePeriodicReqAttr, NoFuel, periodic_to_cron_string}
use grpc_gw_controller.Messages.{AppRequest}
use grpc_gw_controller.Apps.{AppInstanceData}
use grpc_gw_controller.Charts.{Fields, no_fields, field, Reader, FlexApi, add_label, add_env}
use grpc_gw_controller.Charts.Kept.{Identified, Q, Keeps, add_other, reuse_values-Keeps}
use grpc_gw_controller.Charts.Request.{
  reserved_annotations, with_defaults, merge_annotations, merge_labels, add_draft, merge_data,
  set_schedule, new_schedule, with_cron,
}
use grpc_gw_controller.Charts.Spec.{
  set_description, set_repo, set_tag, set_ports, resize, set_size, set_storage,
}
use grpc_gw_controller.Charts.SetData.{
  add_identity, set_requested, reused, is_reused, set_chart_data,
}

-- A reserved key whose annotation the code does not set by itself.
pub record IsIdentity (k : String) : Type 0 where
  pub reserved : mem_key k reserved_annotations ≡ true
  pub not_version : ("apphc.app.instance.version" ≟ k) ≡ false
  pub not_schedule : ("apphc.app.schedule" ≟ k) ≡ false
  pub not_size : ("apphc.app.instance.volume.size" ≟ k) ≡ false
  pub not_repo : ("apphc.app.instance.image_repo.name" ≟ k) ≡ false
  pub not_tag : ("apphc.app.instance.image.tag" ≟ k) ≡ false

module _ (n ns : Bytes) (k : String) (v : Bytes) where
  if_Q :
      (b : Bool) (x y : AppInstanceData)
      → Q n ns k v x
      → Q n ns k v y
      → Q n ns k v (if b then x else y)
  if_Q true x y h g = h
  if_Q false x y h g = g

  add_identity-Q :
      (flex : FlexApi) (d : AppInstanceData) → Q n ns k v d → Q n ns k v (add_identity flex d)
  unfolding add_identity add_env
  add_identity-Q flex d h = if_Q _ _ _ h h

  module _ {F : Type 0} (req : AppRequest F) (is : IsIdentity k) where
    merge_annotations-Q :
        (d : AppInstanceData)
        → NodupKeys req.annotations
        → Q n ns k v d
        → Q n ns k v (merge_annotations req d)
    unfolding merge_annotations
    merge_annotations-Q d u h =
        let merged = lookup-map_merge d.annotations req.annotations reserved_annotations k u in
        add_other n ns k v "apphc.app.instance.version" d.requested_version
          (record d {
            annotations = (map_merge d.annotations req.annotations reserved_annotations).0;
          })
          is.not_version (h.0, h.1, rw (merged.0, is.reserved) h.2)

    merge_texts-Q :
        (d : AppInstanceData) → Q n ns k v d → Q n ns k v (merge_data req (merge_labels req d))
    unfolding merge_labels merge_data add_label add_draft
    merge_texts-Q d h = if_Q _ _ _ h h

    with_cron-Keeps :
        (d : AppInstanceData) (o : Outcome NoFuel Bytes)
        → Q n ns k v d
        → Holds (Q n ns k v) (with_cron req d o)
    with_cron-Keeps d (ok s) h = h
    with_cron-Keeps d (err e) h = tt
    with_cron-Keeps d panic h = tt

    new_schedule-Keeps :
        (r : Reader) (o : Option CyclePeriodicReqAttr) → Keeps n ns k v r (new_schedule req o)
    new_schedule-Keeps r none d h = h
    new_schedule-Keeps r (some c) d h = with_cron-Keeps d (periodic_to_cron_string 24 (some c)) h

    set_schedule-Keeps : (r : Reader) → Keeps n ns k v r (set_schedule req)
    unfolding set_schedule
    set_schedule-Keeps r d h =
        let o = req.cycle_periodic_attr in
        Holds-if (Q n ns k v) _ _ (ok d)
          (Holds-then (Q n ns k v) (Q n ns k v) (new_schedule req o d) _
            (new_schedule-Keeps r o d h)
            (λ e q.
              add_other n ns k v "apphc.app.schedule" e.cycle_periodic_sched e is.not_schedule q))
          h

    set_description-Q : (d : AppInstanceData) → Q n ns k v d → Q n ns k v (set_description req d)
    unfolding set_description
    set_description-Q d h = if_Q _ _ _ h h

    set_repo-Q : (d : AppInstanceData) → Q n ns k v d → Q n ns k v (set_repo req d)
    unfolding set_repo
    set_repo-Q d h = if_Q _ _ _ h (add_other n ns k v _ _ _ is.not_repo h)

    set_tag-Q : (d : AppInstanceData) → Q n ns k v d → Q n ns k v (set_tag req d)
    unfolding set_tag
    set_tag-Q d h = if_Q _ _ _ h (add_other n ns k v _ _ _ is.not_tag h)

    set_ports-Q : (d : AppInstanceData) → Q n ns k v d → Q n ns k v (set_ports req d)
    unfolding set_ports
    set_ports-Q d h = if_Q _ _ _ h h

    resize-Q : (d : AppInstanceData) → Q n ns k v d → Q n ns k v (resize req d)
    unfolding resize
    resize-Q d h = if_Q _ _ _ h h

    set_size-Q : (b : Bool) (d : AppInstanceData) → Q n ns k v d → Q n ns k v (set_size req b d)
    unfolding set_size
    set_size-Q true d h = if_Q _ _ _ h h
    set_size-Q false d h = h

    set_storage-Q :
        (b : Bool) (d : AppInstanceData) → Q n ns k v d → Q n ns k v (set_storage req b d)
    unfolding set_storage
    set_storage-Q b d h =
        let g = set_size-Q b (resize req d) (resize-Q d h) in
        add_other n ns k v _ _ _ is.not_size (if_Q _ _ _ g g)

    reused-Keeps :
        (r : Reader) (flex : FlexApi) (dir : Bytes) (vs : Fields)
        → bytes_eq v [] ≡ false
        → Keeps n ns k v r (reused r flex req dir vs)
    reused-Keeps r flex dir no_fields full d h = h
    reused-Keeps r flex dir (field j x fs) full d h =
        reuse_values-Keeps n ns k v r full dir (field j x fs) d h

    set_requested-Keeps :
        (r : Reader) (flex : FlexApi)
        → NodupKeys req.annotations
        → Keeps n ns k v r (set_requested r flex req)
    unfolding set_requested
    set_requested-Keeps r flex u d h =
        let m = merge_texts-Q (merge_annotations req d) (merge_annotations-Q d u h) in
        Holds-then (Q n ns k v) (Q n ns k v) (set_schedule req _) _ (set_schedule-Keeps r _ m)
          (λ e q. set_ports-Q _ (set_tag-Q _ (set_repo-Q _ (set_description-Q e q))))

-- The annotations by which the searches of an application find an instance, and those that name it and
-- its chart.
pub data IdentityKey : Type 0 where
  base_name cycle root_group group instance_id template : IdentityKey

abbrev pub key_of : IdentityKey → String
key_of base_name = "apphc.app.basename"
key_of cycle = "apphc.app.cycle"
key_of root_group = "apphc.app.instance.root_group_id"
key_of group = "apphc.app.instance.group_id"
key_of instance_id = "apphc.app.instance.id"
key_of template = "apphc.app.instance.template_name"

key_of-IsIdentity : (k : IdentityKey) → IsIdentity (key_of k)
key_of-IsIdentity base_name = record {
  reserved = refl;
  not_version = refl;
  not_schedule = refl;
  not_size = refl;
  not_repo = refl;
  not_tag = refl;
}
key_of-IsIdentity cycle = record {
  reserved = refl;
  not_version = refl;
  not_schedule = refl;
  not_size = refl;
  not_repo = refl;
  not_tag = refl;
}
key_of-IsIdentity root_group = record {
  reserved = refl;
  not_version = refl;
  not_schedule = refl;
  not_size = refl;
  not_repo = refl;
  not_tag = refl;
}
key_of-IsIdentity group = record {
  reserved = refl;
  not_version = refl;
  not_schedule = refl;
  not_size = refl;
  not_repo = refl;
  not_tag = refl;
}
key_of-IsIdentity instance_id = record {
  reserved = refl;
  not_version = refl;
  not_schedule = refl;
  not_size = refl;
  not_repo = refl;
  not_tag = refl;
}
key_of-IsIdentity template = record {
  reserved = refl;
  not_version = refl;
  not_schedule = refl;
  not_size = refl;
  not_repo = refl;
  not_tag = refl;
}

set_chart_data-kept :
    {F : Type 0} (r : Reader) (flex : FlexApi) (req : AppRequest F) (dir : Bytes) (vs : Fields)
    (d : AppInstanceData) (k : String) (v : Bytes)
    → NodupKeys req.annotations
    → IsIdentity k
    → bytes_eq v [] ≡ false
    → lookup k d.annotations ≡ some v
    → Holds (Identified d.instance_name d.target_namespace k v) (set_chart_data r flex req dir vs d)
unfolding set_chart_data with_defaults add_env
set_chart_data-kept r flex req dir vs d k v u is full h =
    let n = d.instance_name in
    let ns = d.target_namespace in
    Holds-then (Q n ns k v) (Q n ns k v) (reused r flex req dir vs (with_defaults d)) _
      (reused-Keeps n ns k v req is r flex dir vs full (with_defaults d) (refl, refl, h))
      (λ e q.
        Holds-then (Q n ns k v) (Q n ns k v) (set_requested r flex req e) _
          (set_requested-Keeps n ns k v req is r flex u e q)
          (λ f p.
            add_identity-Q n ns k v flex _ (set_storage-Q n ns k v req is (is_reused vs) f p)))

-- Whatever the request and the values of the last chart hold, an instance that `SetChartData` completes
-- keeps its name, its namespace and its annotations of the name and the cycle of the application, the
-- root group, the group, the ID and the template, as far as they are not empty. The keys of the
-- request's annotations are all different.
pub set_chart_data-Identified :
    {F : Type 0} (r : Reader) (flex : FlexApi) (req : AppRequest F) (dir : Bytes) (vs : Fields)
    (d : AppInstanceData) (k : IdentityKey) (v : Bytes)
    → NodupKeys req.annotations
    → bytes_eq v [] ≡ false
    → lookup (key_of k) d.annotations ≡ some v
    → Holds
        (Identified d.instance_name d.target_namespace (key_of k) v)
        (set_chart_data r flex req dir vs d)
set_chart_data-Identified r flex req dir vs d k v u full h =
    set_chart_data-kept r flex req dir vs d (key_of k) v u (key_of-IsIdentity k) full h
