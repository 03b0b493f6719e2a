-- ===== src/Charts/Spec.antt =====
-- The specification in the request that `SetChartData` takes: image, ports and storage.
use grpc_gw_controller.Base.{
  ℕ, Option, none, some, Bool, true, false, not, ◌&&◌, List, [], ◌∷◌, string_eq, if◌then◌else◌,
  bytes_eq, ltb, ◌==◌, length,
}
use grpc_gw_controller.Base.Text.{Bytes, bytes}
use grpc_gw_controller.Base.Decimal.{ℤ, pos, negsuc, decimal}
use grpc_gw_controller.Messages.{
  AppRequest, Resources, Port, Proto, tcp, udp, get_image, get_repo, get_tag, get_ports,
}
use grpc_gw_controller.Apps.{AppInstanceData, recreate, PortData, target_namespace_of}
use grpc_gw_controller.Charts.{add_annotation, image_or_new}

-- `strconv.Itoa`
abbrev pub print_int : ℤ → Bytes
print_int (pos n) = decimal n
print_int (negsuc n) = b'-' ∷ decimal (ℕ.suc n)

abbrev pub int_eq : ℤ → ℕ → Bool
int_eq (pos n) k = n == k
int_eq (negsuc n) k = false

abbrev pub is_unset : ℤ → Bool
is_unset (negsuc n) = n == 0
is_unset (pos n) = false

abbrev pub proto_text : Proto → Bytes
proto_text tcp = bytes "TCP"
proto_text udp = bytes "UDP"

module _ {F : Type 0} (req : AppRequest F) where
  unfoldable pub set_description : AppInstanceData → AppInstanceData
  set_description d =
      if bytes_eq req.description [] then d else record d { description = req.description }

  abbrev pub with_repo : Bytes → AppInstanceData → AppInstanceData
  with_repo repo d =
      add_annotation "apphc.app.instance.image_repo.name" repo
        (record d { image = some (record (image_or_new d.image) { repository = repo }) })

  abbrev pub with_tag : Bytes → AppInstanceData → AppInstanceData
  with_tag tag d =
      add_annotation "apphc.app.instance.image.tag" tag
        (record d { image = some (record (image_or_new d.image) { tag = tag }) })

  unfoldable pub set_repo : AppInstanceData → AppInstanceData
  set_repo d =
      let repo = get_repo (get_image req.spec) in if bytes_eq repo [] then d else with_repo repo d

  unfoldable pub set_tag : AppInstanceData → AppInstanceData
  set_tag d =
      let tag = get_tag (get_image req.spec) in if bytes_eq tag [] then d else with_tag tag d

  abbrev pub port_data : Port → PortData
  port_data p = record {
    name = target_namespace_of (if bytes_eq p.name [] then req.name else p.name);
    number = p.number;
    proto = proto_text p.proto;
  }

  unfoldable pub ports_data : List Port → List PortData
  ports_data [] = []
  ports_data (p ∷ ps) = port_data p ∷ ports_data ps

  unfoldable pub set_ports : AppInstanceData → AppInstanceData
  set_ports d =
      let ps = get_ports req.spec in
      if ltb 0 (length ps) then record d { ports = ports_data ps } else d

  abbrev storage_in : Option (Resources F) → ℕ
  storage_in none = 0
  storage_in (some r) = r.persistent_storage

  -- `req.GetSpec().GetResources().GetPersistentStorage()`
  unfoldable pub new_size : ℕ
  new_size = elim req.spec [ none ↦ 0 | some s ↦ storage_in s.resources ]

  -- A running instance with another size has to be made again.
  unfoldable pub resize : AppInstanceData → AppInstanceData
  resize d =
      if not (is_unset d.instance_storage_size) && not (int_eq d.instance_storage_size new_size)
      then record d { next_action = recreate; delete_instance_storage = true }
      else d

  -- The size that is set, where the values of the last chart are reused or not.
  unfoldable pub set_size : Bool → AppInstanceData → AppInstanceData
  set_size true d =
      if ltb 0 new_size
      then record d {
        delete_instance_storage = not (int_eq d.instance_storage_size new_size);
        instance_storage_size = pos new_size;
      }
      else record d { delete_instance_storage = false }
  set_size false d = record d { instance_storage_size = pos new_size }

  unfoldable pub set_storage : Bool → AppInstanceData → AppInstanceData
  set_storage reuse d =
      let e = set_size reuse (resize d) in
      let f =
        (if ltb 0 req.shared_storage then record e { shared_storage_enabled = true } else e) in
      add_annotation "apphc.app.instance.volume.size" (print_int f.instance_storage_size) f
