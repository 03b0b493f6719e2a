-- ===== src/Charts/Reuse.antt =====
-- The part of `SetChartData` that takes over the values of the last chart.
use grpc_gw_controller.Base.{
  Option, none, some, Bool, true, false, List, [], ◌∷◌, ◌++◌, String, string_eq, ◌≟◌, Outcome, ok,
  panic, if◌then◌else◌, bytes_eq, ltb, length, ◌>>=◌,
}
use grpc_gw_controller.Base.Text.{Bytes, bytes, contains, cut_end}
use grpc_gw_controller.Base.Decimal.{ℤ, pos, uint32, atoi}
use grpc_gw_controller.Maps.{Map, add, key_has_value}
use grpc_gw_controller.Messages.{state_of_int}
use grpc_gw_controller.Apps.{AppInstanceData, PortData}
use grpc_gw_controller.Charts.{
  Key, name, no_text, Value, text, flag, sequence, Fields, no_fields, field, Values, no_values,
  value, Reader, at, as_text, as_flag, as_mapping, as_name, as_int, number, add_env, add_annotation,
  add_label,
}

module _ (r : Reader) where
  -- The files of a directory, added to a map.
  unfoldable pub add_files : Bytes → List String → Map → Outcome Bytes Map
  add_files path [] m = ok m
  add_files path (f ∷ fs) m =
      r.read_file (r.join_path path (bytes f)) >>= λ c. add_files path fs (add m f c)

  unfoldable pub add_dir : Bytes → Map → Outcome Bytes Map
  add_dir path m = r.read_dir path >>= λ files. add_files path files m

  abbrev pub is_true : Option Value → Bool
  is_true (some (flag b)) = b
  is_true _ = false

  unfoldable pub reuse_configs : Bytes → Fields → AppInstanceData → Outcome Bytes AppInstanceData
  reuse_configs dir vs d = as_mapping (at vs "configs") >>= λ c.
      (if is_true (at c "enabled")
        then (add_dir (r.join_path dir (bytes "resources/configs")) d.app_configs >>= λ m.
            ok (record d { app_configs = m }))
        else ok d)

  unfoldable pub reuse_secrets : Bytes → Fields → AppInstanceData → Outcome Bytes AppInstanceData
  reuse_secrets dir vs d = as_mapping (at vs "secrets") >>= λ c.
      as_flag (at c "enabled") >>= λ enabled.
      (if enabled
        then (add_dir (r.join_path dir (bytes "resources/secrets")) d.secrets >>= λ m.
            ok (record d { secrets = m }))
        else ok d)

  unfoldable pub reuse_image : Fields → AppInstanceData → Outcome Bytes AppInstanceData
  reuse_image vs d = as_mapping (at vs "image") >>= λ i.
      as_text (at i "repository") >>= λ repository. as_text (at i "name") >>= λ image_name.
      as_text (at i "tag") >>= λ tag.
      ok (record d {
        image = some (record { repository = repository; name = image_name; tag = tag });
      })

  -- The version of the values becomes the version that is requested.
  abbrev pub take_version : String → Value → AppInstanceData → Outcome Bytes AppInstanceData
  take_version k v d =
      if k ≟ "apphc.app.instance.version"
      then (as_text (some v) >>= λ t. ok (record d { requested_version = t }))
      else ok d

  abbrev pub keep_annotation : String → Value → AppInstanceData → Outcome Bytes AppInstanceData
  keep_annotation k v d =
      if contains (bytes k) (bytes "create.helm-controller")
      then ok d
      else if key_has_value d.annotations k
      then ok d
      else (as_text (some v) >>= λ t. ok (add_annotation k t d))

  unfoldable pub reuse_annotations : Fields → AppInstanceData → Outcome Bytes AppInstanceData
  reuse_annotations no_fields d = ok d
  reuse_annotations (field k v fs) d = as_name k >>= λ key.
      keep_annotation key v d >>= λ d1. take_version key v d1 >>= λ d2. reuse_annotations fs d2

  abbrev pub keep_label : String → Value → AppInstanceData → Outcome Bytes AppInstanceData
  keep_label k v d =
      if key_has_value d.labels k then ok d else (as_text (some v) >>= λ t. ok (add_label k t d))

  unfoldable pub reuse_labels : Fields → AppInstanceData → Outcome Bytes AppInstanceData
  reuse_labels no_fields d = ok d
  reuse_labels (field k v fs) d =
      as_name k >>= λ key. keep_label key v d >>= λ d1. reuse_labels fs d1

  unfoldable pub reuse_env : Fields → AppInstanceData → Outcome Bytes AppInstanceData
  reuse_env no_fields d = ok d
  reuse_env (field k v fs) d =
      as_name k >>= λ key. as_text (some v) >>= λ t. reuse_env fs (add_env key t d)

  -- `if e, ok := reusedValues[k]; ok`
  abbrev pub if_there :
      Option Value
      → (Fields → AppInstanceData → Outcome Bytes AppInstanceData)
      → AppInstanceData
      → Outcome Bytes AppInstanceData
  if_there none f d = ok d
  if_there (some v) f d = as_mapping (some v) >>= λ fs. f fs d

  unfoldable pub reuse_state : Fields → AppInstanceData → Outcome Bytes AppInstanceData
  reuse_state vs d = as_mapping (at vs "annotations") >>= λ a.
      as_text (at a "apphc.app.instance.state") >>= λ t.
      number r (atoi t) >>= λ s. ok (record d { state = state_of_int s })

  -- A size has a unit of two bytes; with nothing before it the size is 0.
  abbrev pub size_of : Bytes → Outcome Bytes ℤ
  size_of t =
      if ltb (length t) 2
      then panic
      else if bytes_eq (cut_end 2 t) []
      then ok (pos 0)
      else number r (atoi (cut_end 2 t))

  abbrev pub reuse_size : Fields → AppInstanceData → Outcome Bytes AppInstanceData
  reuse_size i d = as_flag (at i "enabled") >>= λ enabled.
      (if enabled
        then (as_text (at i "size") >>= λ t.
            size_of t >>= λ z. ok (record d { instance_storage_size = z }))
        else ok d)

  abbrev pub reuse_shared : Fields → AppInstanceData → Outcome Bytes AppInstanceData
  reuse_shared s d = as_flag (at s "enabled") >>= λ enabled.
      (if enabled then ok (record d { shared_storage_enabled = true }) else ok d)

  unfoldable pub reuse_storage : Fields → AppInstanceData → Outcome Bytes AppInstanceData
  reuse_storage vs d = as_mapping (at vs "persistence") >>= λ p.
      as_mapping (at p "instance") >>= λ i.
      reuse_size i d >>= λ d1. as_mapping (at p "shared") >>= λ s. reuse_shared s d1

  abbrev pub set_port : String → Value → PortData → Outcome Bytes PortData
  set_port k v p =
      if k ≟ "name"
      then (as_text (some v) >>= λ t. ok (record p { name = t }))
      else if k ≟ "internalPort"
      then (as_int (some v) >>= λ z. ok (record p { number = uint32 z }))
      else if k ≟ "protocol"
      then (as_text (some v) >>= λ t. ok (record p { proto = t }))
      else ok p

  -- A key that is no text is none of the three.
  abbrev pub set_port_at : Key → Value → PortData → Outcome Bytes PortData
  set_port_at (name k) v p = set_port k v p
  set_port_at no_text v p = ok p

  unfoldable pub port_of : Fields → PortData → Outcome Bytes PortData
  port_of no_fields p = ok p
  port_of (field k v fs) p = set_port_at k v p >>= λ p1. port_of fs p1

  unfoldable pub reuse_ports : Values → AppInstanceData → Outcome Bytes AppInstanceData
  reuse_ports no_values d = ok d
  reuse_ports (value v vs) d = as_mapping (some v) >>= λ fs.
      port_of fs (record { name = []; number = 0; proto = [] }) >>= λ p.
      reuse_ports vs (record d { ports = d.ports ++ p ∷ [] })

  abbrev pub ports_of : Option Value → AppInstanceData → Outcome Bytes AppInstanceData
  ports_of (some (sequence vs)) d = reuse_ports vs d
  ports_of _ d = ok d

  abbrev pub with_schedule : Option Value → AppInstanceData → AppInstanceData
  with_schedule (some (text t)) d = record d { cycle_periodic_sched = t }
  with_schedule _ d = d

  unfoldable pub reuse_values : Bytes → Fields → AppInstanceData → Outcome Bytes AppInstanceData
  reuse_values dir vs d = do
    d1 ← reuse_configs dir vs d
    d2 ← reuse_secrets dir vs d1
    d3 ← reuse_image vs d2
    d4 ← if_there (at vs "annotations") reuse_annotations d3
    d5 ← reuse_state vs d4
    d6 ← if_there (at vs "labels") reuse_labels d5
    d7 ← if_there (at vs "env") reuse_env d6
    d8 ← reuse_storage vs d7
    d9 ← ports_of (at vs "ports") d8
    ok (with_schedule (at vs "schedule") d9)
