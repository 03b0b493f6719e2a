-- ===== src/Adapter/Metadata.antt =====
-- `DeleteAppMetadata` and `removeTemplateData` of app/grpc/appmanager/adapters/rancher/adapter.go.
pub mod Names
use grpc_gw_controller.Base.{
  Option, none, some, Bool, true, false, List, [], ◌∷◌, ◌++◌, Outcome, ok, err, panic,
  if◌then◌else◌, bytes_eq,
}
use grpc_gw_controller.Base.Text.{Bytes, bytes, to_lower, replace}
use grpc_gw_controller.Messages.{success, not_found, DeleteAppMetadataRequest}
use grpc_gw_controller.AppManager.{Reply, failure}
use grpc_gw_controller.Workers.{Template}
use grpc_gw_controller.Adapter.{Body, templates_body, unless_error, with_result, reply_with}

-- The calls outside: the cache, the catalog, `GetTemplateVersions` of the package apiclient,
-- `DeleteChart` of the package chartutils with a path, `GetSubDirs`, and `filepath.Join`.
pub record MetadataClient (W : Type 0) : Type 0 where
  pub sync_cache : W → Option Bytes × W
  pub refresh_catalog : W → Option Bytes × W
  pub push : Bytes → Bytes → W → Option Bytes × W
  pub get_template_versions : Bytes → W → Outcome Bytes (List Bytes) × W
  pub delete_chart : Bytes → Bytes → Bytes → W → Option Bytes × W
  pub get_sub_dirs : Bytes → W → Outcome Bytes (List Bytes) × W
  pub join_path : List Bytes → Bytes

unfoldable pub has_version : Bytes → List Bytes → Bool
has_version version [] = false
has_version version (v ∷ vs) =
    let rest = has_version version vs in if bytes_eq version v then true else rest

-- The name of the chart of a group, as the request spells it.
unfoldable pub chart_name : Bytes → Bytes → Bytes → Bytes
chart_name app_name root_group_id gid =
    let name =
      (if bytes_eq root_group_id []
        then app_name ++ (bytes "-" ++ gid)
        else app_name ++ (bytes "-" ++ (root_group_id ++ (bytes "-" ++ gid)))) in
    to_lower (replace b'_' b'-' name)

module _ {W : Type 0} (client : MetadataClient W) where
  abbrev pub no_metadata : Bytes → Bytes → Outcome Bytes Template
  no_metadata instance_name version = err (
      bytes "no metadata found for the instance "
      ++ (instance_name ++ (bytes " version " ++ version)))

  -- With no version left there was no metadata.
  abbrev pub template_of : Bytes → Bytes → Bytes → List Bytes → Outcome Bytes Template
  template_of catalog_id instance_name version [] = no_metadata instance_name version
  template_of catalog_id instance_name version (v ∷ vs) =
      ok (record { name = instance_name; versions = v ∷ vs; catalog_id = catalog_id })

  abbrev pub after_chart : Option Bytes × W → Outcome Bytes Template → Outcome Bytes Template × W
  after_chart (some e, w) t = (err e, w)
  after_chart (none, w) t = (t, w)

  abbrev pub remove_versions :
      Bytes → Bytes → Bytes → Bytes → Outcome Bytes (List Bytes) × W → Outcome Bytes Template × W
  remove_versions root catalog_id instance_name version (err e, w) = (err e, w)
  remove_versions root catalog_id instance_name version (panic, w) = (panic, w)
  remove_versions root catalog_id instance_name version (ok versions, w) =
      if bytes_eq version []
      then after_chart
          (client.delete_chart (client.join_path (root ∷ instance_name ∷ [])) instance_name
            (bytes "all") w)
          (template_of catalog_id instance_name version versions)
      else if has_version version versions
      then after_chart
          (client.delete_chart (client.join_path (root ∷ instance_name ∷ version ∷ []))
            instance_name version w)
          (template_of catalog_id instance_name version (version ∷ []))
      else (no_metadata instance_name version, w)

  unfoldable pub remove_template_data :
      Bytes → Bytes → Bytes → Bytes → W → Outcome Bytes Template × W
  remove_template_data root catalog_id instance_name version w =
      remove_versions root catalog_id instance_name version
        (client.get_template_versions instance_name w)

  -- The loop over the names of charts, which stops at the first error.
  unfoldable pub remove_each :
      Bytes
      → Bytes
      → Bytes
      → List Bytes
      → List Template
      → (List Template → W → Reply Body × W)
      → W
      → Reply Body × W
  remove_each root catalog_id version [] templates rest w = rest templates w
  remove_each root catalog_id version (n ∷ ns) templates rest w =
      let r = remove_template_data root catalog_id n version w in
      with_result r.0 (λ t. remove_each root catalog_id version ns (templates ++ t ∷ []) rest r.1)
        r.1

  unfoldable pub chart_names : DeleteAppMetadataRequest → List Bytes → List Bytes
  chart_names req [] = []
  chart_names req (gid ∷ gids) =
      chart_name req.app_name req.root_group_id gid ∷ chart_names req gids

  -- All charts of the application, and its directory where no version is asked for.
  abbrev pub remove_all_of :
      Bytes
      → Bytes
      → DeleteAppMetadataRequest
      → (List Template → W → Reply Body × W)
      → W
      → Reply Body × W
  remove_all_of root catalog_id req rest w =
      let r = client.get_sub_dirs root w in
      with_result r.0
        (λ names.
          remove_each root catalog_id req.version names []
            (λ templates w1.
              if bytes_eq req.version []
              then unless_error (client.delete_chart root (bytes "all") (bytes "all") w1)
                  (rest templates)
              else rest templates w1)
            r.1)
        r.1

  abbrev pub remove_asked :
      Bytes
      → Bytes
      → DeleteAppMetadataRequest
      → List Bytes
      → (List Template → W → Reply Body × W)
      → W
      → Reply Body × W
  remove_asked root catalog_id req [] rest w = remove_all_of root catalog_id req rest w
  remove_asked root catalog_id req (gid ∷ gids) rest w =
      remove_each root catalog_id req.version (chart_names req (gid ∷ gids)) [] rest w

  unfoldable pub publish_removal :
      (Body → Option Bytes) → Bytes → Bytes → List Template → W → Reply Body × W
  publish_removal marshal repo_path app_name [] w =
      (reply_with marshal not_found (bytes "Nothing to delete") none, w)
  publish_removal marshal repo_path app_name (t ∷ ts) w =
      unless_error (client.push repo_path (bytes "Delete application charts") w) (λ w1.
        unless_error (client.refresh_catalog w1) (λ w2. (
          reply_with marshal success (bytes "Application metadata successfully deleted")
              (some (templates_body app_name (t ∷ ts))),
          w2,
        )))

  unfoldable pub delete_app_metadata :
      (Body → Option Bytes) → Bytes → Bytes → DeleteAppMetadataRequest → W → Reply Body × W
  delete_app_metadata marshal repo_path catalog_id req w = unless_error (client.sync_cache w) (
      remove_asked (client.join_path (repo_path ∷ req.app_name ∷ [])) catalog_id req req.group_ids
        (publish_removal marshal repo_path req.app_name))
