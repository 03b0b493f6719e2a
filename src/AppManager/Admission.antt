-- ===== src/AppManager/Admission.antt =====
-- Served one at a time, a request is refused with no trace, or it has the adapter's effect and
-- nothing else: the lock that its handler takes is gone when it returns.
use grpc_gw_controller.Base.{
  Option, some, List, [], ◌∷◌, ◌++◌, ok, ◌>>◌, ◌≡◌, refl, ◌∙◌, ap, bytes_Eq,
}
use grpc_gw_controller.Base.Text.{Bytes, bytes}
use grpc_gw_controller.Base.Float.{Float64}
use grpc_gw_controller.Mutex.{
  Locks, Mutex, is_locked, lock_action_enable_disable_apps, lock_action_delete_apps,
}
use grpc_gw_controller.AppManager.Gate.{
  Gate, unless, pass, behind, with_lock-behind, refuse_if_some-behind, unless-behind,
  refused_in-checked, behind-mutex,
}
use grpc_gw_controller.Messages.{
  AppRequest, get_image, get_repo, get_tag, get_limits, get_memory, get_cpu,
}
use grpc_gw_controller.Messages.Validate.{
  validate_create_app, validate_upgrade_app, validate_update_app, validate_get_apps,
  validate_delete_app, validate_delete_app_metadata, validate_delete_apps,
}
use grpc_gw_controller.DockerImage.{Registry, validate_docker_image}
use grpc_gw_controller.ResourceInputs.{float_zero, validate_inputs}
use grpc_gw_controller.AppManager.{
  Reply, AppManagerAdapter, Server, app_locked, app_locker, text_of, update_checks, create_app,
  upgrade_app, update_app, enable_disable_app, delete_app, delete_apps, get_apps,
  delete_app_metadata,
}
use grpc_gw_controller.AppManager.Service.{
  Request, create, upgrade, update, delete, delete_all, get, delete_metadata, enable_disable, serve,
  serve_all,
}

module _ {F W : Type 0} (private_registry : Bytes) (registry : W → Registry) where
  abbrev image_gate : AppRequest F → W → Gate
  image_gate r w =
      validate_docker_image private_registry (registry w) (get_repo (get_image r.spec))
        (get_tag (get_image r.spec))

module _ {F W B : Type 0} (adapter : AppManagerAdapter F W B) where
  -- The work of the adapter.
  abbrev pub act : Request F → W → Reply B × W
  act (create r) = adapter.create_app r
  act (upgrade r) = adapter.upgrade_app r
  act (update r) = adapter.update_app r
  act (delete r) = adapter.delete_app r
  act (delete_all r) = adapter.delete_apps r
  act (get r) = adapter.get_apps r
  act (delete_metadata r) = adapter.delete_app_metadata r
  act (enable_disable r) = adapter.enable_disable_app r

module _ {F V W B : Type 0} (fl : Float64 F) (private_registry : Bytes) (registry : W → Registry)
    (adapter : AppManagerAdapter F W B) where
  abbrev app_gate : Bytes → Bytes → Server V W → Gate
  app_gate name root_group_id s =
      unless (is_locked (app_locker name root_group_id) s.mutex) (app_locked name)

  -- The checks of each request, in the order in which the code makes them.
  abbrev pub gate : Request F → Server V W → Gate
  gate (create r) s =
      app_gate r.name r.root_group_id s
      >> (pass (text_of (validate_create_app r))
          >> (pass (
                validate_inputs fl (get_cpu (float_zero fl) (get_limits r.spec)) (fl.scaled 1 1)
                  (get_memory (get_limits r.spec)) 20)
              >> image_gate private_registry registry r s.world))
  gate (upgrade r) s =
      app_gate r.name r.root_group_id s
      >> (pass (text_of (validate_upgrade_app r)) >> image_gate private_registry registry r s.world)
  gate (update r) s =
      app_gate r.name r.root_group_id s
      >> (pass (text_of (validate_update_app r))
          >> (pass (update_checks r) >> image_gate private_registry registry r s.world))
  gate (delete r) s =
      app_gate r.name r.root_group_id s >> (pass (text_of (validate_delete_app r)) >> ok tt)
  gate (delete_all r) s =
      unless (is_locked lock_action_delete_apps s.mutex) (bytes "applications are locked")
      >> (pass (text_of (validate_delete_apps r)) >> ok tt)
  gate (get r) s = pass (text_of (validate_get_apps r)) >> ok tt
  gate (delete_metadata r) s =
      unless (is_locked r.app_name s.mutex)
        (bytes "metadata for application " ++ (r.app_name ++ bytes " is locked"))
      >> (pass (text_of (validate_delete_app_metadata r)) >> ok tt)
  gate (enable_disable r) s =
      unless (is_locked lock_action_enable_disable_apps s.mutex) (app_locked r.name) >> ok tt

  -- Once the map of locks is made, serving a request is its checks and then the adapter's work: a
  -- refusal leaves the locks and the world as they were, and an admitted request changes the world
  -- as the adapter does and leaves the locks as they were.
  pub serve-behind :
      (r : Request F) (m : Locks (Option V)) (w : W)
      → let s : Server V W = record { mutex = some m; world = w } in
        serve fl private_registry registry adapter r s ≡ behind (gate r s) (act adapter r) s
  unfolding serve create_app upgrade_app update_app delete_app delete_apps get_apps
      delete_app_metadata enable_disable_app
  serve-behind (create r) m w = unless-behind _ _ _ _ _ _ λ free.
      refuse_if_some-behind (text_of (validate_create_app r)) _ _ _ _ (
        refuse_if_some-behind
          (validate_inputs fl (get_cpu (float_zero fl) (get_limits r.spec)) (fl.scaled 1 1)
            (get_memory (get_limits r.spec)) 20)
          _ _ _ _
          (with_lock-behind _ _ (image_gate private_registry registry r w) (adapter.create_app r) m
            w free refl))
  serve-behind (upgrade r) m w = unless-behind _ _ _ _ _ _ λ free.
      refuse_if_some-behind (text_of (validate_upgrade_app r)) _ _ _ _ (
        with_lock-behind _ _ (image_gate private_registry registry r w) (adapter.upgrade_app r) m w
          free refl)
  serve-behind (update r) m w = unless-behind _ _ _ _ _ _ λ free.
      refuse_if_some-behind (text_of (validate_update_app r)) _ _ _ _ (
        with_lock-behind _ _ (pass (update_checks r) >> image_gate private_registry registry r w)
          (adapter.update_app r) m w free
          (refused_in-checked (update_checks r) (image_gate private_registry registry r w)
            (adapter.update_app r) _ w refl))
  serve-behind (delete r) m w = unless-behind _ _ _ _ _ _ λ free.
      refuse_if_some-behind (text_of (validate_delete_app r)) _ _ _ _
        (with_lock-behind _ _ (ok tt) (adapter.delete_app r) m w free refl)
  serve-behind (delete_all r) m w = unless-behind _ _ _ _ _ _ λ free.
      refuse_if_some-behind (text_of (validate_delete_apps r)) _ _ _ _
        (with_lock-behind _ _ (ok tt) (adapter.delete_apps r) m w free refl)
  serve-behind (get r) m w =
      refuse_if_some-behind (text_of (validate_get_apps r)) _ (ok tt) (adapter.get_apps r) _ refl
  serve-behind (delete_metadata r) m w = unless-behind _ _ _ _ _ _ λ free.
      refuse_if_some-behind (text_of (validate_delete_app_metadata r)) _ _ _ _
        (with_lock-behind _ _ (ok tt) (adapter.delete_app_metadata r) m w free refl)
  serve-behind (enable_disable r) m w =
      unless-behind _ _ _ _ _ _
        λ free. with_lock-behind _ _ (ok tt) (adapter.enable_disable_app r) m w free refl

  -- After any requests, served one after the other, the locks are those of the start.
  pub mutex-serve_all :
      (rs : List (Request F)) (m : Locks (Option V)) (w : W)
      → (serve_all fl private_registry registry adapter rs
          (record { mutex = some m; world = w })).mutex
        ≡ some m
  unfolding serve_all
  mutex-serve_all [] m w = refl
  mutex-serve_all (r ∷ rs) m w =
      ap (λ (t : Server V W). (serve_all fl private_registry registry adapter rs t).mutex) after
      ∙ mutex-serve_all rs m served.1.world
    where
      served : Reply B × Server V W
      served =
          behind (gate r (record { mutex = some m; world = w })) (act adapter r)
            (record { mutex = some m; world = w })

      after :
          (serve fl private_registry registry adapter r (record { mutex = some m; world = w })).1
          ≡ record { mutex = some m; world = served.1.world }
      after =
          ap (λ (p : Reply B × Server V W). p.1) (serve-behind r m w)
          ∙ ap (λ (x : Mutex (Option V)). record { mutex = x; world = served.1.world })
              (behind-mutex (gate r (record { mutex = some m; world = w })) (act adapter r)
                (record { mutex = some m; world = w }))
