-- ===== src/Adapter/SameCalls.antt =====
-- Two clients that differ only in how they delete namespaces, in the parts of DeleteApp and
-- DeleteApps.
use grpc_gw_controller.Base.{
  ℕ, Option, none, some, Bool, List, [], ◌∷◌, Outcome, ok, err, panic, if◌then◌else◌, ◌==◌,
  bytes_eq, bytes_Eq, length, get_elem?, Bool-cases, ◌≡◌, inl, inr, refl, ap, ◌∙◌,
}
use grpc_gw_controller.Base.Text.{Bytes}
use grpc_gw_controller.Base.Turns.{turns}
use grpc_gw_controller.AppManager.{Reply}
use grpc_gw_controller.Apps.{AppInstanceData, AppsData, new_apps_data, GenericRequester}
use grpc_gw_controller.Apps.Running.{RancherApp}
use grpc_gw_controller.Apps.Removal.{append_apps_data_to_delete}
use grpc_gw_controller.Workers.{AppInstance}
use grpc_gw_controller.Adapter.{Body, unless_error, with_result}
use grpc_gw_controller.Adapter.Deletion.{
  DeleteClient, Settings, Phase, ready, purging, failed, chart_failed, failed_read,
  chart_failed_read, done, done_read, checking, returned, Pool, chart_path, step, step_at, turn,
  start, delete_instances,
}
use grpc_gw_controller.Adapter.Collected.{NoNamespaces, append_items-NoNamespaces}
use grpc_gw_controller.Adapter.Delete.{collected, clear_app, delete_existing}

-- A client that deletes namespaces in another way, but for the one with the empty name.
abbrev pub with_namespaces :
    {W : Type 0} → DeleteClient W → (Bytes → W → Option Bytes × W) → DeleteClient W
with_namespaces client other = record client {
  delete_namespace = λ n w. if bytes_eq n [] then client.delete_namespace n w else other n w;
}

pub unless_error-same :
    {W : Type 0} (r : Option Bytes × W) (f g : W → Reply Body × W)
    → ((w : W) → f w ≡ g w)
    → unless_error r f ≡ unless_error r g
unfolding unless_error
unless_error-same (some e, w) f g h = refl
unless_error-same (none, w) f g h = h w

pub with_result-same :
    {A W : Type 0} (o : Outcome Bytes A) (f g : A → Reply Body × W) (w : W)
    → ((a : A) → o ≡ ok a → f a ≡ g a)
    → with_result o f w ≡ with_result o g w
unfolding with_result
with_result-same (ok a) f g w h = h a refl
with_result-same (err e) f g w h = refl
with_result-same panic f g w h = refl

module _ {W : Type 0} (client : DeleteClient W) (other : Bytes → W → Option Bytes × W)
    (settings : Settings) where
  module _ (name : Bytes) (purge : Bool) (is : List AppInstanceData) where
    step-same :
        (k : ℕ) (i : AppInstanceData) (p : Phase) (m : Pool W)
        → step (with_namespaces client other) settings name purge is k i p m
          ≡ step client settings name purge is k i p m
    unfolding step chart_path
    step-same k i ready m = refl
    step-same k i purging m = refl
    step-same k i (failed e) m = refl
    step-same k i (chart_failed e) m = refl
    step-same k i (failed_read e es) m = refl
    step-same k i (chart_failed_read e es) m = refl
    step-same k i done m = refl
    step-same k i (done_read l) m = refl
    step-same k i checking m = refl
    step-same k i returned m = refl

    step_at-same :
        (k : ℕ) (o : Option AppInstanceData) (m : Pool W)
        → step_at (with_namespaces client other) settings name purge is k o m
          ≡ step_at client settings name purge is k o m
    step_at-same k none m = refl
    step_at-same k (some i) m = step-same k i (m.phase k) m

    turns-same :
        (schedule : List ℕ) (m : Pool W)
        → turns (turn (with_namespaces client other) settings name purge is) schedule m
          ≡ turns (turn client settings name purge is) schedule m
    turns-same [] m = refl
    turns-same (k ∷ ks) m =
        turns-same ks (turn (with_namespaces client other) settings name purge is k m)
        ∙ ap (λ n. turns (turn client settings name purge is) ks n)
            (step_at-same k (get_elem? is k) m)

    delete_instances-same :
        (schedule : List ℕ) (w : W)
        → delete_instances (with_namespaces client other) settings name purge is schedule w
          ≡ delete_instances client settings name purge is schedule w
    unfolding delete_instances start
    delete_instances-same schedule w = rw (turns-same schedule) refl

  module _ (marshal : Body → Option Bytes) (schedule : Bytes → List ℕ) where
    pub delete_existing-same :
        (name : Bytes) (purge : Bool) (existing : List AppInstanceData)
        (f g : List AppInstance → W → Reply Body × W) (w : W)
        → ((l : List AppInstance) (v : W) → f l v ≡ g l v)
        → delete_existing
            (with_namespaces client other)
            settings
            marshal
            schedule
            name
            purge
            existing
            f
            w
          ≡ delete_existing client settings marshal schedule name purge existing g w
    unfolding delete_existing
    delete_existing-same name purge existing f g w h =
        rw (delete_instances-same name purge existing (schedule name) w)
          (with_result-same _ _ _ _ (λ l e. h l _))

    pub clear_app-same :
        (name namespace : Bytes) (existing : List AppInstanceData) (l : List AppInstance)
        (f g : W → Reply Body × W) (w : W)
        → namespace ≡ []
        → ((v : W) → f v ≡ g v)
        → clear_app
            (with_namespaces client other)
            settings
            marshal
            schedule
            name
            namespace
            existing
            l
            f
            w
          ≡ clear_app client settings marshal schedule name namespace existing l g w
    unfolding clear_app bytes_eq
    clear_app-same name namespace existing l f g w e h =
        elim (Bool-cases (length l == length existing)) [
          | inl t ↦ rw (t, e) (unless_error-same _ _ _ (λ v. unless_error-same _ _ _ h))
          | inr t ↦ rw t (h w)
        ]

    pub collected-same :
        (req : Option GenericRequester) (f g : AppsData → W → Reply Body × W) (w : W)
        → ((apps : AppsData) (v : W) → NoNamespaces apps.running_apps_data → f apps v ≡ g apps v)
        → collected (with_namespaces client other) settings marshal schedule req f w
          ≡ collected client settings marshal schedule req g w
    unfolding collected append_apps_data_to_delete new_apps_data with_result
    collected-same req f g w h =
        unless_error-same _ _ _
          (λ w1. unless_error-same _ _ _ (λ w2. go (client.list_apps w2).0 (client.list_apps w2).1))
      where
        go :
            (o : Outcome Bytes (List RancherApp)) (v : W)
            → with_result (append_apps_data_to_delete o req new_apps_data) (λ apps. f apps v) v
              ≡ with_result (append_apps_data_to_delete o req new_apps_data) (λ apps. g apps v) v
        go (ok items) v = h _ v (append_items-NoNamespaces req items ([], new_apps_data) tt)
        go (err e) v = refl
        go panic v = refl
