-- ===== src/Adapter/Create/Untouched.antt =====
-- What the calls of `CreateApp` leave as it was, but for those that work on instances.
use grpc_gw_controller.Base.{
  ℕ, Option, none, some, Bool, true, false, List, [], ◌∷◌, Outcome, ok, err, panic, Holds,
  if◌then◌else◌, bytes_eq,
}
use grpc_gw_controller.Base.Text.{Bytes}
use grpc_gw_controller.Messages.{Limits}
use grpc_gw_controller.AppManager.{Reply}
use grpc_gw_controller.Apps.{AppInstanceData, keep}
use grpc_gw_controller.Maps.{get}
use grpc_gw_controller.Quotas.Limits.{LimitRange}
use grpc_gw_controller.Adapter.{Body, unless_error, with_result}
use grpc_gw_controller.Adapter.Deploy.{
  DeployClient, DeploySettings, unless_failed, with_call, then_call, then_cons, check_limits,
}
use grpc_gw_controller.Adapter.Create.{mark, mark_all}

-- The calls of the client but those of `instances` keep what holds of the world.
pub record IsUntouched {F Q W : Type 0} (cl : DeployClient F Q W) (K : W → Type 0) : Type 0 where
  pub sync_cache : (w : W) → K w → K (cl.sync_cache w).1
  pub push : (d : Bytes) (w : W) → K w → K (cl.catalog.push d w).1
  pub refresh : (w : W) → K w → K (cl.catalog.refresh_catalog w).1
  pub available : (n v : Bytes) (w : W) → K w → K (cl.catalog.template_available n v w).1
  pub sleep : (w : W) → K w → K (cl.catalog.sleep w)
  pub list_apps : (w : W) → K w → K (cl.list_apps w).1
  pub namespace : (n : Bytes) (w : W) → K w → K (cl.create_namespace n w).1
  pub storage : (a b c : Bytes) (n : ℕ) (w : W) → K w → K (cl.create_shared_storage a b c n w).1
  pub resources : (n : ℕ) (l : Limits F) (w : W) → K w → K (cl.check_available_resources n l w).1
  pub chart :
      (a b c d : Bytes) (i : AppInstanceData) (w : W) → K w → K (cl.create_chart a b c d i w).1
  pub create_limits : (n : Bytes) (o : LimitRange Q) (w : W) → K w → K (cl.limits.create n o w).1
  pub update_limits : (n : Bytes) (o : LimitRange Q) (w : W) → K w → K (cl.limits.update n o w).1
  pub delete_limits : (n : Bytes) (w : W) → K w → K (cl.limits.delete n w).1

module _ {W : Type 0} (K : W → Type 0) where
  pub unless_error-K :
      (x : Option Bytes × W) (rest : W → Reply Body × W)
      → K x.1
      → ((w : W) → K w → K (rest w).1)
      → K (unless_error x rest).1
  unfolding unless_error
  unless_error-K (some e, w) rest h g = h
  unless_error-K (none, w) rest h g = g w h

  pub unless_failed-K :
      (x : Outcome Bytes (Unit {0}) × W) (rest : W → Reply Body × W)
      → K x.1
      → ((w : W) → K w → K (rest w).1)
      → K (unless_failed x rest).1
  unless_failed-K (ok u, w) rest h g = g w h
  unless_failed-K (err e, w) rest h g = h
  unless_failed-K (panic, w) rest h g = h

  pub with_call-K :
      {A : Type 0} (P : A → Type 0) (x : Outcome Bytes A × W) (rest : A → W → Reply Body × W)
      → Holds P x.0
      → K x.1
      → ((a : A) (w : W) → P a → K w → K (rest a w).1)
      → K (with_call x rest).1
  with_call-K P (ok a, w) rest p h g = g a w p h
  with_call-K P (err e, w) rest p h g = h
  with_call-K P (panic, w) rest p h g = h

  pub with_result-K :
      {A : Type 0} (o : Outcome Bytes A) (rest : A → Reply Body × W) (w : W)
      → K w
      → ((a : A) → K (rest a).1)
      → K (with_result o rest w).1
  unfolding with_result
  with_result-K (ok a) rest w h g = g a
  with_result-K (err e) rest w h g = h
  with_result-K panic rest w h g = h

  pub then_call-K :
      {A B : Type 0} (x : Outcome Bytes A × W) (rest : A → W → Outcome Bytes B × W)
      → K x.1
      → ((a : A) (w : W) → K w → K (rest a w).1)
      → K (then_call x rest).1
  then_call-K (ok a, w) rest h g = g a w h
  then_call-K (err e, w) rest h g = h
  then_call-K (panic, w) rest h g = h

  pub if_K : {A : Type 0} (b : Bool) (x y : A × W) → K x.1 → K y.1 → K (if b then x else y).1
  if_K true x y h g = h
  if_K false x y h g = g

  pub then_cons-K :
      {A : Type 0} (x : Outcome Bytes A × W) (rest : W → Outcome Bytes (List A) × W)
      → K x.1
      → ((w : W) → K w → K (rest w).1)
      → K (then_cons x rest).1
  then_cons-K x rest h g =
      then_call-K x _ h (λ a w k. then_call-K (rest w) _ (g w k) (λ as' w1 k1. k1))

module _ {F Q W : Type 0} (cl : DeployClient F Q W) (K : W → Type 0) (u : IsUntouched cl K)
    (settings : DeploySettings) where
  mark-K :
      (n : AppInstanceData) (rs : List AppInstanceData) (w : W)
      → K w
      → K (mark cl settings n rs w).1
  unfolding mark
  mark-K n [] w h = h
  mark-K n (r ∷ rs) w h =
      if_K K (bytes_eq n.instance_name r.instance_name) _ _
        (mark-K (record n { next_action = keep; template_available = true }) rs w h)
        (then_call-K K
          (cl.catalog.template_available (get n.annotations "apphc.app.instance.template_name")
            n.requested_version w)
          _ (u.available _ _ w h) (λ b w1 k. mark-K (record n { template_available = b }) rs w1 k))

  pub mark_all-K : (ns rs : List AppInstanceData) (w : W) → K w → K (mark_all cl settings ns rs w).1
  unfolding mark_all
  mark_all-K [] rs w h = h
  mark_all-K (n ∷ ns) rs w h =
      then_cons-K K (mark cl settings n rs w) _ (mark-K n rs w h) (mark_all-K ns rs)

  pub check_limits-K :
      (n : ℕ) (l : Option (Limits F)) (rest : W → Reply Body × W) (w : W)
      → K w
      → ((w : W) → K w → K (rest w).1)
      → K (check_limits cl settings n l rest w).1
  check_limits-K n none rest w h g = g w h
  check_limits-K n (some l) rest w h g =
      unless_error-K K (cl.check_available_resources n l w) rest (u.resources n l w h) g
