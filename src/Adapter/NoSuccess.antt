-- ===== src/Adapter/NoSuccess.antt =====
-- Replies of the Rancher adapter that are no success.
use grpc_gw_controller.Base.{
  ℕ, Option, none, some, Bool, true, false, Outcome, ok, err, panic, Holds, if◌then◌else◌, ◌≢◌,
}
use grpc_gw_controller.Base.Text.{Bytes}
use grpc_gw_controller.Messages.{success}
use grpc_gw_controller.AppManager.{Reply, failure}
use grpc_gw_controller.Messages.{Limits}
use grpc_gw_controller.Adapter.{Body, unless_error, with_result}
use grpc_gw_controller.Adapter.Deploy.{
  DeployClient, DeploySettings, check_limits, unless_failed, with_call,
}

-- The reply is no success.
abbrev pub NoSuccess : {B W : Type 0} → Reply B × W → Type 0
NoSuccess (ok r, w) = r.status ≢ success
NoSuccess (err e, w) = Unit
NoSuccess (panic, w) = Unit

module _ {W : Type 0} where
  pub unless_error-NoSuccess :
      (x : Option Bytes × W) (rest : W → Reply Body × W)
      → ((w : W) → NoSuccess (rest w))
      → NoSuccess (unless_error x rest)
  unfolding unless_error failure
  unless_error-NoSuccess (some e, w) rest g = λ h. cc
  unless_error-NoSuccess (none, w) rest g = g w

  pub unless_failed-NoSuccess :
      (x : Outcome Bytes (Unit {0}) × W) (rest : W → Reply Body × W)
      → ((w : W) → NoSuccess (rest w))
      → NoSuccess (unless_failed x rest)
  unfolding failure
  unless_failed-NoSuccess (ok u, w) rest g = g w
  unless_failed-NoSuccess (err e, w) rest g = λ h. cc
  unless_failed-NoSuccess (panic, w) rest g = tt

  pub with_call-NoSuccess :
      {A : Type 0} (P : A → Type 0) (x : Outcome Bytes A × W) (rest : A → W → Reply Body × W)
      → Holds P x.0
      → ((a : A) (w : W) → P a → NoSuccess (rest a w))
      → NoSuccess (with_call x rest)
  unfolding failure
  with_call-NoSuccess P (ok a, w) rest h g = g a w h
  with_call-NoSuccess P (err e, w) rest h g = λ k. cc
  with_call-NoSuccess P (panic, w) rest h g = tt

  pub if_NoSuccess :
      (b : Bool) (x y : Reply Body × W) → NoSuccess x → NoSuccess y → NoSuccess (if b then x else y)
  if_NoSuccess true x y h g = h
  if_NoSuccess false x y h g = g

  pub with_result-NoSuccess :
      {A : Type 0} (P : A → Type 0) (o : Outcome Bytes A) (rest : A → Reply Body × W) (w : W)
      → Holds P o
      → ((a : A) → P a → NoSuccess (rest a))
      → NoSuccess (with_result o rest w)
  unfolding with_result failure
  with_result-NoSuccess P (ok a) rest w h g = g a h
  with_result-NoSuccess P (err e) rest w h g = λ k. cc
  with_result-NoSuccess P panic rest w h g = tt

pub Holds-trivial : {A : Type 0} (o : Outcome Bytes A) → Holds (λ _. Unit {0}) o
Holds-trivial (ok a) = tt
Holds-trivial (err e) = tt
Holds-trivial panic = tt

module _ {F Q W : Type 0} (cl : DeployClient F Q W) (settings : DeploySettings) where
  pub check_limits-NoSuccess :
      (count : ℕ) (l : Option (Limits F)) (rest : W → Reply Body × W) (w : W)
      → ((w1 : W) → NoSuccess (rest w1))
      → NoSuccess (check_limits cl settings count l rest w)
  check_limits-NoSuccess count none rest w g = g w
  check_limits-NoSuccess count (some l) rest w g =
      unless_error-NoSuccess (cl.check_available_resources count l w) rest g
