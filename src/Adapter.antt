-- ===== src/Adapter.antt =====
-- app/grpc/appmanager/adapters/rancher/adapter.go: what the methods of the Rancher adapter share. A call
-- gives its error, if any, and the world after it. The bodies of the responses are those of
-- api/v1/appmanager/appmanager.pb.go.
pub mod Deletion
pub mod Delete
pub mod Collected
pub mod SameCalls
pub mod Namespace
pub mod Metadata
pub mod Backup
pub mod Catalog
pub mod Deploy
pub mod NoSuccess
pub mod Create
pub mod Restore
pub mod Upgrade
pub mod Update
pub mod Storage
mod Tests
use grpc_gw_controller.Base.{Option, none, some, List, [], ◌∷◌, Outcome, ok, err, panic}
use grpc_gw_controller.Base.Text.{Bytes}
use grpc_gw_controller.Messages.{Status, success, Response}
use grpc_gw_controller.AppManager.{Reply, generate_response, failure}
use grpc_gw_controller.Workers.{AppInstance, Template}

pub record App : Type 0 where
  pub name : Bytes
  pub cycle : Bytes
  pub instances : List AppInstance

pub data Body : Type 0 where
  app_body : App → Body
  apps_body : List App → Body
  templates_body : Bytes → List Template → Body

module _ {W : Type 0} where
  -- An error of a call is the reply of the method.
  unfoldable pub unless_error : Option Bytes × W → (W → Reply Body × W) → Reply Body × W
  unless_error (some e, w) rest = (failure e, w)
  unless_error (none, w) rest = rest w

  unfoldable pub with_result :
      {A : Type 0} → Outcome Bytes A → (A → Reply Body × W) → W → Reply Body × W
  with_result (ok a) rest w = rest a
  with_result (err e) rest w = (failure e, w)
  with_result panic rest w = (panic, w)

-- `GenerateResponse` with a body that may fail to be marshalled.
abbrev pub reply_with : (Body → Option Bytes) → Status → Bytes → Option Body → Reply Body
reply_with marshal status msg b = ok (generate_response marshal status msg b)
