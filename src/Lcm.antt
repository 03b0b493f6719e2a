-- ===== src/Lcm.antt =====
-- app/grpc/clustermanager/common/lcm/upgrade_cluster.go: `UpgradeCluster`, which upgrades the
-- components of the cluster in goroutines that share a slice, and `finalize`, which records the upgrade
-- in the annotations of the default namespace and gives back the lock. An `append` reads the slice and
-- then writes it. The ssh client and the Kubernetes client are given, and the order of the turns is a
-- list.
pub mod Turns
pub mod Finalize
pub mod Recorded
pub mod Release
mod Tests
use grpc_gw_controller.Base.{
  ℕ, zero, suc, Option, none, some, Bool, true, false, not, ◌&&◌, ◌||◌, List, [], ◌∷◌, ◌++◌,
  Outcome, ok, panic, if◌then◌else◌, ◌==◌, bytes_eq, length,
}
use grpc_gw_controller.Base.Turns.{turns}
use grpc_gw_controller.Base.Text.{Bytes, bytes, fields}
use grpc_gw_controller.Mutex.{Mutex, unlock, lock_action_upgrade_cluster}
use grpc_gw_controller.Maps.{Map, add}
use grpc_gw_controller.ClusterManager.{Reply}

pub record Component : Type 0 where
  pub name : Bytes
  pub status : Bytes
  pub error_message : Bytes

-- The time of the upgrade is left out.
pub record Upgrade : Type 0 where
  pub status : Bytes
  pub error_message : Bytes
  pub components : List Component

abbrev pub status_ok : Bytes
status_ok = bytes "OK"

abbrev pub status_error : Bytes
status_error = bytes "ERROR"

abbrev pub component_name_apphoster_controller : Bytes
component_name_apphoster_controller = bytes "controller"

abbrev pub cmd_clean : Bytes
cmd_clean = bytes "apph-upgrade.sh -o clean"

pub record Config : Type 0 where
  pub private_docker_registry : Bytes
  pub git_server_endpoint : Bytes

unfoldable pub cmd_prepare : Config → Bytes
cmd_prepare c = bytes "apph-upgrade.sh -o prepare" ++ (bytes " -d " ++ c.private_docker_registry)

unfoldable pub cmd_upgrade : Config → Bytes → Bytes
cmd_upgrade c component =
    bytes "apph-upgrade.sh -o upgrade"
    ++ (bytes " -d "
        ++ (c.private_docker_registry
            ++ (bytes " -c "
                ++ (component
                    ++ (bytes " -g http://intucell:intucell@" ++ c.git_server_endpoint)))))

-- `NewSession`, the calls of a session with the error of the command, and `Namespaces().Update`, of
-- which the program drops the error.
pub record Remote (W : Type 0) : Type 0 where
  pub new_session : W → Option Bytes × W
  pub output : Bytes → W → Option Bytes × Bytes × W
  pub combined_output : Bytes → W → Option Bytes × W
  pub run_command : Bytes → W → Option Bytes × W
  pub update_namespace : Map → W → W

-- Where a goroutine stands: it has the name of its component, or its result, or its result and the
-- slice that it has read.
pub data Phase : Type 0 where
  starting working : Bytes → Phase
  ending : Component → Phase
  storing : Component → List Component → Phase
  returned : Phase

pub record Pool (W : Type 0) : Type 0 where
  pub world : W
  pub components : List Component
  pub phase : ℕ → Phase

-- What the process and the namespace keep; the annotations may be a nil map.
pub record State (W B : Type 0) : Type 0 where
  pub mutex : Mutex (Option (Reply B))
  pub annotations : Option Map
  pub world : W

unfoldable pub component_of : Bytes → Option Bytes → Component
component_of name none = record { name = name; status = status_ok; error_message = [] }
component_of name (some e) = record { name = name; status = status_error; error_message = e }

abbrev pub after_session : Bytes → Option Bytes → Phase
after_session name none = working name
after_session name (some e) = ending (component_of name (some e))

abbrev pub set_phase : ℕ → Phase → (ℕ → Phase) → ℕ → Phase
set_phase i p phase j = if j == i then p else phase j

module _ {W : Type 0} (remote : Remote W) (config : Config) where
  unfoldable pub step : ℕ → Phase → Pool W → Pool W
  step k (starting name) m =
      let r = remote.new_session m.world in
      record m { world = r.1; phase = set_phase k (after_session name r.0) m.phase }
  step k (working name) m =
      let r = remote.combined_output (cmd_upgrade config name) m.world in
      record m { world = r.1; phase = set_phase k (ending (component_of name r.0)) m.phase }
  step k (ending c) m = record m { phase = set_phase k (storing c m.components) m.phase }
  step k (storing c l) m = record m {
    components = l ++ c ∷ [];
    phase = set_phase k returned m.phase;
  }
  step k returned m = m

  abbrev pub turn : ℕ → Pool W → Pool W
  turn k m = step k (m.phase k) m

  abbrev pub after_controller_session : Option Bytes × W → W
  after_controller_session (some e, w) = w
  after_controller_session (none, w) =
      (remote.combined_output (cmd_upgrade config component_name_apphoster_controller) w).1

-- The goroutines of the components but the controller.
unfoldable pub others : List Bytes → List Bytes
others [] = []
others (c ∷ cs) =
    let rest = others cs in
    if bytes_eq c component_name_apphoster_controller then rest else c ∷ rest

unfoldable pub upgrade_controller : List Bytes → Bool
upgrade_controller [] = false
upgrade_controller (c ∷ cs) =
    bytes_eq c component_name_apphoster_controller || upgrade_controller cs

abbrev pub phase_at : List Bytes → ℕ → Phase
phase_at [] k = returned
phase_at (c ∷ cs) zero = starting c
phase_at (c ∷ cs) (suc k) = phase_at cs k

abbrev pub has_returned : Phase → Bool
has_returned returned = true
has_returned _ = false

-- `wg.Wait` returns when the first `n` goroutines have.
abbrev pub all_returned : ℕ → (ℕ → Phase) → Bool
all_returned zero phase = true
all_returned (suc n) phase = has_returned (phase n) && all_returned n phase

unfoldable pub any_failed : List Component → Bool
any_failed [] = false
any_failed (c ∷ cs) = not (bytes_eq c.error_message []) || any_failed cs

unfoldable pub conclude : List Component → Option Bytes → Upgrade
conclude cs (some e) = record { status = status_error; error_message = e; components = cs }
conclude cs none =
    if any_failed cs
    then record {
      status = status_error;
      error_message = bytes "AppHoster upgrade failed";
      components = cs;
    }
    else record { status = status_ok; error_message = []; components = cs }

abbrev pub Run : Type 0 → Type 0 → Type 0
Run W B = Outcome Bytes (Unit {0}) × State W B

module _ {W B : Type 0} (remote : Remote W) (marshal : Upgrade → Bytes) where
  -- A write to the nil map panics.
  abbrev pub record_upgrade : Upgrade → Option Map → State W B → Run W B
  record_upgrade u none s = (panic, s)
  record_upgrade u (some a) s =
      let b = add a "apphc.apph.last_upgrade" (marshal u) in
      (
        ok tt,
        record {
          mutex = unlock lock_action_upgrade_cluster s.mutex;
          annotations = some b;
          world = remote.update_namespace b s.world;
        },
      )

  abbrev pub after_clean : Upgrade → State W B → Option Bytes × W → Run W B
  after_clean u s (some e, w) = (ok tt, record s { world = w })
  after_clean u s (none, w) = record_upgrade u s.annotations (record s { world = w })

  -- The error of `NewSession` is dropped, and the method of the nil session panics.
  abbrev pub clean_up : Upgrade → State W B → Option Bytes × W → Run W B
  clean_up u s (some e, w) = (panic, record s { world = w })
  clean_up u s (none, w) = after_clean u s (remote.run_command cmd_clean w)

  unfoldable pub finalize : List Component → Option Bytes → State W B → Run W B
  finalize cs e s = clean_up (conclude cs e) s (remote.new_session s.world)

  -- The arguments of the deferred call are evaluated at the `defer`, where `err` is still nil.
  unfoldable pub finish : Config → Bool → List Component → State W B → Run W B
  finish config false cs s = finalize cs none s
  finish config true cs s =
      let w = after_controller_session remote config (remote.new_session s.world) in
      finalize (cs ++ component_of component_name_apphoster_controller none ∷ []) none
        (record s { world = w })

  -- Nothing comes back where the schedule ends before the goroutines do.
  abbrev pub wait_all : Config → List Bytes → Pool W → State W B → Option (Run W B)
  wait_all config names m s =
      if all_returned (length (others names)) m.phase
      then some
          (finish config (upgrade_controller names) m.components (record s { world = m.world }))
      else none

  abbrev pub upgrade_all : Config → List Bytes → List ℕ → State W B → Option (Run W B)
  upgrade_all config names schedule s =
      wait_all config names
        (turns (turn remote config) schedule
          (record { world = s.world; components = []; phase = phase_at (others names) }))
        s

  abbrev pub after_prepare :
      Config → List ℕ → State W B → Option Bytes × Bytes × W → Option (Run W B)
  after_prepare config schedule s (none, o, w) =
      upgrade_all config (fields o) schedule (record s { world = w })
  after_prepare config schedule s (some e, o, w) =
      some (finalize [] (some e) (record s { world = w }))

  abbrev pub after_first_session : Config → List ℕ → State W B → Option Bytes × W → Option (Run W B)
  after_first_session config schedule s (some e, w) =
      some (finalize [] (some e) (record s { world = w }))
  after_first_session config schedule s (none, w) =
      after_prepare config schedule s (remote.output (cmd_prepare config) w)

  unfoldable pub upgrade_cluster : Config → List ℕ → State W B → Option (Run W B)
  upgrade_cluster config schedule s =
      after_first_session config schedule s (remote.new_session s.world)
