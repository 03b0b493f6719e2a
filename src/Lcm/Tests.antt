-- ===== src/Lcm/Tests.antt =====
-- Upgrades of a database, a proxy and the controller.
use grpc_gw_controller.Base.{
  ℕ, zero, suc, Option, none, some, false, List, [], ◌∷◌, ◌++◌, ok, bytes_eq, arith, ◌≡◌, refl,
}
use grpc_gw_controller.Base.Text.{Bytes, bytes, fields, split_by}
use grpc_gw_controller.Base.Dict.{insert, erase}
use grpc_gw_controller.Base.Turns.{turns}
use grpc_gw_controller.Mutex.{unlock, lock_action_upgrade_cluster}
use grpc_gw_controller.Maps.{add}
use grpc_gw_controller.Lcm.{
  Component, Upgrade, status_ok, component_name_apphoster_controller, Config, Remote, State,
  component_of, step, turn, others, phase_at, upgrade_controller, any_failed, conclude, Run,
  finalize, finish, upgrade_cluster,
}
use grpc_gw_controller.Lcm.Finalize.{Records}
use grpc_gw_controller.Lcm.Recorded.{IsReport}
use grpc_gw_controller.Lcm.Turns.{FourTurns}
use grpc_gw_controller.Lcm.Release.{
  upgrade_cluster-Releases, upgrade_cluster-Keeps, upgrade_cluster-controller,
}

abbrev Quiet : Type 0
Quiet = Unit {0}

abbrev config : Config
config = record {
  private_docker_registry = bytes "registry:5000";
  git_server_endpoint = bytes "git:3000";
}

abbrev exit_status : Option Bytes
exit_status = some (bytes "Process exited with status 1")

-- Upgrades fail; the clean-up ends as `clean` says.
abbrev host : Bytes → Option Bytes → Remote Quiet
host components clean = record {
  new_session = λ w. (none, w);
  output = λ c w. (none, components, w);
  combined_output = λ c w. (exit_status, w);
  run_command = λ c w. (clean, w);
  update_namespace = λ a w. w;
}

abbrev report : Upgrade → Bytes
report u = u.status ++ (bytes " " ++ u.error_message)

abbrev at_work : State Quiet Quiet
at_work = record {
  mutex = some ((lock_action_upgrade_cluster, none) ∷ []);
  annotations = some [];
  world = tt;
}

abbrev one_by_one : List ℕ
one_by_one = 0 ∷ 0 ∷ 0 ∷ 0 ∷ 1 ∷ 1 ∷ 1 ∷ 1 ∷ []

-- Both goroutines read the slice before either writes it.
abbrev together : List ℕ
together = 0 ∷ 1 ∷ 0 ∷ 1 ∷ 0 ∷ 1 ∷ 0 ∷ 1 ∷ []

abbrev upgraded : Bytes → Run Quiet Quiet
upgraded said = (
  ok tt,
  record {
    mutex = some [];
    annotations = some (("apphc.apph.last_upgrade", said) ∷ []);
    world = tt;
  },
)

upgrade_cluster_runs :
    (upgrade_cluster (host (bytes "mongo proxy") none) report config one_by_one at_work
      ≡ some (upgraded (bytes "ERROR AppHoster upgrade failed")))
    × (upgrade_cluster (host (bytes "controller\n") none) report config [] at_work
        ≡ some (upgraded (bytes "OK ")))
    × (upgrade_cluster (host (bytes "mongo") none) report config (0 ∷ 0 ∷ 0 ∷ []) at_work ≡ none)
unfolding upgrade_cluster fields split_by others upgrade_controller step bytes_eq finish finalize
    conclude any_failed unlock component_of erase add insert
upgrade_cluster_runs = (refl, refl, refl)

-- The pool of two components that both fail keeps one of them.
lost_component_run :
    (turns (turn (host [] none) config) together (record {
      world = tt;
      components = [];
      phase = phase_at (bytes "mongo" ∷ bytes "proxy" ∷ []);
    })).components
    ≡ component_of (bytes "proxy") exit_status ∷ []
unfolding step component_of
lost_component_run = refl

upgrade_cluster-Releases_example :
    (r : Run Quiet Quiet) × (upgrade_cluster
        (host (bytes "mongo proxy") none)
        report
        config
        one_by_one
        at_work
      ≡ some r)
    × (u : Upgrade) × IsReport u
    × Records (host (bytes "mongo proxy") none) report u at_work r
unfolding fields split_by others bytes_eq
upgrade_cluster-Releases_example =
    upgrade_cluster-Releases (host (bytes "mongo proxy") none) report config one_by_one at_work 2 []
      (record { opens = λ w. refl; cleans = λ w. refl }) refl (λ w. omega arith) four
  where
    four : FourTurns 2 one_by_one
    four zero h = omega arith
    four (suc zero) h = omega arith
    four (suc (suc k)) h = absurd (omega (arith, h))

upgrade_cluster-Keeps_example :
    (at_work.mutex ≡ at_work.mutex) × (at_work.annotations ≡ at_work.annotations)
unfolding upgrade_cluster fields split_by others upgrade_controller step bytes_eq finish finalize
    conclude any_failed component_of
upgrade_cluster-Keeps_example =
    upgrade_cluster-Keeps (host (bytes "mongo proxy") exit_status) report config one_by_one at_work
      (ok tt, at_work) (λ w h. cc) refl

upgrade_cluster-controller_example :
    (cs : List Component) × (u : Upgrade) × Records
      (host (bytes "controller") none)
      report
      u
      at_work
      (upgraded (bytes "OK "))
    × (u.components ≡ cs ++ component_of component_name_apphoster_controller none ∷ [])
    × (any_failed cs ≡ false → u.status ≡ status_ok)
unfolding upgrade_cluster fields split_by others upgrade_controller step bytes_eq finish finalize
    conclude any_failed unlock component_of erase add insert
upgrade_cluster-controller_example =
    upgrade_cluster-controller (host (bytes "controller") none) report config [] at_work
      (upgraded (bytes "OK ")) [] (record { opens = λ w. refl; cleans = λ w. refl }) refl refl refl
      refl
