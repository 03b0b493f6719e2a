-- ===== src/Lib.antt =====
-- A model of the grpc gateway controller: the service that creates, upgrades, updates, disables,
-- lists and deletes applications on a Rancher cluster.
--
-- Paths are under src/cisco.com/son/apphcd of the repository. A handler of the AppManager service
-- checks the lock map, validates the request, takes a lock that a deferred call gives back, checks
-- the docker image in its registry and calls the Rancher adapter. The adapter collects temporary
-- data on new and running instances, and works on the project by them.
--
-- - Base: texts, decimal numbers, maps, and what a Go function can do (return, fail, panic).
-- - Mutex: app/common/mutex/mutex.go. Mutex/Interleaving makes each call of IsLocked, Lock and
--   Unlock by a handler one step, with the return of UpgradeCluster, whose goroutine unlocks later or
--   never, and is where concurrency is modelled; Mutex/Race has its runs.
-- - Maps: app/common/map.go.
-- - Messages: the messages of api/v1/appmanager/appmanager.pb.go that the handlers read, and
--   Messages/Validate the rules of appmanager.pb.validate.go. CreateAppRequest, UpgradeAppRequest and
--   UpdateAppRequest have the same fields and are one record, AppRequest.
-- - Cron: PeriodicToCronString and CronStringToCyclePeriodicRespAttr of
--   app/grpc/appmanager/common/common.go.
-- - AppTypes: AppTypeToAppCycle and AppCycleToAppType of the same file.
-- - DockerImage: ValidateDockerImage of the same file. ResourceInputs: ValidateInputs of
--   app/grpc/common/resourcemgr/common.go.
-- - Amounts: the rest of that file, GetStorageGbInt of app/grpc/common/common.go, and getMemory and
--   getAllocatedCpu of app/grpc/clustermanager/adapters/rancher/adapter.go.
-- - AppManager: the handlers of app/grpc/appmanager/appmanager.go. AppManager/Gate states what each
--   request has to pass, and AppManager/Admission compares the handlers with it.
-- - Apps: app/grpc/appmanager/common/appdata.go and
--   app/grpc/appmanager/adapters/rancher/appsdata.go. Apps/Running and Apps/Removal are the loops
--   over the applications of a project; Apps/Recorded, Apps/Deleted and Apps/Created are about them,
--   Apps/Names is about the names of instances.
-- - Workers: app/grpc/appmanager/adapters/rancher/handle_appsdata.go, the goroutines that create and
--   upgrade the instances. A run is a schedule, the list of the goroutines that take the next step;
--   Workers/Results and Workers/Report are about every schedule, Workers/Lost about one.
-- - Charts: SetChartData of app/grpc/appmanager/common/chartutils/chartutils.go, which completes an
--   instance by the request and by the values of its last chart. Charts/Reuse takes over the values,
--   Charts/Request what the request asks for, Charts/SetData is the whole. Charts/Identity is about
--   the annotations by which an instance is found again, Charts/NoName about images with no name.
-- - Adapter: app/grpc/appmanager/adapters/rancher/adapter.go. Adapter/Delete is DeleteApp and DeleteApps
--   over Adapter/Deletion, the goroutines of deleteApps in handle_appsdata.go beside it;
--   Adapter/Metadata is DeleteAppMetadata, Adapter/Backup getBackupData and the part of
--   updateUpgradeApps that plans the instances. Adapter/Catalog is syncCatalog and
--   waitForCatalogEntry, Adapter/Create CreateApp, with Adapter/Create/Untouched on what its calls leave
--   as it was; Adapter/Deploy has what both kinds of deployment
--   call. Adapter/Restore, Adapter/Upgrade and Adapter/Update are the rest of updateUpgradeApps from
--   its last step to its first: the charts and their backups, the work with the roll-back, and the
--   handlers UpgradeApp and UpdateApp. Adapter/NoSuccess has the lemmas on replies that are no success.
--   Adapter/Storage is about volumes and their claims in the package apiclient beside it (common.go and
--   CreateAppInstance of appinstance.go), Adapter/Storage/Shared is its appstorage.go.
-- - ClusterManager: UpgradeCluster, GetClusterInfo and the handlers of nodes of
--   app/grpc/clustermanager/clustermanager.go, with the responses of its common package.
-- - Quotas: SetClusterResourceQuotas of the same file, its validation, and
--   CreateUpdateResourceQuotas of app/grpc/common/resourcemgr/resource_quotas.go. Quotas/Read models the
--   handlers that read and delete quotas, with GetResourceQuotas and DeleteResourceQuotas.
--   Quotas/Limits models limitranges.go of the same package.
-- - Lcm: app/grpc/clustermanager/common/lcm/upgrade_cluster.go, with the turns of its goroutines as a
--   list. Lcm/Turns is about when they end, Lcm/Release about what is recorded and unlocked.
-- - Nodes: the nodes of app/grpc/clustermanager/adapters/rancher/adapter.go. The loop of waitForDrained
--   has 182 rounds, a second each, so that the time-out after 181 seconds comes within them.
-- - ClusterInfo: GetClusterInfo of the same file. ClusterInfo/Body makes the response, ClusterInfo/Distinct
--   and ClusterInfo/Counted are about its counts.
-- - Rancher: GetResourceType, Lookup and GetProjectContext of app/grpc/common/rancher/common.go.
--
-- A Go string is a list of bytes, and a key of a map or a fixed name is a native string. Changes of
-- case are those of ASCII, which all names and keys in the program's own texts are. An `error` is a
-- value of a type of its own; panics are values too. A map has no order here, and where the program
-- iterates over one the result does not depend on the order. Logging and timestamps are left out.
--
-- The loop of PeriodicToCronString over the hours has no bound in the source. It runs on fuel, a unit
-- for each hour, so that the 24 of a day are enough; SetChartData, which calls it, takes a loop that
-- has not ended by then as a panic. The rounds of waitForDrained and of waitForCatalogEntry are fuel
-- too: the second has the 20 of the source. A loop of the package apiclient ends by the clock, and the
-- client gives the number of its rounds for a time-out and a pause; the theorems hold for any number.
--
-- Parameters stand for code outside the repository: the operations of float64, the docker registry,
-- the adapters behind the handlers, the Kubernetes client and its parser of quantities, the hosts
-- that an upgrade reaches, the ssh client and the clock, what the Rancher client returns, the query
-- of a URL, the files of a directory and the YAML values that are parsed from them. The calls of the
-- package apiclient and the writing of charts to the catalog are interfaces that Workers and
-- Adapter take.
--
-- Not modelled: GetApps and EnableDisableApp of the Rancher adapter and the making of an adapter, the
-- other functions of the package apiclient, the text of the chart files that chartutils.go writes, the start of
-- the servers and their configuration, generated and vendored code.
pub mod Base
pub mod Cron
pub mod AppTypes
pub mod Mutex
pub mod Maps
pub mod Messages
pub mod DockerImage
pub mod ResourceInputs
pub mod Amounts
pub mod AppManager
pub mod Apps
pub mod Charts
pub mod Workers
pub mod Adapter
pub mod ClusterManager
pub mod Quotas
pub mod Lcm
pub mod Nodes
pub mod Rancher
pub mod ClusterInfo
