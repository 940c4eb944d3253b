-- ===== src/Lib.antt =====
-- The operator of the openshift controller manager and the route controller manager: what its
-- controllers decide, write and report.
--
-- The program is a set of controllers that one process runs. Each has a sync function, which reads
-- the cluster through listers and clients and writes to it; they share no state but the cluster. A
-- definition here is the sync function, or a part of it, in the order of its statements.
--
-- - Common: helpers. Fault has Go errors as values (the reason that the code asks for, and the text,
--   so that %w and %v differ), Effect the actions on a cluster, Maps the map[string]string, Text the
--   strings, Sorting the sort of package sort, Int the int32 and int64 values that are compared and
--   printed. An action takes the state of the cluster and returns `none` for a panic, or a result with
--   the state that it leaves, also beside an error.
-- - Names, Cluster: constants of the API packages and of pkg/util/consts.go, and the objects that
--   several controllers read.
-- - Registry: pkg/operator/internalimageregistry/management_state.go, whether the image registry is
--   enabled (`image_registry_is_enabled` is ImageRegistryIsEnabled).
-- - Cleanup: pkg/operator/internalimageregistry/cleanup_controller.go, which removes the generated
--   pull secrets once the registry is disabled. Objects has the API objects, Account the body of the
--   loop over the service accounts (`cleanup_account`), Cleanup itself `sync` and `cleanup`. A state
--   carries the trace of the requests that were sent; Requests says when a request is safe, Outcomes what
--   a round of the loop has done, Extends how many requests a step adds, Stages the requests for one
--   pull secret as a relation. The service account that a lister returns is the object in its cache,
--   which the code changes in place before it sends the update (`assign_service_account`).
-- - Observe: pkg/operator/configobservation, the observers that make the configuration of the
--   controller managers from that of the cluster. Field is `ObserveField` and `ConvertJSON` of util.go;
--   Controllers, Images, Network, DeployImages and Builds are the packages of these names. An observer
--   takes the listers and the existing configuration and returns the observed one with its errors; it
--   first keeps the existing values, for the case that the cluster cannot be read. Observer is
--   configobservercontroller/observe_config_controller.go, which runs them all: its modules follow the
--   paths at which each of them writes.
-- - Operator: pkg/operator. Types and Api have the objects and the calls; ConfigMaps, Deployments,
--   Capabilities, Conditions and Sync are sync_openshiftcontrollermanager_v311_00.go
--   (`manage_config_map` is manageOpenShiftControllerManagerConfigMap_v311_00_to_latest, and so on;
--   `sync_to_latest` is the sync function, `sync_return` syncReturn); Queue is operator.go (`sync`,
--   `process_item` of processNextWorkItem, `run_worker`, the event handlers), Queue.Machine the handlers
--   with the work queue and the worker as a machine whose steps interleave; UserCa is
--   usercaobservation/user_ca_observation_controller.go; Starter is starter.go (`get_versions`,
--   `ensure_daemon_set_cleanup`, the watch of the build capability), Starter.Run its RunOperator, with
--   the informers of two controllers (Watches) and the resource syncer (Syncing);
--   GenericClient is generic_client.go.
--
-- Parameters. Code outside of the repository is an argument: the maps of package unstructured
-- (Observe.Unstructured, with the laws that a value that was set is read again and that paths of
-- which none is a prefix of the other do not disturb one another), the API server, the listers, the
-- assets and the functions of library-go (Operator.Api, with the laws that a condition or a
-- generation that was set is found, that setting it as it is found changes nothing, and that
-- statuses are the same exactly if they are equal), the clients of the other controllers,
-- encoding/json and the copies of DeepCopyJSONValue (Observe.Field.Codec), the function that reads
-- the external CIDRs, the observers of feature gates and of the TLS profile, which write at their
-- own paths, the merge of observed configurations (Observe.Observer.Entries.IsMerge: where all that
-- have a value have the same, the merge has it), the work queue of client-go
-- (Operator.Queue.Machine.IsQueue: a key that is added stays pending until it is given;
-- Operator.Queue.Machine.Progress.IsFair: and is given, if it is not processed, once its delays
-- have ended), the API server for the generic client (Operator.GenericClient.Again.IsServer: a
-- field manager owns what it has applied), the resource syncer
-- (Operator.Starter.Run.Syncing.IsSyncer: it keeps the last source of each destination, and accepts
-- the namespaces that it knows), and resourcemerge.MergeMap (Operator.Sync.Rollout.MergesMap: what
-- is required is set). For each record of laws a concrete instance meets them, in
-- Observe.Unstructured.Flat, Operator.Sample and the modules whose names end in Checks.
--
-- Choices. Reads are functions of the state of the cluster, so that a read after a write can see
-- it. The order in which Go visits a map is an argument. Time is a natural number of nanoseconds. A
-- nil map that is returned is `none` beside its errors. `ObserveField` takes a nil map as `none`,
-- and panics at a write into it; the observers give it maps that were made (`observe_field_made`).
-- Texts are sequences of characters; sort.Strings compares bytes, which orders valid UTF-8 as it
-- orders characters. The worker and the polls of the daemon set run for a given number of rounds,
-- since only a signal ends them; for the polls a number is shown to be enough. The fuel of the
-- decimal digits is the number and one more; Common.Int shows that more of it changes nothing, and
-- Common.Int.Reading that the number can be read back.
--
-- Not modelled: the constructors of clients, informers and controllers but for the lists that they are
-- given, the commands, logging, the contexts and the rate limiters, which only wait, the embedded
-- manifests, the tests and the vendored libraries. RunOperator is modelled as what it waits for and
-- starts. In the machine of Queue.Machine a sync is one step; an event during a sync is a step before
-- it, which leaves the key pending all the same. The time of a condition's last transition is left to
-- library-go.
pub mod Common
pub mod Names
pub mod Cluster
pub mod Registry
pub mod Observe
pub mod Operator
pub mod Cleanup
