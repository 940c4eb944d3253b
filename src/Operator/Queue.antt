-- ===== src/Operator/Queue.antt =====
-- The worker of pkg/operator/operator.go: `sync`, `processNextWorkItem`, `runWorker` and the event
-- handlers. The work queue is client-go's; what is modelled are the calls of it, in order. It has one
-- key, so the calls have no argument.
pub mod Retries
pub mod Events
pub mod Machine
pub mod Checks
use cluster_openshift_contro.Common.{
  ℕ, zero, suc, String, List, [], ◌∷◌, ◌++◌, Option, none, some, Bool, true, false, ◌&&◌, ◌==◌,
  if◌then◌else◌,
}
use cluster_openshift_contro.Common.Fault.{Fault, Result, ok, err}
use cluster_openshift_contro.Operator.Types.{OperatorConfig}
use cluster_openshift_contro.Operator.Api.{Api}
use cluster_openshift_contro.Operator.Sync.{Images, sync_to_latest}

pub data QueueCall : Type 0 where
  add add_rate_limited forget done : QueueCall

abbrev pub is_error : Option Fault → Bool
is_error none = false
is_error (some e) = true

-- What a function that returns `(bool, error)` returns: beside an error the value is false.
abbrev pub both : Result Bool → Bool × Option Fault
both (ok requeue) = (requeue, none)
both (err e) = (false, some e)

-- What is passed to `processNextWorkItem`: the error, with the calls of the queue so far.
pub record Synced (W : Type 0) : Type 0 where
  pub error : Option Fault
  pub calls : List QueueCall
  pub cluster : W

-- if forceRequeue && err != nil { c.queue.AddRateLimited(workQueueKey) }
abbrev pub requeue_calls : Bool × Option Fault → List QueueCall
requeue_calls (force_requeue, e) = if force_requeue && is_error e then add_rate_limited ∷ [] else []

module _ {W : Type 0} where
  abbrev pub after_sync : Option (Result Bool × W) → Option (Synced W)
  after_sync none = none
  after_sync (some (r, w)) =
      some (record { error = (both r).1; calls = requeue_calls (both r); cluster = w })

  -- Forget or AddRateLimited, then the deferred Done.
  abbrev pub settle : Synced W → List QueueCall × W
  settle s = (
    s.calls ++ (if is_error s.error then add_rate_limited ∷ [] else forget ∷ []) ++ done ∷ [],
    s.cluster,
  )

  abbrev pub settle_if : Option (Synced W) → Option (List QueueCall × W)
  settle_if none = none
  settle_if (some s) = some (settle s)

  abbrev pub prepend : List QueueCall → Option (List QueueCall × W) → Option (List QueueCall × W)
  prepend calls none = none
  prepend calls (some (more, w)) = some (calls ++ more, w)

  abbrev pub run_after :
      Option (List QueueCall × W) → (W → Option (List QueueCall × W)) → Option (List QueueCall × W)
  run_after none f = none
  run_after (some (calls, w)) f = prepend calls (f w)

module _ {W : Type 0} (api : Api W) (images : Images) where
  abbrev pub sync_config : Result OperatorConfig → W → Option (Synced W)
  sync_config (err e) w = some (record { error = some e; calls = []; cluster = w })
  sync_config (ok config) w = after_sync (sync_to_latest api images config w)

  -- `none` is a panic.
  unfoldable pub sync : W → Option (Synced W)
  sync w = sync_config (api.get_operator_config w) w

  -- An item that the queue has given, with the calls that follow.
  unfoldable pub process_item : W → Option (List QueueCall × W)
  unfolding sync
  process_item w = settle_if (sync w)

  -- The worker over the items that the queue gives before it shuts down.
  unfoldable pub run_worker : ℕ → W → Option (List QueueCall × W)
  unfolding process_item
  run_worker zero w = some ([], w)
  run_worker (suc items) w = run_after (process_item w) (run_worker items)

-- interface{} as the handlers see it: a Namespace by its name, a DeletedFinalStateUnknown with its
-- object, or anything else
pub data EventObject : Type 0 where
  namespace_object : String → EventObject
  tombstone : EventObject → EventObject
  other_object : EventObject

-- The calls of the queue, also before a panic.
pub data Handled : Type 0 where
  handled panicked : List QueueCall → Handled

-- The three functions of `eventHandler`
abbrev pub event_handler : EventObject → List QueueCall
event_handler object = add ∷ []

abbrev pub add_if_target : String → String → List QueueCall
add_if_target target name = if name == target then add ∷ [] else []

-- AddFunc, and UpdateFunc at the old object. What is not a Namespace is queued, and then the name of
-- a nil Namespace is read.
unfoldable pub namespace_added : String → EventObject → Handled
namespace_added target (namespace_object name) = handled (add_if_target target name)
namespace_added target (tombstone object) = panicked (add ∷ [])
namespace_added target other_object = panicked (add ∷ [])

unfoldable pub namespace_updated : String → EventObject → EventObject → Handled
unfolding namespace_added
namespace_updated target old new = namespace_added target old

-- DeleteFunc
unfoldable pub namespace_deleted : String → EventObject → Handled
namespace_deleted target (namespace_object name) = handled (add_if_target target name)
namespace_deleted target (tombstone (namespace_object name)) = handled (add_if_target target name)
namespace_deleted target (tombstone (tombstone object)) = handled []
namespace_deleted target (tombstone other_object) = handled []
namespace_deleted target other_object = handled []
