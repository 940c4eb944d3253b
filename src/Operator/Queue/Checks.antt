-- ===== src/Operator/Queue/Checks.antt =====
-- Runs of the worker and the event handlers, and their theorems at concrete inputs.
use cluster_openshift_contro.Common.{
  String, ◌≢◌, List, [], ◌∷◌, none, some, Bool, false, ◌≡◌, ◌↔◌, ◌⊎◌, refl, lookup,
}
use cluster_openshift_contro.Common.Fault.{Fault, ok, err}
use cluster_openshift_contro.Operator.Types.{OperatorConfig}
use cluster_openshift_contro.Operator.Sync.{Images, sync_to_latest}
use cluster_openshift_contro.Operator.Sample.{World, world, api, absent}
use cluster_openshift_contro.Operator.Queue.{
  QueueCall, add, add_rate_limited, forget, done, process_item, run_worker, namespace_object,
  other_object, handled, panicked, namespace_added, namespace_updated,
}
use cluster_openshift_contro.Operator.Queue.Retries.{process_item_lem, Settled, run_worker-Settled}
use cluster_openshift_contro.Operator.Queue.Events.{is_namespace, namespace_updated-add}

abbrev images : Images
images = record { target = "ocm-image"; route_target = "" }

process_item_lem_example :
    ((e : Fault) × (api.get_operator_config (world []) ≡ err e)
      × (process_item api images (world []) ≡ some (add_rate_limited ∷ done ∷ [], world [])))
    ⊎ ((config : OperatorConfig) × (api.get_operator_config (world []) ≡ ok config)
        × (((sync_to_latest api images config (world []) ≡ none)
              × (process_item api images (world []) ≡ none))
            ⊎ (((e : Fault) × (w' : World) × (sync_to_latest api images config (world [])
                    ≡ some (err e, w'))
                  × (process_item api images (world []) ≡ some (add_rate_limited ∷ done ∷ [], w')))
                ⊎ ((requeue : Bool) × (w' : World) × (sync_to_latest api images config (world [])
                      ≡ some (ok requeue, w'))
                    × (process_item api images (world []) ≡ some (forget ∷ done ∷ [], w'))))))
process_item_lem_example = process_item_lem api images (world [])

abbrev unreadable : World
unreadable = world (("operator config", absent) ∷ [])

abbrev two_retries : List QueueCall
two_retries = add_rate_limited ∷ done ∷ add_rate_limited ∷ done ∷ []

two_items : run_worker api images 2 unreadable ≡ some (two_retries, unreadable)
unfolding run_worker lookup
two_items = refl

run_worker-Settled_example : Settled api images 2 two_retries
run_worker-Settled_example = run_worker-Settled api images 2 unreadable two_items

namespace_updated-add_example :
    ((namespace_updated "a" other_object other_object ≡ handled (add ∷ []))
      ↔ (other_object ≡ namespace_object "a"))
    × ((namespace_updated "a" other_object other_object ≡ panicked (add ∷ []))
        ↔ (is_namespace other_object ≡ false))
    × ((namespace_updated "a" other_object other_object ≡ handled [])
        ↔ ((name : String) × (other_object ≡ namespace_object name) × (name ≢ "a")))
    × (namespace_updated "a" other_object other_object ≡ namespace_added "a" other_object)
namespace_updated-add_example = namespace_updated-add "a" other_object other_object
