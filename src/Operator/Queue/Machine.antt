-- ===== src/Operator/Queue/Machine.antt =====
-- The operator of pkg/operator/operator.go as a machine: the handlers that
-- NewOpenShiftControllerManagerOperator registers, the work queue of client-go, and the worker, whose
-- steps and the events interleave.
pub mod Events
pub mod Progress
pub mod Checks
use mathlib.Core.List.{Memᴰ}
use cluster_openshift_contro.Common.{
  String, List, [], ◌∷◌, ◌++◌, Option, none, some, Bool, true, false, ◌||◌, ◌==◌, ◌≡◌, ◌⊎◌,
}
use cluster_openshift_contro.Names.{target_namespace, route_controller_target_namespace}
use cluster_openshift_contro.Operator.Api.{Api}
use cluster_openshift_contro.Operator.Sync.{Images}
use cluster_openshift_contro.Operator.Queue.{
  QueueCall, add, add_rate_limited, forget, done, Synced, is_error, sync, process_item, EventObject,
  namespace_object, tombstone, other_object, Handled, handled, event_handler, namespace_added,
  namespace_updated, namespace_deleted,
}

-- c.eventHandler() and c.namespaceEventHandler(_)
pub data Handler : Type 0 where
  every_event : Handler
  namespace_events : String → Handler

-- A handler on the informer of a resource, the empty namespace for one of the cluster.
pub record Registration : Type 0 where
  pub namespace : String
  pub resource : String
  pub handler : Handler

abbrev registration : String → String → Handler → Registration
registration namespace resource handler = record {
  namespace = namespace;
  resource = resource;
  handler = handler;
}

abbrev in_namespace : String → List Registration
in_namespace namespace =
    registration namespace "configmaps" every_event
    ∷ registration namespace "serviceaccounts" every_event
    ∷ registration namespace "services" every_event
    ∷ registration namespace "deployments" every_event
    ∷ registration namespace "namespaces" (namespace_events namespace)
    ∷ []

unfoldable pub registrations : List Registration
registrations =
    registration "" "openshiftcontrollermanagers" every_event
      ∷ registration "" "proxies" every_event
      ∷ in_namespace target_namespace
    ++ in_namespace route_controller_target_namespace

-- cache.ResourceEventHandler
pub data ResourceEvent : Type 0 where
  added deleted : EventObject → ResourceEvent
  updated : EventObject → EventObject → ResourceEvent

unfoldable pub handle : Handler → ResourceEvent → Handled
unfolding namespace_added namespace_updated namespace_deleted
handle every_event (added object) = handled (event_handler object)
handle every_event (updated old new) = handled (event_handler new)
handle every_event (deleted object) = handled (event_handler object)
handle (namespace_events target) (added object) = namespace_added target object
handle (namespace_events target) (updated old new) = namespace_updated target old new
handle (namespace_events target) (deleted object) = namespace_deleted target object

-- The events that the operator must not lose: all, and of the namespaces those of the watched one.
abbrev concerns : String → EventObject → Bool
concerns target (namespace_object name) = name == target
concerns target (tombstone (namespace_object name)) = name == target
concerns target (tombstone (tombstone object)) = false
concerns target (tombstone other_object) = false
concerns target other_object = false

abbrev pub is_relevant : Handler → ResourceEvent → Bool
is_relevant every_event event = true
is_relevant (namespace_events target) (added object) = concerns target object
is_relevant (namespace_events target) (updated old new) = concerns target old
is_relevant (namespace_events target) (deleted object) = concerns target object

-- client-go's rate limited work queue with its one key: `get_key` gives the key if it can be given,
-- `elapse` lets a delay end, and the key is pending if it will be given once it is done.
pub record WorkQueue (Q : Type 0) : Type 0 where
  pub add_key : Q → Q
  pub add_key_rate_limited : Q → Q
  pub forget_key : Q → Q
  pub done_key : Q → Q
  pub get_key : Q → Option Q
  pub elapse : Q → Q
  pub is_pending : Q → Bool

module _ {Q : Type 0} (queue : WorkQueue Q) where
  open queue use {add_key, add_key_rate_limited, forget_key, done_key, elapse, is_pending}

  -- A key that is added is pending, at once or after a delay, and only giving it ends that.
  pub record IsQueue : Type 0 where
    pub pending_add : (q : Q) → is_pending (add_key q) ≡ true
    pub pending_rate_limited : (q : Q) → is_pending (add_key_rate_limited q) ≡ true
    pub pending_forget : (q : Q) → is_pending (forget_key q) ≡ is_pending q
    pub pending_done : (q : Q) → is_pending (done_key q) ≡ is_pending q
    pub pending_elapse : (q : Q) → is_pending (elapse q) ≡ is_pending q

  unfoldable pub apply : List QueueCall → Q → Q
  apply [] q = q
  apply (add ∷ calls) q = apply calls (add_key q)
  apply (add_rate_limited ∷ calls) q = apply calls (add_key_rate_limited q)
  apply (forget ∷ calls) q = apply calls (forget_key q)
  apply (done ∷ calls) q = apply calls (done_key q)

-- `unseen`: since the worker was last given the key, there was an event that must not be lost, or the
-- sync has returned an error.
pub record State (Q W : Type 0) : Type 0 where
  pub queued : Q
  pub cluster : W
  pub busy : Bool
  pub unseen : Bool

module _ {Q W : Type 0} (queue : WorkQueue Q) (api : Api W) (images : Images) where
  pub data Step : State Q W → State Q W → Type 0 where
    -- the cluster changes, and a registered handler is called with it
    notified :
        {s : State Q W} (r : Registration) (e : ResourceEvent) (calls : List QueueCall) (w : W)
        → Memᴰ r registrations
        → handle r.handler e ≡ handled calls
        → Step s (record {
          queued = apply queue calls s.queued;
          cluster = w;
          busy = s.busy;
          unseen = s.unseen || is_relevant r.handler e;
        })
    elapsed : {s : State Q W} → Step s (record s { queued = queue.elapse s.queued })
    -- the worker is given the key
    given :
        {s : State Q W} (q : Q)
        → s.busy ≡ false
        → queue.get_key s.queued ≡ some q
        → Step s (record { queued = q; cluster = s.cluster; busy = true; unseen = false })
    -- it syncs and settles the key
    settled :
        {s : State Q W} (y : Synced W) (calls : List QueueCall) (w : W)
        → s.busy ≡ true
        → sync api images s.cluster ≡ some y
        → process_item api images s.cluster ≡ some (calls, w)
        → Step s (record {
          queued = apply queue calls s.queued;
          cluster = w;
          busy = false;
          unseen = s.unseen || is_error y.error;
        })

  pub data Reach (start : State Q W) : State Q W → Type 0 where
    here : Reach start start
    next : {s t : State Q W} → Reach start s → Step s t → Reach start t
