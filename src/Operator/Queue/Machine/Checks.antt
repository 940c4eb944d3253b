-- ===== src/Operator/Queue/Machine/Checks.antt =====
-- The machine with a work queue as client-go describes it: a key that is added while it is processed
-- is given again after it is done.
use mathlib.Core.List.{Memᴰ}
use cluster_openshift_contro.Common.{
  ℕ, [], ◌∷◌, none, some, Bool, true, false, ◌||◌, ◌≡◌, ◌⊎◌, inl, inr, refl, arith, if◌then◌else◌,
  lookup,
}
use cluster_openshift_contro.Operator.Sync.{Images}
use cluster_openshift_contro.Operator.Sample.{World, world, api, absent}
use cluster_openshift_contro.Operator.Queue.{
  add, add_rate_limited, done, Synced, process_item, other_object,
}
use cluster_openshift_contro.Operator.Queue.Machine.{
  WorkQueue, IsQueue, State, Registration, registrations, every_event, updated, handle, apply, Step,
  notified, given, settled, here, next,
}
use cluster_openshift_contro.Operator.Queue.Machine.Events.{Reach-pending}
use cluster_openshift_contro.Operator.Queue.Machine.Progress.{
  elapse_times, IsFair, IsTaken, Reach-IsTaken,
}

record Keyed : Type 0 where
  dirty : Bool
  processing : Bool
  delayed : Bool

abbrev keyed : WorkQueue Keyed
keyed = record {
  add_key = λ q. record q { dirty = true };
  add_key_rate_limited = λ q. record q { delayed = true };
  forget_key = λ q. q;
  done_key = λ q. record q { processing = false };
  get_key = λ q.
      if q.dirty
      then (if q.processing then none else some (record q { dirty = false; processing = true }))
      else none;
  elapse = λ q. record q { dirty = q.dirty || q.delayed; delayed = false };
  is_pending = λ q. q.dirty || q.delayed;
}

keyed-IsQueue : IsQueue keyed
keyed-IsQueue = record {
  pending_add = λ q. refl;
  pending_rate_limited = λ q. ground arith;
  pending_forget = λ q. refl;
  pending_done = λ q. refl;
  pending_elapse = λ q. ground arith;
}

abbrev images : Images
images = record { target = "ocm-image"; route_target = "" }

abbrev unreadable : World
unreadable = world (("operator config", absent) ∷ [])

abbrev start : State Keyed World
start = record {
  queued = record { dirty = false; processing = false; delayed = false };
  cluster = world [];
  busy = false;
  unseen = false;
}

abbrev notified_state : State Keyed World
notified_state = record {
  queued = record { dirty = true; processing = false; delayed = false };
  cluster = unreadable;
  busy = false;
  unseen = true;
}

abbrev given_state : State Keyed World
given_state = record {
  queued = record { dirty = false; processing = true; delayed = false };
  cluster = unreadable;
  busy = true;
  unseen = false;
}

abbrev failed_state : State Keyed World
failed_state = record {
  queued = record { dirty = false; processing = false; delayed = true };
  cluster = unreadable;
  busy = false;
  unseen = true;
}

abbrev failed_sync : Synced World
failed_sync = record { error = some absent; calls = []; cluster = unreadable }

abbrev proxies : Registration
proxies = record { namespace = ""; resource = "proxies"; handler = every_event }

proxy_changes : Step keyed api images start notified_state
unfolding registrations handle apply
proxy_changes =
    notified proxies (updated other_object other_object) (add ∷ []) unreadable
      (Memᴰ.tail (Memᴰ.head refl)) refl

worker_takes : Step keyed api images notified_state given_state
worker_takes = given given_state.queued refl refl

sync_fails : Step keyed api images given_state failed_state
unfolding process_item lookup apply
sync_fails = settled failed_sync (add_rate_limited ∷ done ∷ []) unreadable refl refl refl

Reach-pending_example :
    (failed_state.unseen ≡ false) ⊎ (keyed.is_pending failed_state.queued ≡ true)
Reach-pending_example =
    Reach-pending keyed keyed-IsQueue api images (inl refl)
      (next (next (next here proxy_changes) worker_takes) sync_fails)

-- at most one delay has to end
keyed-given_pending :
    (q : Keyed)
    → (q.dirty || q.delayed) ≡ true
    → q.processing ≡ false
    → (n : ℕ) × (q' : Keyed) × (keyed.get_key (elapse_times keyed n q) ≡ some q')
keyed-given_pending q pending idle =
    (1, record { dirty = false; processing = true; delayed = false }, rw (pending, idle) refl)

keyed-IsFair : IsFair keyed
keyed-IsFair = record {
  is_processed = λ q. q.processing;
  idle_add = λ q. refl;
  idle_rate_limited = λ q. refl;
  idle_forget = λ q. refl;
  idle_elapse = λ q. refl;
  idle_done = λ q. refl;
  given_pending = keyed-given_pending;
}

Reach-IsTaken_example : IsTaken keyed keyed-IsQueue keyed-IsFair api images failed_state
unfolding keyed-IsFair
Reach-IsTaken_example =
    Reach-IsTaken keyed keyed-IsQueue keyed-IsFair api images (inl refl) (inr refl)
      (next (next (next here proxy_changes) worker_takes) sync_fails) refl (λ h. absurd (cc))
