-- ===== src/Operator/Queue/Machine/Events.antt =====
-- No event and no failed sync is lost.
use cluster_openshift_contro.Common.{
  List, [], ◌∷◌, ◌++◌, Bool, true, false, ◌||◌, ◌≡◌, ◌⊎◌, inl, inr, refl, ap, ◌∙◌,
}
use mathlib.Core.Path.{subst}
use mathlib.Core.Option.{some_inj}
use cluster_openshift_contro.Operator.Api.{Api}
use cluster_openshift_contro.Operator.Sync.{Images}
use cluster_openshift_contro.Operator.Queue.{
  QueueCall, add, add_rate_limited, forget, done, Synced, is_error, process_item, settle,
  namespace_object, tombstone, other_object, handled,
}
use cluster_openshift_contro.Operator.Queue.Machine.{
  Handler, every_event, namespace_events, ResourceEvent, added, updated, deleted, handle,
  is_relevant, WorkQueue, IsQueue, apply, State, Step, notified, elapsed, given, settled, Reach,
  here, next,
}

handled_inj : {calls more : List QueueCall} → handled calls ≡ handled more → calls ≡ more
handled_inj h = cc

-- A handler that is called with a relevant event, and does not panic, adds the key.
handle-add :
    (h : Handler) (e : ResourceEvent) {calls : List QueueCall}
    → handle h e ≡ handled calls
    → is_relevant h e ≡ true
    → add ∷ [] ≡ calls
unfolding handle
handle-add every_event (added object) called r = handled_inj called
handle-add every_event (updated old new) called r = handled_inj called
handle-add every_event (deleted object) called r = handled_inj called
handle-add (namespace_events t) (added (namespace_object name)) called r =
    handled_inj (rw r at called)
handle-add (namespace_events t) (added (tombstone object)) called r = absurd (cc)
handle-add (namespace_events t) (added other_object) called r = absurd (cc)
handle-add (namespace_events t) (updated (namespace_object name) new) called r =
    handled_inj (rw r at called)
handle-add (namespace_events t) (updated (tombstone object) new) called r = absurd (cc)
handle-add (namespace_events t) (updated other_object new) called r = absurd (cc)
handle-add (namespace_events t) (deleted (namespace_object name)) called r =
    handled_inj (rw r at called)
handle-add (namespace_events t) (deleted (tombstone (namespace_object name))) called r =
    handled_inj (rw r at called)
handle-add (namespace_events t) (deleted (tombstone (tombstone object))) called r = absurd (cc)
handle-add (namespace_events t) (deleted (tombstone other_object)) called r = absurd (cc)
handle-add (namespace_events t) (deleted other_object) called r = absurd (cc)

module _ {Q : Type 0} (queue : WorkQueue Q) (lawful : IsQueue queue) where
  -- Once pending, the key stays pending over calls of the queue.
  apply-pending :
      (calls : List QueueCall) (q : Q)
      → queue.is_pending q ≡ true
      → queue.is_pending (apply queue calls q) ≡ true
  unfolding apply
  apply-pending [] q h = h
  apply-pending (add ∷ calls) q h = apply-pending calls (queue.add_key q) (lawful.pending_add q)
  apply-pending (add_rate_limited ∷ calls) q h =
      apply-pending calls (queue.add_key_rate_limited q) (lawful.pending_rate_limited q)
  apply-pending (forget ∷ calls) q h =
      apply-pending calls (queue.forget_key q) (lawful.pending_forget q ∙ h)
  apply-pending (done ∷ calls) q h =
      apply-pending calls (queue.done_key q) (lawful.pending_done q ∙ h)

  pub apply-append :
      (calls more : List QueueCall) (q : Q)
      → apply queue (calls ++ more) q ≡ apply queue more (apply queue calls q)
  unfolding apply
  apply-append [] more q = refl
  apply-append (add ∷ calls) more q = apply-append calls more (queue.add_key q)
  apply-append (add_rate_limited ∷ calls) more q =
      apply-append calls more (queue.add_key_rate_limited q)
  apply-append (forget ∷ calls) more q = apply-append calls more (queue.forget_key q)
  apply-append (done ∷ calls) more q = apply-append calls more (queue.done_key q)

  add-pending : (q : Q) → queue.is_pending (apply queue (add ∷ []) q) ≡ true
  unfolding apply
  add-pending q = lawful.pending_add q

  retry-pending :
      (q : Q)
      → queue.is_pending (apply queue (done ∷ []) (apply queue (add_rate_limited ∷ []) q)) ≡ true
  unfolding apply
  retry-pending q =
      lawful.pending_done (queue.add_key_rate_limited q) ∙ lawful.pending_rate_limited q

  -- A sync that has returned an error is retried.
  settle-pending :
      {W : Type 0} (y : Synced W) (q : Q)
      → is_error y.error ≡ true
      → queue.is_pending (apply queue (settle y).0 q) ≡ true
  settle-pending y q failed =
      let retried : List QueueCall = y.calls ++ add_rate_limited ∷ [] in
      rw failed (
        ap queue.is_pending (
          apply-append retried (done ∷ []) q
          ∙ ap (apply queue (done ∷ [])) (apply-append y.calls (add_rate_limited ∷ []) q))
        ∙ retry-pending (apply queue y.calls q))

module _ {Q W : Type 0} (queue : WorkQueue Q) (lawful : IsQueue queue) (api : Api W)
    (images : Images) where
  abbrev IsKept : State Q W → Type 0
  IsKept s = (s.unseen ≡ false) ⊎ (queue.is_pending s.queued ≡ true)

  kept_pending :
      (s : State Q W) (calls : List QueueCall) (more : Bool)
      → IsKept s
      → (more ≡ true → queue.is_pending (apply queue calls s.queued) ≡ true)
      → ((s.unseen || more) ≡ false) ⊎ (queue.is_pending (apply queue calls s.queued) ≡ true)
  kept_pending s calls true kept h = inr (h refl)
  kept_pending s calls false (inl seen) h = inl (rw seen refl)
  kept_pending s calls false (inr pending) h =
      inr (apply-pending queue lawful calls s.queued pending)

  Step-IsKept : {s t : State Q W} → Step queue api images s t → IsKept s → IsKept t
  unfolding process_item
  Step-IsKept {s} (notified r e calls w listed called) kept =
      kept_pending s calls (is_relevant r.handler e) kept (λ relevant.
        subst (λ c. queue.is_pending (apply queue c s.queued) ≡ true)
          (handle-add r.handler e called relevant) (add-pending queue lawful s.queued))
  Step-IsKept elapsed (inl seen) = inl seen
  Step-IsKept {s} elapsed (inr pending) = inr (lawful.pending_elapse s.queued ∙ pending)
  Step-IsKept (given q idle got) kept = inl refl
  Step-IsKept {s} (settled y calls w busy synced run) kept =
      kept_pending s calls (is_error y.error) kept (λ failed.
        subst (λ c. queue.is_pending (apply queue c s.queued) ≡ true)
          (ap (λ r. r.0) (some_inj.0 (rw synced at run)))
          (settle-pending queue lawful y s.queued failed))

  -- In every state that the operator reaches from one in which it holds, this holds: if since the
  -- worker was last given the key there was an event of a watched resource, or the sync has returned
  -- an error, then the key is pending, so that the worker will be given it again.
  pub Reach-pending :
      {start s : State Q W}
      → (start.unseen ≡ false) ⊎ (queue.is_pending start.queued ≡ true)
      → Reach queue api images start s
      → (s.unseen ≡ false) ⊎ (queue.is_pending s.queued ≡ true)
  Reach-pending kept here = kept
  Reach-pending kept (next r step) = Step-IsKept step (Reach-pending kept r)
