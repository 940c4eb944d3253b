-- ===== src/Operator/Queue/Machine/Progress.antt =====
-- An event or a failed sync is followed by another sync.
use mathlib.Core.Path.{subst}
use mathlib.Core.Option.{some_inj}
use cluster_openshift_contro.Common.{
  ℕ, zero, suc, List, [], ◌∷◌, ◌++◌, some, Bool, true, false, ◌||◌, ◌≡◌, ◌⊎◌, inl, inr, refl, ap,
  ◌∙◌, Bool-cases, if◌then◌else◌,
}
use cluster_openshift_contro.Operator.Api.{Api}
use cluster_openshift_contro.Operator.Sync.{Images}
use cluster_openshift_contro.Operator.Queue.{
  QueueCall, add, add_rate_limited, forget, done, Synced, is_error, sync, process_item, settle,
}
use cluster_openshift_contro.Operator.Queue.Machine.{
  WorkQueue, IsQueue, apply, State, Step, notified, elapsed, given, settled, Reach, here, next,
}
use cluster_openshift_contro.Operator.Queue.Machine.Events.{apply-append, Reach-pending}

abbrev pub elapse_times : {Q : Type 0} → WorkQueue Q → ℕ → Q → Q
elapse_times queue zero q = q
elapse_times queue (suc n) q = elapse_times queue n (queue.elapse q)

-- The key is processed from when it is given until it is done, and a pending key that is not
-- processed is given once its delays have ended.
pub record IsFair {Q : Type 0} (queue : WorkQueue Q) : Type 0 where
  pub is_processed : Q → Bool
  pub idle_add : (q : Q) → is_processed (queue.add_key q) ≡ is_processed q
  pub idle_rate_limited : (q : Q) → is_processed (queue.add_key_rate_limited q) ≡ is_processed q
  pub idle_forget : (q : Q) → is_processed (queue.forget_key q) ≡ is_processed q
  pub idle_elapse : (q : Q) → is_processed (queue.elapse q) ≡ is_processed q
  pub idle_done : (q : Q) → is_processed (queue.done_key q) ≡ false
  pub given_pending :
      (q : Q)
      → queue.is_pending q ≡ true
      → is_processed q ≡ false
      → (n : ℕ) × (q' : Q) × (queue.get_key (elapse_times queue n q) ≡ some q')

module _ {Q : Type 0} (queue : WorkQueue Q) (fair : IsFair queue) where
  apply-idle :
      (calls : List QueueCall) (q : Q)
      → fair.is_processed q ≡ false
      → fair.is_processed (apply queue calls q) ≡ false
  unfolding apply
  apply-idle [] q h = h
  apply-idle (add ∷ calls) q h = apply-idle calls (queue.add_key q) (fair.idle_add q ∙ h)
  apply-idle (add_rate_limited ∷ calls) q h =
      apply-idle calls (queue.add_key_rate_limited q) (fair.idle_rate_limited q ∙ h)
  apply-idle (forget ∷ calls) q h = apply-idle calls (queue.forget_key q) (fair.idle_forget q ∙ h)
  apply-idle (done ∷ calls) q h = apply-idle calls (queue.done_key q) (fair.idle_done q)

  apply-done : (q : Q) → fair.is_processed (apply queue (done ∷ []) q) ≡ false
  unfolding apply
  apply-done q = fair.idle_done q

module _ {Q W : Type 0} (queue : WorkQueue Q) (lawful : IsQueue queue) (fair : IsFair queue)
    (api : Api W) (images : Images) where
  -- Between two syncs the key is not processed.
  abbrev pub IsIdle : State Q W → Type 0
  IsIdle s = (s.busy ≡ true) ⊎ (fair.is_processed s.queued ≡ false)

  settle-idle : (y : Synced W) (q : Q) → fair.is_processed (apply queue (settle y).0 q) ≡ false
  settle-idle y q =
      let calls : List QueueCall =
        y.calls ++ (if is_error y.error then add_rate_limited ∷ [] else forget ∷ []) in
      ap fair.is_processed (apply-append queue lawful calls (done ∷ []) q)
      ∙ apply-done queue fair (apply queue calls q)

  Step-IsIdle : {s t : State Q W} → Step queue api images s t → IsIdle s → IsIdle t
  unfolding process_item
  Step-IsIdle (notified r e calls w listed called) (inl busy) = inl busy
  Step-IsIdle {s} (notified r e calls w listed called) (inr idle) =
      inr (apply-idle queue fair calls s.queued idle)
  Step-IsIdle elapsed (inl busy) = inl busy
  Step-IsIdle {s} elapsed (inr idle) = inr (fair.idle_elapse s.queued ∙ idle)
  Step-IsIdle (given q free got) h = inl refl
  Step-IsIdle {s} (settled y calls w busy synced run) h = inr (
      subst (λ c. fair.is_processed (apply queue c s.queued) ≡ false)
        (ap (λ r. r.0) (some_inj.0 (rw synced at run))) (settle-idle y s.queued))

  Reach-IsIdle : {start s : State Q W} → IsIdle start → Reach queue api images start s → IsIdle s
  Reach-IsIdle h here = h
  Reach-IsIdle h (next r step) = Step-IsIdle step (Reach-IsIdle h r)

  wait :
      (n : ℕ) {start s : State Q W}
      → Reach queue api images start s
      → Reach queue api images start (record s { queued = elapse_times queue n s.queued })
  wait zero r = r
  wait (suc n) r = wait n (next r elapsed)

  -- The worker has been given the key, after all events and failures.
  pub record IsTaken (s : State Q W) : Type 0 where
    pub taken : State Q W
    pub reached : Reach queue api images s taken
    pub is_busy : taken.busy ≡ true
    pub is_seen : taken.unseen ≡ false

  take :
      {s t : State Q W}
      → Reach queue api images s t
      → t.busy ≡ false
      → IsIdle t
      → queue.is_pending t.queued ≡ true
      → IsTaken s
  take r free (inl busy) pending = absurd (cc)
  take {t} r free (inr idle) pending =
      let (n, q, got) = fair.given_pending t.queued pending idle in
      record {
        taken = record { queued = q; cluster = t.cluster; busy = true; unseen = false };
        reached = next (wait n r) (given q free got);
        is_busy = refl;
        is_seen = refl;
      }

  -- Nothing that happens keeps the operator from another sync: in every state that it reaches, if
  -- since the worker was last given the key there was an event of a watched resource, or the sync has
  -- returned an error, then steps lead to a state in which the worker has been given the key after
  -- all of them, if a sync that is running does not panic.
  pub Reach-IsTaken :
      {start s : State Q W}
      → (start.unseen ≡ false) ⊎ (queue.is_pending start.queued ≡ true)
      → IsIdle start
      → Reach queue api images start s
      → s.unseen ≡ true
      → (s.busy ≡ true → (y : Synced W) × (sync api images s.cluster ≡ some y))
      → IsTaken s
  unfolding process_item
  Reach-IsTaken {s} kept idle r unseen runs = elim (Bool-cases s.busy) [
    | inr free ↦ elim (Reach-pending queue lawful api images kept r) [
      | inl seen ↦ absurd (cc)
      | inr pending ↦ take here free (Reach-IsIdle idle r) pending
    ]
    | inl busy ↦
        let (y, synced) = runs busy in
        let (calls, w) = settle y in
        let step : Step queue api images s (record {
          queued = apply queue calls s.queued;
          cluster = w;
          busy = false;
          unseen = s.unseen || is_error y.error;
        }) =
          settled y calls w busy synced (rw synced refl) in
        elim (Reach-pending queue lawful api images kept (next r step)) [
          | inl seen ↦ let never = rw unseen at seen in absurd (cc)
          | inr pending ↦ take (next here step) refl (Reach-IsIdle idle (next r step)) pending
        ]
  ]
