-- ===== src/Operator/Queue/Retries.antt =====
-- When a sync is retried.
use cluster_openshift_contro.Common.{
  ℕ, zero, suc, List, [], ◌∷◌, ◌++◌, Option, none, some, Bool, true, false, ◌≡◌, ◌⊎◌, inl, inr,
  refl, arith, sym, ap, ◌∙◌,
}
use mathlib.Core.Option.{some_inj}
use cluster_openshift_contro.Common.Fault.{Fault, ok, err, Result-cases}
use cluster_openshift_contro.Common.Effect.{run_cases}
use cluster_openshift_contro.Operator.Types.{OperatorConfig}
use cluster_openshift_contro.Operator.Api.{Api}
use cluster_openshift_contro.Operator.Sync.{Images, sync_to_latest}
use cluster_openshift_contro.Operator.Queue.{
  QueueCall, add_rate_limited, forget, done, process_item, run_worker, run_after, prepend,
}

module _ {W : Type 0} (api : Api W) (images : Images) where
  -- The worker's item: a sync that cannot read the configuration or write the status is retried; one
  -- that has reported its status is forgotten, whether or not a part of it has failed and it asks for
  -- another sync; a panic of the sync is one of the worker.
  pub process_item_lem :
      (w : W)
      → ((e : Fault) × (api.get_operator_config w ≡ err e)
          × (process_item api images w ≡ some (add_rate_limited ∷ done ∷ [], w)))
        ⊎ ((config : OperatorConfig) × (api.get_operator_config w ≡ ok config)
            × (((sync_to_latest api images config w ≡ none) × (process_item api images w ≡ none))
                ⊎ (((e : Fault) × (w' : W) × (sync_to_latest api images config w ≡ some (err e, w'))
                      × (process_item api images w ≡ some (add_rate_limited ∷ done ∷ [], w')))
                    ⊎ ((requeue : Bool) × (w' : W) × (sync_to_latest api images config w
                          ≡ some (ok requeue, w'))
                        × (process_item api images w ≡ some (forget ∷ done ∷ [], w'))))))
  unfolding process_item
  process_item_lem w = elim (Result-cases (api.get_operator_config w)) [
    | inr (e, unread) ↦ inl (e, unread, rw unread)
    | inl (config, read) ↦ inr (
      config,
      read,
      elim (run_cases (sync_to_latest api images config w)) [
        | inl panic ↦ inl (panic, rw (read, panic))
        | inr (inl (e, w', failed)) ↦ inr (inl (e, w', failed, rw (read, failed)))
        | inr (inr (true, w', reported)) ↦ inr (inr (true, w', reported, rw (read, reported)))
        | inr (inr (false, w', reported)) ↦ inr (inr (false, w', reported, rw (read, reported)))
      ],
    )
  ]

  -- Each item is forgotten or retried, and is done.
  pub data Settled : ℕ → List QueueCall → Type 0 where
    no_item : Settled 0 []
    forgotten :
        {n : ℕ} {calls : List QueueCall} → Settled n calls → Settled (suc n) (forget ∷ done ∷ calls)
    retried :
        {n : ℕ} {calls : List QueueCall}
        → Settled n calls
        → Settled (suc n) (add_rate_limited ∷ done ∷ calls)

  prepend_inv :
      (calls : List QueueCall) (o : Option (List QueueCall × W)) {r : List QueueCall × W}
      → prepend calls o ≡ some r
      → (more : List QueueCall) × (o ≡ some (more, r.1)) × (r.0 ≡ calls ++ more)
  prepend_inv calls none h = absurd (cc)
  prepend_inv calls (some (more, w)) h =
      let e = some_inj.0 h in (more, ap (λ r. some (more, r.1)) e, ap (λ r. r.0) (sym e))

  run_after_inv :
      (o : Option (List QueueCall × W)) (f : W → Option (List QueueCall × W))
      {r : List QueueCall × W}
      → run_after o f ≡ some r
      → (calls more : List QueueCall) × (v : W) × (o ≡ some (calls, v))
        × (f v ≡ some (more, r.1))
        × (r.0 ≡ calls ++ more)
  run_after_inv none f h = absurd (cc)
  run_after_inv (some (calls, v)) f h =
      let (more, rest, joined) = prepend_inv calls (f v) h in (calls, more, v, refl, rest, joined)

  item_calls :
      (w : W) {r : List QueueCall × W}
      → process_item api images w ≡ some r
      → (r.0 ≡ add_rate_limited ∷ done ∷ []) ⊎ (r.0 ≡ forget ∷ done ∷ [])
  item_calls w {r} h = elim (process_item_lem w) [
    | inl (e, unread, run) ↦ inl (ap (λ r. r.0) (some_inj.0 (sym h ∙ run)))
    | inr (config, read, inl (panic, run)) ↦ absurd (ground (arith, h, run))
    | inr (config, read, inr (inl (e, w', failed, run))) ↦
        inl (ap (λ r. r.0) (some_inj.0 (sym h ∙ run)))
    | inr (config, read, inr (inr (requeue, w', reported, run))) ↦
        inr (ap (λ r. r.0) (some_inj.0 (sym h ∙ run)))
  ]

  -- The worker forgets or retries each item that it has taken, never both, and marks it as done
  -- before it takes the next.
  pub run_worker-Settled :
      (items : ℕ) (w : W) {calls : List QueueCall} {w' : W}
      → run_worker api images items w ≡ some (calls, w')
      → Settled items calls
  unfolding run_worker
  run_worker-Settled zero w {calls} {w'} h = rw (← ap (λ r. r.0) (some_inj.0 h)) no_item
  run_worker-Settled (suc items) w {calls} {w'} h =
      let (first, more, v, item, rest, joined) =
        run_after_inv (process_item api images w) (run_worker api images items) h in
      let ih = run_worker-Settled items v rest in
      elim (item_calls w item) [
        | inl again ↦ rw (joined, again) (retried ih)
        | inr over ↦ rw (joined, over) (forgotten ih)
      ]
