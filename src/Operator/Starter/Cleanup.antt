-- ===== src/Operator/Starter/Cleanup.antt =====
-- When the replaced daemon set is removed, and when the polls end.
use cluster_openshift_contro.Common.{
  ℕ, suc, Option, none, some, Bool, true, false, ◌≡◌, ◌≢◌, ◌↔◌, ◌⊎◌, inl, inr, refl, arith,
  Bool-cases, ap, ◌∙◌,
}
use cluster_openshift_contro.Common.Fault.{Fault, Result, ok, err, is_not_found, Result-cases}
use cluster_openshift_contro.Common.Int.{ℤ, pos, int_eq, int_eq_iff}
use cluster_openshift_contro.Operator.Starter.{
  Apps, after_delete, with_deployment, with_daemon_set, poll, ensure_daemon_set_cleanup,
  removed_event, waiting_event,
}

module _ {W : Type 0} (apps : Apps W) where
  -- The daemon set is there, is not marked for deletion, and a replica of the deployment is available.
  pub record IsReplaced (w : W) : Type 0 where
    pub available : ℤ
    pub present : apps.get_daemon_set w ≡ ok false
    pub deployed : apps.get_deployment w ≡ ok available
    pub some_available : available ≢ pos 0

  after_delete-false : (r : Option Fault × W) → (after_delete apps r).0 ≡ false
  after_delete-false (none, w) = refl
  after_delete-false (some e, w) = ground arith

  with_deployment-false : (r : Result ℤ) (w : W) → (with_deployment apps r w).0 ≡ false
  with_deployment-false (err e) w = refl
  with_deployment-false (ok n) w = elim (Bool-cases (int_eq n (pos 0))) [
    | inl none_available ↦ rw none_available refl
    | inr more ↦ rw more (after_delete-false (apps.delete_daemon_set w))
  ]

  with_daemon_set-true :
      (r : Result Bool) (w : W)
      → ((with_daemon_set apps r w).0 ≡ true)
        ↔ (((e : Fault) × (r ≡ err e) × (is_not_found e ≡ true)) ⊎ (r ≡ ok true))
  with_daemon_set-true (err e) w = elim (Bool-cases (is_not_found e)) [
    | inl missing ↦ rw missing (λ _. inl (e, refl, missing), λ _. refl)
    | inr other ↦ rw other (λ h. absurd (cc), λ h. absurd (ground arith))
  ]
  with_daemon_set-true (ok true) w = (λ _. inr refl, λ _. refl)
  with_daemon_set-true (ok false) w =
      let more = with_deployment-false (apps.get_deployment w) w in
      (λ h. absurd (cc), λ h. absurd (ground arith))

  -- The polls are done exactly if the daemon set is not there or is marked for deletion.
  pub poll-true :
      (w : W)
      → ((poll apps w).0 ≡ true) ↔ (
          ((e : Fault) × (apps.get_daemon_set w ≡ err e) × (is_not_found e ≡ true))
          ⊎ (apps.get_daemon_set w ≡ ok true))
  unfolding poll
  poll-true w = with_daemon_set-true (apps.get_daemon_set w) w

  after_delete-cases :
      (r : Option Fault × W)
      → ((after_delete apps r).1 ≡ r.1)
        ⊎ ((after_delete apps r).1 ≡ apps.record_event (removed_event apps) r.1)
  after_delete-cases (none, w) = inr refl
  after_delete-cases (some e, w) = elim (Bool-cases (is_not_found e)) [
    | inl missing ↦ rw missing (inr refl)
    | inr other ↦ rw other (inl refl)
  ]

  -- A poll deletes the daemon set only if it is replaced: it is there and not marked for deletion, and
  -- the deployment has an available replica. Otherwise the cluster is left as it is, but for the event
  -- that there is no replica yet.
  pub poll-IsReplaced :
      (w : W)
      → (IsReplaced w
          × (((poll apps w).1 ≡ (apps.delete_daemon_set w).1)
              ⊎ ((poll apps w).1
                  ≡ apps.record_event (removed_event apps) (apps.delete_daemon_set w).1)))
        ⊎ (((poll apps w).1 ≡ w)
            ⊎ ((apps.get_deployment w ≡ ok (pos 0))
                × ((poll apps w).1 ≡ apps.record_event (waiting_event apps) w)))
  unfolding poll
  poll-IsReplaced w = elim (Result-cases (apps.get_daemon_set w)) [
    | inr (e, failed) ↦ inr (inl (rw failed (ground arith)))
    | inl (true, marked) ↦ inr (inl (rw marked refl))
    | inl (false, present) ↦ elim (Result-cases (apps.get_deployment w)) [
      | inr (e, failed) ↦ inr (inl (rw (present, failed)))
      | inl (n, deployed) ↦ elim (Bool-cases (int_eq n (pos 0))) [
        | inl none_available ↦ inr (
            inr (
              deployed ∙ ap ok ((int_eq_iff n (pos 0)).0 none_available),
              rw (present, deployed, none_available),
            ))
        | inr more ↦ inl (
          record {
            available = n;
            present = present;
            deployed = deployed;
            some_available = λ e. ground (arith, int_eq_iff n (pos 0), more, e);
          },
          rw (present, deployed, more) (after_delete-cases (apps.delete_daemon_set w)),
        )
      ]
    ]
  ]

  after_delete-none :
      (r : Option Fault × W)
      → r.0 ≡ none
      → after_delete apps r ≡ (false, apps.record_event (removed_event apps) r.1)
  after_delete-none (none, w) h = refl
  after_delete-none (some e, w) h = absurd (cc)

  poll_replaced :
      (w : W)
      → IsReplaced w
      → (apps.delete_daemon_set w).0 ≡ none
      → poll apps w ≡ (false, apps.record_event (removed_event apps) (apps.delete_daemon_set w).1)
  unfolding poll
  poll_replaced w r deleted = elim (Bool-cases (int_eq r.available (pos 0))) [
    | inl none_available ↦
        absurd (r.some_available ((int_eq_iff r.available (pos 0)).0 none_available))
    | inr more ↦
        rw (r.present, r.deployed, more) (after_delete-none (apps.delete_daemon_set w) deleted)
  ]

  poll_missing :
      (w : W) (e : Fault)
      → apps.get_daemon_set w ≡ err e
      → is_not_found e ≡ true
      → poll apps w ≡ (true, w)
  unfolding poll
  poll_missing w e gone missing = rw (gone, missing)

  -- If the daemon set is replaced, its delete succeeds, and it is not found after that, then two polls
  -- are enough, and more change nothing.
  pub ensure_daemon_set_cleanup-true :
      (w : W) (polls : ℕ) (e : Fault)
      → IsReplaced w
      → (apps.delete_daemon_set w).0 ≡ none
      → apps.get_daemon_set (apps.record_event (removed_event apps) (apps.delete_daemon_set w).1)
        ≡ err e
      → is_not_found e ≡ true
      → ensure_daemon_set_cleanup apps (suc (suc polls)) w
        ≡ (true, apps.record_event (removed_event apps) (apps.delete_daemon_set w).1)
  unfolding ensure_daemon_set_cleanup
  ensure_daemon_set_cleanup-true w polls e replaced deleted gone missing =
      rw (poll_replaced w replaced deleted, poll_missing _ e gone missing)
