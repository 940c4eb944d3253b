-- ===== src/Operator/Starter/Checks.antt =====
-- The theorems on the removal of the daemon set at concrete inputs.
use cluster_openshift_contro.Common.{
  String, List, [], ◌∷◌, none, Bool, true, false, ◌≡◌, ◌⊎◌, refl, if◌then◌else◌,
}
use cluster_openshift_contro.Common.Fault.{Fault, Reason, ok, err}
use cluster_openshift_contro.Common.Int.{pos}
use cluster_openshift_contro.Operator.Starter.{
  Apps, poll, ensure_daemon_set_cleanup, removed_event, waiting_event,
}
use cluster_openshift_contro.Operator.Starter.Cleanup.{
  IsReplaced, poll-IsReplaced, ensure_daemon_set_cleanup-true,
}

pub record Cluster : Type 0 where
  pub has_daemon_set : Bool
  pub events : List String

abbrev missing : Fault
missing = record { reason = Reason.not_found; text = "not found" }

abbrev apps : Apps Cluster
apps = record {
  get_daemon_set = λ w. if w.has_daemon_set then ok false else err missing;
  get_deployment = λ w. ok (pos 2);
  delete_daemon_set = λ w. (none, record w { has_daemon_set = false });
  record_event = λ event w. record w { events = event ∷ w.events };
}

abbrev cluster : Cluster
cluster = record { has_daemon_set = true; events = [] }

cluster-IsReplaced : IsReplaced apps cluster
cluster-IsReplaced = record {
  available = pos 2;
  present = refl;
  deployed = refl;
  some_available = λ e. cc;
}

poll-IsReplaced_example :
    (IsReplaced apps cluster
      × (((poll apps cluster).1 ≡ (apps.delete_daemon_set cluster).1)
          ⊎ ((poll apps cluster).1
              ≡ apps.record_event (removed_event apps) (apps.delete_daemon_set cluster).1)))
    ⊎ (((poll apps cluster).1 ≡ cluster)
        ⊎ ((apps.get_deployment cluster ≡ ok (pos 0))
            × ((poll apps cluster).1 ≡ apps.record_event (waiting_event apps) cluster)))
poll-IsReplaced_example = poll-IsReplaced apps cluster

ensure_daemon_set_cleanup-true_example :
    ensure_daemon_set_cleanup apps 5 cluster
    ≡ (true, apps.record_event (removed_event apps) (apps.delete_daemon_set cluster).1)
ensure_daemon_set_cleanup-true_example =
    ensure_daemon_set_cleanup-true apps cluster 3 missing cluster-IsReplaced refl refl refl
