-- ===== src/Operator/Starter/Run/WatchesChecks.antt =====
-- The informer of the proxies in a run of RunOperator.
use mathlib.Core.List.{Memᴰ}
use cluster_openshift_contro.Common.{[], some, true, false, ◌≡◌, refl}
use cluster_openshift_contro.Common.Fault.{err, errorf}
use cluster_openshift_contro.Operator.Starter.Run.{config_informers, user_ca_observer, run_operator}
use cluster_openshift_contro.Operator.Starter.Run.Order.{everything}
use cluster_openshift_contro.Operator.Starter.Run.Checks.{environment}
use cluster_openshift_contro.Operator.Starter.Run.Watches.{
  Watch, Factory, user_ca_controller, user_ca, is_made, run_operator-served,
}

abbrev proxies : Watch
proxies = record { factory = Factory.config; resource = "proxies" }

environment_run :
    run_operator environment []
    ≡ some (err (errorf "capability is enabled, stopping"), everything false)
unfolding run_operator
environment_run = refl

user_ca_started : Memᴰ user_ca_observer (everything false)
user_ca_started = Memᴰ.tail (
    Memᴰ.tail (
      Memᴰ.tail (
        Memᴰ.tail (
          Memᴰ.tail (Memᴰ.tail (Memᴰ.tail (Memᴰ.tail (Memᴰ.tail (Memᴰ.tail (Memᴰ.head refl))))))))))

proxies_watched : Memᴰ proxies user_ca_controller.informers
proxies_watched = Memᴰ.tail (Memᴰ.head refl)

run_operator-served_example :
    Memᴰ config_informers (everything false) × (is_made Factory.config ≡ true)
run_operator-served_example =
    run_operator-served environment environment_run user_ca user_ca_started proxies_watched
