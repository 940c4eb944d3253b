-- ===== src/Observe/Observer/Owners.antt =====
-- Every observer writes at its own paths only.
use mathlib.Core.List.{Mem, mem-cons_self}
use cluster_openshift_contro.Common.{
  String, List, [], ◌∷◌, Option, none, some, Bool-cases, inl, inr,
}
use cluster_openshift_contro.Common.Fault.{Fault, Result, ok, err, is_not_found}
use cluster_openshift_contro.Cluster.{Lister}
use cluster_openshift_contro.Observe.Unstructured.{Unstructured, IsLawful}
use cluster_openshift_contro.Observe.Listers.{Listers, ImageConfig}
use cluster_openshift_contro.Observe.Previous.{or_previous}
use cluster_openshift_contro.Observe.Images.{
  internal_registry_hostname_path, registry_urls_path, after_previous,
  observe_internal_registry_hostname, observe_external_registry_hostnames,
}
use cluster_openshift_contro.Observe.Network.{
  ingress_ip_path, keep_cidr, with_error, after_kept, observe_external_ip_auto_assign_cidrs,
}
use cluster_openshift_contro.Observe.Controllers.{
  controllers_path, all_controllers, controllers_sort, disable_all, mark_disabled, observe_previous,
  observe_controllers, set_or_previous, finish, previous_slice, collect_disabled,
  disabled_controller_funcs,
}
use cluster_openshift_contro.Observe.Observer.{observed, observed_or_panic}
use cluster_openshift_contro.Observe.Observer.Writes.{
  WritesAt, empty-WritesAt, set-WritesAt, write_text-WritesAt, write_texts-WritesAt,
  keep_text-WritesAt, keep_texts-WritesAt,
}

module _ {Json Config : Type 0} (u : Unstructured Json Config) where
  -- What is observed, if anything is.
  abbrev pub OnlyAt : List (List String) → Option (Option Config × List Fault) → Type 0
  OnlyAt paths none = Unit
  OnlyAt paths (some (none, errors)) = Unit
  OnlyAt paths (some (some c, errors)) = WritesAt u paths c

  or_previous-WritesAt :
      (paths : List (List String)) (previous : Config) (r : Config × Option Fault)
      → WritesAt u paths previous
      → WritesAt u paths r.0
      → WritesAt u paths (or_previous u previous r).0
  or_previous-WritesAt paths previous (c, none) h k = k
  or_previous-WritesAt paths previous (c, some e) h k = h

  after_previous-WritesAt :
      (paths : List (List String)) (write : ImageConfig → Config × Option Fault)
      (image : Result ImageConfig) (kept : Config × Option Fault)
      → WritesAt u paths u.empty
      → ((i : ImageConfig) → WritesAt u paths (write i).0)
      → WritesAt u paths kept.0
      → WritesAt u paths (after_previous u write image kept).0
  after_previous-WritesAt paths write image (previous, some e) h k l = l
  after_previous-WritesAt paths write (ok i) (previous, none) h k l =
      or_previous-WritesAt paths previous (write i) l (k i)
  after_previous-WritesAt paths write (err e) (previous, none) h k l =
      elim (Bool-cases (is_not_found e)) [ inl on ↦ rw on h | inr off ↦ rw off l ]

  module _ (lawful : IsLawful u) {V Network : Type 0} (listers : Listers V Network)
      (existing : Config) where
    pub internal_registry-OnlyAt :
        OnlyAt
          (internal_registry_hostname_path ∷ [])
          (observed (observe_internal_registry_hostname u listers existing))
    unfolding observe_internal_registry_hostname
    internal_registry-OnlyAt =
        let m : Mem internal_registry_hostname_path (internal_registry_hostname_path ∷ []) =
          mem-cons_self in
        let start = empty-WritesAt u lawful m in
        after_previous-WritesAt (internal_registry_hostname_path ∷ []) _
          (listers.image_config_lister "cluster") _ start
          (λ i. write_text-WritesAt u lawful m u.empty i.internal_registry_hostname start)
          (keep_text-WritesAt u lawful m u.empty
            (u.nested_string existing internal_registry_hostname_path) start)

    pub registry_urls-OnlyAt :
        OnlyAt
          (registry_urls_path ∷ [])
          (observed (observe_external_registry_hostnames u listers existing))
    unfolding observe_external_registry_hostnames
    registry_urls-OnlyAt =
        let m : Mem registry_urls_path (registry_urls_path ∷ []) = mem-cons_self in
        let start = empty-WritesAt u lawful m in
        after_previous-WritesAt (registry_urls_path ∷ []) _ (listers.image_config_lister "cluster")
          _ start (λ i. write_texts-WritesAt u lawful m u.empty i.external_registry_hostnames start)
          (keep_texts-WritesAt u lawful m u.empty
            (u.nested_string_slice existing registry_urls_path) start)

    abbrev ingress : List (List String)
    ingress = ingress_ip_path ∷ []

    at_ingress : Mem ingress_ip_path ingress
    at_ingress = mem-cons_self

    with_error-WritesAt :
        (r : Config × Option Fault) → WritesAt u ingress r.0 → WritesAt u ingress (with_error u r).0
    with_error-WritesAt (c, none) h = h
    with_error-WritesAt (c, some e) h = h

    after_kept-WritesAt :
        (cs : Result (List String)) (kept : Config × Option Fault)
        → WritesAt u ingress kept.0
        → WritesAt u ingress (after_kept u cs kept).0
    after_kept-WritesAt cs (c, some e) h = h
    after_kept-WritesAt (err e) (c, none) h = h
    after_kept-WritesAt (ok []) (c, none) h =
        with_error-WritesAt _ (set-WritesAt u lawful at_ingress c (u.of_text "") h)
    after_kept-WritesAt (ok (s ∷ [])) (c, none) h =
        with_error-WritesAt _ (set-WritesAt u lawful at_ingress c (u.of_text s) h)
    after_kept-WritesAt (ok (s ∷ t ∷ cs)) (c, none) h = h

    keep_cidr-WritesAt : (r : Result (Option String)) → WritesAt u ingress (keep_cidr u r).0
    keep_cidr-WritesAt (err e) = empty-WritesAt u lawful at_ingress
    keep_cidr-WritesAt (ok none) = empty-WritesAt u lawful at_ingress
    keep_cidr-WritesAt (ok (some s)) =
        set-WritesAt u lawful at_ingress u.empty (u.of_text s) (empty-WritesAt u lawful at_ingress)

    pub external_ip-OnlyAt :
        (cidrs : Lister Network → Result (List String))
        → OnlyAt
            (ingress_ip_path ∷ [])
            (observed (observe_external_ip_auto_assign_cidrs u cidrs listers existing))
    unfolding observe_external_ip_auto_assign_cidrs
    external_ip-OnlyAt cidrs =
        after_kept-WritesAt (cidrs listers.network_lister) _
          (keep_cidr-WritesAt (u.nested_string existing ingress_ip_path))

    abbrev listed : List (List String)
    listed = controllers_path ∷ []

    at_controllers : Mem controllers_path listed
    at_controllers = mem-cons_self

    set_controllers :
        (l : List String)
        → WritesAt u listed (u.set_nested_field u.empty controllers_path (u.of_texts l)).0
    set_controllers l =
        set-WritesAt u lawful at_controllers u.empty (u.of_texts l)
          (empty-WritesAt u lawful at_controllers)

    set_or_previous-WritesAt :
        (previous : Config) (r : Config × Option Fault)
        → WritesAt u listed previous
        → WritesAt u listed r.0
        → WritesAt u listed (set_or_previous u previous r).0
    set_or_previous-WritesAt previous (c, none) h k = k
    set_or_previous-WritesAt previous (c, some e) h k = h

    finish-OnlyAt :
        (previous out : Config) (o : Option (List String))
        → WritesAt u listed previous
        → WritesAt u listed out
        → OnlyAt listed (observed_or_panic (finish u previous out o))
    finish-OnlyAt previous out none h k = tt
    finish-OnlyAt previous out (some l) h k =
        set_or_previous-WritesAt previous (u.set_nested_field out controllers_path (u.of_texts l)) h
          (set-WritesAt u lawful at_controllers out (u.of_texts l) k)

    mark_disabled-OnlyAt :
        (previous out : Config) (r : List String × List Fault)
        → WritesAt u listed previous
        → WritesAt u listed out
        → OnlyAt listed (observed_or_panic (mark_disabled u previous out r))
    mark_disabled-OnlyAt previous out (disabled, e ∷ errors) h k = h
    mark_disabled-OnlyAt previous out (disabled, []) h k =
        finish-OnlyAt previous out (controllers_sort (disable_all all_controllers disabled)) h k

    previous-OnlyAt :
        (r : Result (Option (List String)))
        → OnlyAt listed (observed_or_panic (observe_previous u listers r))
    previous-OnlyAt (err e) = empty-WritesAt u lawful at_controllers
    previous-OnlyAt (ok found) =
        mark_disabled-OnlyAt _ _ (collect_disabled listers disabled_controller_funcs ([], []))
          (set_controllers (previous_slice found)) (set_controllers all_controllers)

    pub controllers-OnlyAt :
        OnlyAt (controllers_path ∷ []) (observed_or_panic (observe_controllers u listers existing))
    unfolding observe_controllers
    controllers-OnlyAt = previous-OnlyAt (u.nested_string_slice existing controllers_path)
