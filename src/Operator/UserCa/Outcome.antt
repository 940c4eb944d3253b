-- ===== src/Operator/UserCa/Outcome.antt =====
-- Which source the user CA is synced from, and when.
use cluster_openshift_contro.Common.{
  String, none, some, true, false, ◌≡◌, ◌⊎◌, inl, inr, refl, Bool-cases, is_empty,
}
use cluster_openshift_contro.Common.Fault.{Fault, Result, ok, err, is_not_found, Result-cases}
use cluster_openshift_contro.Names.{user_specified_global_config_namespace}
use cluster_openshift_contro.Operator.UserCa.{
  ResourceLocation, location, nowhere, Client, find_proxy_ca_source, user_ca, sync,
}

-- The source for the proxy that was read: the trusted CA that it names; none, by which the
-- destination is deleted, if it names none or there is no proxy.
pub data IsSource : Result String → ResourceLocation → Type 0 where
  named :
      (name : String)
      → is_empty name ≡ false
      → IsSource (ok name) (location user_specified_global_config_namespace name "")
  unnamed : (name : String) → is_empty name ≡ true → IsSource (ok name) nowhere
  no_proxy : (e : Fault) → is_not_found e ≡ true → IsSource (err e) nowhere

source_cases :
    (r : Result String)
    → ((e : Fault) × (r ≡ err e) × (is_not_found e ≡ false) × (find_proxy_ca_source r ≡ err e))
      ⊎ ((source : ResourceLocation) × IsSource r source × (find_proxy_ca_source r ≡ ok source))
unfolding find_proxy_ca_source
source_cases (err e) = elim (Bool-cases (is_not_found e)) [
  | inl missing ↦ inr (nowhere, no_proxy e missing, rw missing refl)
  | inr other ↦ inl (e, refl, other, rw other refl)
]
source_cases (ok name) = elim (Bool-cases (is_empty name)) [
  | inl empty ↦ inr (nowhere, unnamed name empty, rw empty refl)
  | inr some_name ↦ inr (
    location user_specified_global_config_namespace name "",
    named name some_name,
    rw some_name refl,
  )
]

module _ {W : Type 0} (client : Client W) (w : W) where
  -- Without a managed operator whose state can be read, nothing is done and no error is returned; a
  -- proxy that cannot be read is an error, and nothing is done; otherwise the user CA is synced from
  -- the source for the proxy.
  pub sync_lem :
      ((((e : Fault) × (client.get_operator_state w ≡ err e))
          ⊎ ((state : String) × (client.get_operator_state w ≡ ok state)
              × (client.is_managed state ≡ false)))
        × (sync client w ≡ (none, w)))
      ⊎ ((state : String) × (client.get_operator_state w ≡ ok state)
          × (client.is_managed state ≡ true)
          × (((e : Fault) × (client.get_proxy w ≡ err e)
                × (is_not_found e ≡ false)
                × (sync client w ≡ (some e, w)))
              ⊎ ((source : ResourceLocation) × IsSource (client.get_proxy w) source
                  × (sync client w ≡ client.sync_config_map user_ca source w))))
  unfolding sync
  sync_lem = elim (Result-cases (client.get_operator_state w)) [
    | inr (e, failed) ↦ inl (inl (e, failed), rw failed refl)
    | inl (state, read) ↦ elim (Bool-cases (client.is_managed state)) [
      | inr unmanaged ↦ inl (inr (state, read, unmanaged), rw (read, unmanaged))
      | inl managed ↦ inr (
        state,
        read,
        managed,
        elim (source_cases (client.get_proxy w)) [
          | inl (e, failed, other, found) ↦ inl (e, failed, other, rw (read, managed, found))
          | inr (source, is_source, found) ↦ inr (source, is_source, rw (read, managed, found))
        ],
      )
    ]
  ]
