-- ===== src/Operator/GenericClient/Outcome.antt =====
-- What the generic client sends to the API server.
use cluster_openshift_contro.Common.{
  String, none, some, true, false, ◌≡◌, ◌⊎◌, inl, inr, refl, Bool-cases,
}
use cluster_openshift_contro.Common.Fault.{Fault, ok, err, is_not_found, wrap, Result-cases}
use cluster_openshift_contro.Operator.GenericClient.{
  Resource, Client, update_operator_spec, update_operator_status, apply_operator_spec,
  apply_operator_status, keep_state, applied, previous_status, timed,
}

module _ {W Meta Spec Status SpecConfig StatusConfig Config Previous : Type 0}
    (client : Client W Meta Spec Status SpecConfig StatusConfig Config Previous) where
  -- An update of the spec or the status sends the resource of the lister with the given version and
  -- this part replaced, and all else as it was; if the lister has none, its error is returned and
  -- nothing is sent.
  pub update_lem :
      (version : String) (spec : Spec) (status : Status) (w : W)
      → ((e : Fault) × (client.lister_get w ≡ err e)
          × (update_operator_spec client version spec w ≡ (err e, w))
          × (update_operator_status client version status w ≡ (err e, w)))
        ⊎ ((r : Resource Meta Spec Status) × (a b : Resource Meta Spec Status) × (client.lister_get
                w
              ≡ ok r)
            × (a.meta ≡ r.meta)
            × (a.operator_status ≡ r.operator_status)
            × (a.resource_version ≡ version)
            × (a.operator_spec ≡ spec)
            × (update_operator_spec client version spec w
                ≡ keep_state client
                    (λ x. (x.operator_spec, x.resource_version))
                    (client.update a w))
            × (b.meta ≡ r.meta)
            × (b.operator_spec ≡ r.operator_spec)
            × (b.resource_version ≡ version)
            × (b.operator_status ≡ status)
            × (update_operator_status client version status w
                ≡ keep_state client (λ x. x.operator_status) (client.update_status b w)))
  unfolding update_operator_spec update_operator_status
  update_lem version spec status w = elim (Result-cases (client.lister_get w)) [
    | inr (e, failed) ↦ inl (e, failed, rw failed refl, rw failed refl)
    | inl (r, found) ↦ inr (
      r,
      record r { resource_version = version; operator_spec = spec },
      record r { resource_version = version; operator_status = status },
      found,
      refl,
      refl,
      refl,
      refl,
      rw found refl,
      refl,
      refl,
      refl,
      refl,
      rw found refl,
    )
  ]

  -- Why an apply is sent: there is no resource, or it differs from what is desired.
  pub data IsDue (manager : String) (w : W) (desired : Config) : Type 0 where
    no_resource :
        (e : Fault) → client.client_get w ≡ err e → is_not_found e ≡ true → IsDue manager w desired
    differs :
        (r : Resource Meta Spec Status) (original : Config)
        → client.client_get w ≡ ok r
        → client.extract r manager ≡ ok original
        → client.same_config original desired ≡ false
        → IsDue manager w desired

  -- An apply of a spec is sent at most once, with the configuration of the spec, and exactly if it is
  -- due; nothing is sent, without an error, if the field manager owns just this configuration; and
  -- nothing is sent, with an error, if the resource cannot be read or its configuration not extracted.
  pub apply_operator_spec_lem :
      (manager : String) (spec : SpecConfig) (w : W)
      → (IsDue manager w (client.with_spec spec)
          × (apply_operator_spec client manager (some spec) w
              ≡ applied client manager (client.apply manager (client.with_spec spec) w)))
        ⊎ (((r : Resource Meta Spec Status) × (original : Config) × (client.client_get w ≡ ok r)
              × (client.extract r manager ≡ ok original)
              × (client.same_config original (client.with_spec spec) ≡ true)
              × (apply_operator_spec client manager (some spec) w ≡ (none, w)))
            ⊎ ((e : Fault) × (apply_operator_spec client manager (some spec) w ≡ (some e, w))
                × (((e' : Fault) × (client.client_get w ≡ err e') × (is_not_found e' ≡ false))
                    ⊎ ((r : Resource Meta Spec Status) × (e' : Fault) × (client.client_get w ≡ ok r)
                        × (client.extract r manager ≡ err e')))))
  unfolding apply_operator_spec
  apply_operator_spec_lem manager spec w = elim (Result-cases (client.client_get w)) [
    | inr (e, failed) ↦ elim (Bool-cases (is_not_found e)) [
      | inl missing ↦ inl (no_resource e failed missing, rw (failed, missing))
      | inr other ↦ inr (
          inr (
            wrap "unable to get operator configuration: " e,
            rw (failed, other),
            inl (e, failed, other),
          ))
    ]
    | inl (r, found) ↦ elim (Result-cases (client.extract r manager)) [
      | inr (e, failed) ↦ inr (
          inr (
            wrap "unable to extract operator configuration: " e,
            rw (found, failed),
            inr (r, e, found, failed),
          ))
      | inl (original, extracted) ↦
          elim (Bool-cases (client.same_config original (client.with_spec spec))) [
            | inl same ↦
                inr (inl (r, original, found, extracted, same, rw (found, extracted, same)))
            | inr other ↦
                inl (differs r original found extracted other, rw (found, extracted, other))
          ]
    ]
  ]

  -- The configuration that an apply of a status sends over a previous one.
  abbrev pub desired_over : StatusConfig → StatusConfig → W → Config
  desired_over previous status w =
      client.with_status (client.canonicalize (timed client previous status w))

  -- Why an apply of a status fails before it sends anything, and with what error: the resource cannot
  -- be read, other than by NotFound, or what the field manager has applied before is not known.
  pub data IsUnknown (manager : String) (w : W) : Fault → Type 0 where
    unreadable :
        (e : Fault)
        → client.client_get w ≡ err e
        → is_not_found e ≡ false
        → IsUnknown manager w (wrap "unable to get operator configuration: " e)
    not_extracted :
        (r : Resource Meta Spec Status) (e : Fault)
        → client.client_get w ≡ ok r
        → client.extract_status r manager ≡ err e
        → IsUnknown manager w (wrap "unable to extract operator configuration: " e)
    not_serialized :
        (r : Resource Meta Spec Status) (p : Previous) (e : Fault)
        → client.client_get w ≡ ok r
        → client.extract_status r manager ≡ ok (some p)
        → client.marshal p ≡ err e
        → IsUnknown manager w (wrap "unable to serialize operator configuration: " e)
    not_deserialized :
        (r : Resource Meta Spec Status) (p : Previous) (json : String) (e : Fault)
        → client.client_get w ≡ ok r
        → client.extract_status r manager ≡ ok (some p)
        → client.marshal p ≡ ok json
        → client.unmarshal json ≡ err e
        → IsUnknown manager w (wrap "unable to deserialize operator configuration: " e)

  -- The status that was extracted is known, or the error says where it was lost.
  previous_cases :
      (manager : String) (w : W) (r : Resource Meta Spec Status)
      → client.client_get w ≡ ok r
      → ((previous : StatusConfig) × (previous_status client (client.extract_status r manager)
            ≡ ok previous))
        ⊎ ((e : Fault) × IsUnknown manager w e
            × (previous_status client (client.extract_status r manager) ≡ err e))
  previous_cases manager w r found = elim (Result-cases (client.extract_status r manager)) [
    | inr (e, failed) ↦ inr (_, not_extracted r e found failed, rw failed refl)
    | inl (none, extracted) ↦ inl (client.empty_status, rw extracted refl)
    | inl (some p, extracted) ↦ elim (Result-cases (client.marshal p)) [
      | inr (e, failed) ↦
          inr (_, not_serialized r p e found extracted failed, rw (extracted, failed) refl)
      | inl (json, marshalled) ↦ elim (Result-cases (client.unmarshal json)) [
        | inr (e, failed) ↦ inr (
          _,
          not_deserialized r p json e found extracted marshalled failed,
          rw (extracted, marshalled, failed) refl,
        )
        | inl (status, read) ↦ inl (status, rw (extracted, marshalled, read) refl)
      ]
    ]
  ]

  -- An apply of a status over a resource whose previous status is known sends the status in its
  -- canonical form, with the times of the transitions since the previous one, exactly if it differs
  -- from the canonical form of that; over no resource it sends the status as it is, but for the times;
  -- otherwise the resource cannot be read, or its previous status not be extracted, serialized or
  -- deserialized, and that error is returned and nothing is sent.
  pub apply_operator_status_lem :
      (manager : String) (status : StatusConfig) (w : W)
      → ((r : Resource Meta Spec Status) × (previous : StatusConfig) × (client.client_get w ≡ ok r)
          × (previous_status client (client.extract_status r manager) ≡ ok previous)
          × ((client.same_config
                    (client.with_status (client.canonicalize previous))
                    (desired_over previous status w)
                  ≡ true)
                × (apply_operator_status client manager (some status) w ≡ (none, w))
              ⊎ (client.same_config
                    (client.with_status (client.canonicalize previous))
                    (desired_over previous status w)
                  ≡ false)
                × (apply_operator_status client manager (some status) w
                    ≡ applied client manager
                        (client.apply_status manager (desired_over previous status w) w))))
        ⊎ (((e : Fault) × (client.client_get w ≡ err e)
              × (is_not_found e ≡ true)
              × (apply_operator_status client manager (some status) w
                  ≡ applied client manager (
                      client.apply_status manager
                        (client.with_status (client.set_transition_times none status w))
                        w)))
            ⊎ ((e : Fault) × IsUnknown manager w e
                × (apply_operator_status client manager (some status) w ≡ (some e, w))))
  unfolding apply_operator_status
  apply_operator_status_lem manager status w = elim (Result-cases (client.client_get w)) [
    | inr (e, failed) ↦ elim (Bool-cases (is_not_found e)) [
      | inl missing ↦ inr (inl (e, failed, missing, rw (failed, missing)))
      | inr other ↦ inr (
          inr (
            wrap "unable to get operator configuration: " e,
            unreadable e failed other,
            rw (failed, other),
          ))
    ]
    | inl (r, found) ↦ elim (previous_cases manager w r found) [
      | inr (e, unknown, failed) ↦ inr (inr (e, unknown, rw (found, failed)))
      | inl (previous, known) ↦ inl (
        r,
        previous,
        found,
        known,
        elim (Bool-cases (
            client.same_config (client.with_status (client.canonicalize previous))
              (desired_over previous status w))) [
                | inl same ↦ inl (same, rw (found, known, same))
                | inr other ↦ inr (other, rw (found, known, other))
              ],
      )
    ]
  ]
