-- ===== src/Operator/GenericClient/Again.antt =====
-- An apply that has succeeded is not sent again.
use mathlib.Core.Path.{subst}
use cluster_openshift_contro.Common.{
  String, Option, none, some, true, false, ◌≡◌, inl, inr, refl, Bool-cases, sym, ap, ◌∙◌,
}
use cluster_openshift_contro.Common.Fault.{Fault, ok}
use cluster_openshift_contro.Operator.GenericClient.{
  Resource, Client, apply_operator_spec, apply_operator_status, applied, previous_status, timed,
}
use cluster_openshift_contro.Operator.GenericClient.Outcome.{
  apply_operator_spec_lem, desired_over, apply_operator_status_lem,
}

module _ {W Meta Spec Status SpecConfig StatusConfig Config Previous : Type 0}
    (client : Client W Meta Spec Status SpecConfig StatusConfig Config Previous) where
  open client use {with_spec, with_status, canonicalize, set_transition_times}

  -- After a server-side apply, the resource is there and the field manager owns what it has sent.
  pub record IsServer : Type 0 where
    pub same_config_refl : (c : Config) → client.same_config c c ≡ true
    pub extract_applied :
        (manager : String) (c : Config) (w w' : W)
        → client.apply manager c w ≡ (none, w')
        → (r : Resource Meta Spec Status) × (client.client_get w' ≡ ok r)
          × (client.extract r manager ≡ ok c)
    pub extract_status_applied :
        (manager : String) (s : StatusConfig) (w w' : W)
        → client.apply_status manager (with_status s) w ≡ (none, w')
        → (r : Resource Meta Spec Status) × (client.client_get w' ≡ ok r)
          × (previous_status client (client.extract_status r manager) ≡ ok s)
    -- the canonical form is one; the times of conditions that do not change are kept, also of their
    -- canonical form; without conditions there are no times
    pub canonicalize_idem : (s : StatusConfig) → canonicalize (canonicalize s) ≡ canonicalize s
    pub times_kept :
        (previous : Option StatusConfig) (s : StatusConfig) (w w' : W)
        → set_transition_times (some (set_transition_times previous s w)) s w'
          ≡ set_transition_times previous s w
    pub times_canonicalize :
        (previous s : StatusConfig) (w : W)
        → set_transition_times (some (canonicalize previous)) s w
          ≡ set_transition_times (some previous) s w
    pub times_without :
        (previous : Option StatusConfig) (s : StatusConfig) (w : W)
        → client.has_conditions s ≡ false
        → set_transition_times previous s w ≡ s

  applied-sent :
      (manager : String) (r : Option Fault × W) {w' : W}
      → applied client manager r ≡ (none, w')
      → r ≡ (none, w')
  applied-sent manager (none, w) h = h
  applied-sent manager (some e, w) h = absurd (cc)

  module _ (server : IsServer) where
    -- An apply of a spec that succeeds makes the same apply succeed without a request.
    pub apply_operator_spec-again :
        (manager : String) (spec : SpecConfig) (w w' : W)
        → apply_operator_spec client manager (some spec) w ≡ (none, w')
        → apply_operator_spec client manager (some spec) w' ≡ (none, w')
    unfolding apply_operator_spec
    apply_operator_spec-again manager spec w w' h =
        elim (apply_operator_spec_lem client manager spec w) [
          | inl (due, sent) ↦
              let (r, found, extracted) =
                server.extract_applied manager (with_spec spec) w w'
                  (applied-sent manager (client.apply manager (with_spec spec) w) (sym sent ∙ h)) in
              rw (found, extracted, server.same_config_refl (with_spec spec)) refl
          | inr (inl (r, original, found, extracted, same, idle)) ↦
              let kept : w ≡ w' = ap (λ x. x.1) (sym idle ∙ h) in
              subst (λ x. apply_operator_spec client manager (some spec) x ≡ (none, x)) kept idle
          | inr (inr (e, failed, why)) ↦ absurd (cc)
        ]

    -- The times are set as they were set before, also over the canonical form.
    timed_again :
        (q : Option StatusConfig) (s : StatusConfig) (w w' : W)
        → timed client (set_transition_times q s w) s w' ≡ set_transition_times q s w
    timed_again q s w w' = elim (Bool-cases (client.has_conditions s)) [
      | inl some_there ↦ rw some_there (server.times_kept q s w w')
      | inr none_there ↦ rw none_there (sym (server.times_without q s w none_there))
    ]

    timed_over_again :
        (p s : StatusConfig) (w w' : W)
        → timed client (canonicalize (timed client p s w)) s w' ≡ timed client p s w
    timed_over_again p s w w' = elim (Bool-cases (client.has_conditions s)) [
      | inl some_there ↦ rw some_there (
          server.times_canonicalize (set_transition_times (some p) s w) s w'
          ∙ server.times_kept (some p) s w w')
      | inr none_there ↦ rw none_there refl
    ]

    -- An apply over a status whose canonical form is the desired one sends nothing.
    idle_status :
        (manager : String) (status sent : StatusConfig) (w : W)
        → (r : Resource Meta Spec Status) × (client.client_get w ≡ ok r)
          × (previous_status client (client.extract_status r manager) ≡ ok sent)
        → canonicalize sent ≡ canonicalize (timed client sent status w)
        → apply_operator_status client manager (some status) w ≡ (none, w)
    unfolding apply_operator_status
    idle_status manager status sent w (r, found, known) same =
        rw (found, known, same, server.same_config_refl (desired_over client sent status w)) refl

    -- An apply of a status that succeeds makes the same apply succeed without a request, whatever the
    -- time is then.
    pub apply_operator_status-again :
        (manager : String) (status : StatusConfig) (w w' : W)
        → apply_operator_status client manager (some status) w ≡ (none, w')
        → apply_operator_status client manager (some status) w' ≡ (none, w')
    apply_operator_status-again manager status w w' h =
        elim (apply_operator_status_lem client manager status w) [
          | inl (r, previous, found, known, inl (same, idle)) ↦
              let kept : w ≡ w' = ap (λ x. x.1) (sym idle ∙ h) in
              subst (λ x. apply_operator_status client manager (some status) x ≡ (none, x)) kept
                idle
          | inl (r, previous, found, known, inr (other, sent)) ↦
              let t = timed client previous status w in
              let there = server.extract_status_applied manager (canonicalize t) w w' (
                applied-sent manager
                  (client.apply_status manager (desired_over client previous status w) w)
                  (sym sent ∙ h)) in
              idle_status manager status (canonicalize t) w' there (
                server.canonicalize_idem t
                ∙ ap canonicalize (sym (timed_over_again previous status w w')))
          | inr (inl (e, failed, missing, sent)) ↦
              let t = set_transition_times none status w in
              let there = server.extract_status_applied manager t w w' (
                applied-sent manager (client.apply_status manager (with_status t) w)
                  (sym sent ∙ h)) in
              idle_status manager status t w' there
                (ap canonicalize (sym (timed_again none status w w')))
          | inr (inr (e, unknown, failed)) ↦ absurd (cc)
        ]
