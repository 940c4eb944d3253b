-- ===== src/Cleanup/Extends.antt =====
-- Each step of the cleanup adds a few requests behind those that were sent before.
use mathlib.Core.List.{Mem, append-nil, append_assoc, mem-append_left}
use mathlib.Core.Path.{subst}
use cluster_openshift_contro.Common.{
  ℕ, ◌+◌, ◌*◌, ◌≤◌, String, List, [], ◌∷◌, ◌++◌, Option, none, some, ◌≡◌, refl, inl, inr, arith,
  is_empty, length, Bool-cases, sym, ap, ◌∙◌,
}
use cluster_openshift_contro.Common.Fault.{Fault, Result, ok, err}
use cluster_openshift_contro.Cleanup.Objects.{Secret, ServiceAccount, Kube}
use cluster_openshift_contro.Cleanup.Account.{
  Request, delete_token, delete_pull_secret, update, State, Flow, delete_if, after_update,
  update_refs, or_fail, without_refs, remove_secrets, with_token, cleanup_secret, cleanup_found,
  cleanup_account, is_recent, image_pull_secret_in_use, image_pull_secret_for_service_account,
  token_secret_for_image_pull_secret,
}
use cluster_openshift_contro.Cleanup.{goes_on, cleanup_loop}

pub length-append : {A : Type 0} (xs ys : List A) → length (xs ++ ys) ≡ length xs + length ys
length-append [] ys = ground arith
length-append (x ∷ xs) ys = ground (arith, length-append xs ys)

module _ {W : Type 0} where
  -- `t` has the requests of `s` and at most `n` more behind them.
  pub record Extends (n : ℕ) (s t : State W) : Type 0 where
    pub more : List (Request W)
    pub extended : t.requests ≡ s.requests ++ more
    pub bounded : length more ≤ n

  pub none_more : {s t : State W} (n : ℕ) → t.requests ≡ s.requests → Extends n s t
  none_more {s} n h = record {
    more = [];
    extended = h ∙ sym (append-nil s.requests);
    bounded = omega arith;
  }

  pub one_more : {s t : State W} (r : Request W) → t.requests ≡ s.requests ++ r ∷ [] → Extends 1 s t
  one_more r h = record { more = r ∷ []; extended = h; bounded = omega arith }

  widen :
      {n m : ℕ} {s t u : State W} → n ≤ m → u.requests ≡ t.requests → Extends n s t → Extends m s u
  widen le same h = record {
    more = h.more;
    extended = same ∙ h.extended;
    bounded = let b = h.bounded in omega arith;
  }

  -- What was sent stays.
  pub Extends-Mem :
      {n : ℕ} {s t : State W} {r : Request W} → Extends n s t → Mem r s.requests → Mem r t.requests
  Extends-Mem {r} h m = subst (Mem r) (sym h.extended) (mem-append_left h.more m)

  pub and_then :
      {n m k : ℕ} {s t u : State W} → n + m ≤ k → Extends n s t → Extends m t u → Extends k s u
  and_then {s} le a b = record {
    more = a.more ++ b.more;
    extended =
        b.extended ∙ ap (λ l. l ++ b.more) a.extended ∙ append_assoc s.requests a.more b.more;
    bounded =
        let both = length-append a.more b.more in
        let first = a.bounded in let second = b.bounded in ground (arith, both);
  }

module _ {W : Type 0} (k : Kube W) where
  delete_if-Extends :
      (o : Option Secret) (request : Secret → Request W) (s : State W)
      → Extends 1 s (delete_if k o request s).1
  delete_if-Extends none request s = none_more 1 refl
  delete_if-Extends (some t) request s = one_more (request t) refl

  after_update-requests :
      (name : String) (sa : ServiceAccount) (e : Option Fault) (s : State W)
      → (after_update k name sa e s).1.requests ≡ s.requests
  after_update-requests name sa none s = ground arith
  after_update-requests name sa (some e) s = ground arith

  -- whatever the answer, the update is sent
  pub update_refs-requests :
      (w : W) (name : String) (sa : ServiceAccount) (s : State W)
      → (update_refs k w name sa s).1.requests
        ≡ s.requests ++ update w name sa (without_refs name sa) ∷ []
  update_refs-requests w name sa s =
      let (e, w') =
        k.update_service_account (without_refs name sa)
          (k.assign_service_account (without_refs name sa) s.world) in
      after_update-requests name sa e (record {
        world = w';
        requests = s.requests ++ update w name sa (without_refs name sa) ∷ [];
      })

  pub update_refs-Extends :
      (w : W) (name : String) (sa : ServiceAccount) (s : State W)
      → Extends 1 s (update_refs k w name sa s).1
  update_refs-Extends w name sa s =
      one_more (update w name sa (without_refs name sa)) (update_refs-requests w name sa s)

  or_fail-Extends :
      {s : State W} (n m t : ℕ) (context : String) (r : Option Fault × State W)
      (f : State W → Flow × State W)
      → n + m ≤ t
      → Extends n s r.1
      → ((s : State W) → Extends m s (f s).1)
      → Extends t s (or_fail k context r f).1
  or_fail-Extends n m t context (some e, s') f le h p = widen (omega arith) refl h
  or_fail-Extends n m t context (none, s') f le h p = and_then le h (p s')

  remove_secrets-Extends :
      (w : W) (name : String) (sa : ServiceAccount) (secret : Secret) (token : Option Secret)
      (s : State W)
      → Extends 3 s (remove_secrets k w name sa secret token s).1
  unfolding remove_secrets
  remove_secrets-Extends w name sa secret token s =
      or_fail-Extends 1 2 3 _ (delete_if k token (delete_token w secret) s) _ (omega arith)
        (delete_if-Extends token (delete_token w secret) s)
        (λ s₁.
          or_fail-Extends 1 1 2 _ (delete_if k (some secret) (delete_pull_secret w) s₁)
            (update_refs k w name sa) (omega arith)
            (delete_if-Extends (some secret) (delete_pull_secret w) s₁)
            (update_refs-Extends w name sa))

  with_token-Extends :
      (w : W) (name : String) (sa : ServiceAccount) (secret : Secret)
      (token : Option (Option Secret)) (s : State W)
      → Extends 3 s (with_token k w name sa secret token s).1
  with_token-Extends w name sa secret none s = none_more 3 refl
  with_token-Extends w name sa secret (some token) s =
      remove_secrets-Extends w name sa secret token s

  cleanup_secret-Extends :
      (name : String) (sa : ServiceAccount) (secret : Secret) (s : State W)
      → Extends 3 s (cleanup_secret k name sa secret s).1
  unfolding cleanup_secret
  cleanup_secret-Extends name sa secret s =
      let found = token_secret_for_image_pull_secret k secret s.world in
      elim (Bool-cases (is_recent k secret s.world)) [
        | inl recent ↦ rw recent (none_more 3 refl)
        | inr old ↦ elim (Bool-cases (image_pull_secret_in_use k secret s.world)) [
          | inl used ↦ rw (old, used) (none_more 3 refl)
          | inr unused ↦ rw (old, unused) (with_token-Extends s.world name sa secret found s)
        ]
      ]

  cleanup_found-Extends :
      (sa : ServiceAccount) (r : Result (String × Option Secret)) (s : State W)
      → Extends 3 s (cleanup_found k sa r s).1
  cleanup_found-Extends sa (err e) s = none_more 3 refl
  cleanup_found-Extends sa (ok (name, none)) s = elim (Bool-cases (is_empty name)) [
    | inl e ↦ rw e (none_more 3 refl)
    | inr e ↦ rw e (
        and_then {n = 0} {m = 1} (omega arith) (none_more 0 refl)
          (update_refs-Extends s.world name sa s))
  ]
  cleanup_found-Extends sa (ok (name, some secret)) s = elim (Bool-cases (is_empty name)) [
    | inl e ↦ rw e (none_more 3 refl)
    | inr e ↦ rw e (cleanup_secret-Extends name sa secret s)
  ]

  pub cleanup_account-Extends :
      (sa : ServiceAccount) (s : State W) → Extends 3 s (cleanup_account k sa s).1
  unfolding cleanup_account
  cleanup_account-Extends sa s =
      cleanup_found-Extends sa (image_pull_secret_for_service_account k sa s.world) s

  pub cleanup_loop-Extends :
      (accounts : List ServiceAccount) (s : State W)
      → Extends (3 * length accounts) s (cleanup_loop k accounts s).1
  unfolding cleanup_loop
  cleanup_loop-Extends [] s = none_more 0 refl
  cleanup_loop-Extends (sa ∷ rest) s =
      let (flow, s') = cleanup_account k sa s in
      let one = cleanup_account-Extends sa s in
      elim (Bool-cases (goes_on flow)) [
        | inl e ↦ rw e (
            and_then (omega arith) (widen {m = 3} (omega arith) refl one)
              (cleanup_loop-Extends rest (record s' { world = k.next s'.world })))
        | inr e ↦ rw e (widen (omega arith) refl one)
      ]
