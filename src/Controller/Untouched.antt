-- ===== src/Controller/Untouched.antt =====
-- One reconciliation, however it ends, leaves alone every group that is not labelled with one of
-- the providers of the resource.
use group_sync_operator.Prelude.{
  ℕ, String, ◌≡◌, refl, ◌≢◌, ◌∙◌, Bool, true, false, Option, none, some, List, [], ◌∷◌, Exec,
  Result, ok, err, panic, Error, All, Occurs, is_api_not_found, sym, ap, Option-cases, inl, inr,
  arith,
}
use group_sync_operator.Prelude.Keeps.{
  Keeps, Keeps-bind, Keeps-if, Keeps-pure, Keeps-raise, keeps_rules,
}
use group_sync_operator.Prelude.Dict.{get}
use group_sync_operator.Constants.{sync_provider}
use group_sync_operator.Api.{GroupSync, Provider, ProviderType}
use group_sync_operator.Syncer.Manager.{Chosen, get_group_sync_mgr_iff}
use group_sync_operator.Cluster.{Stored, Cluster, ClusterLaws, View, Outcome}
use group_sync_operator.Syncer.{
  Syncer, okta, keycloak, github, gitlab, azure, ldap, choose, init, get_group_syncer_for_provider,
  GroupSyncer, validate, validate_all, after_validation, with_defaults, set_defaults,
  get_group_sync_mgr,
}
use group_sync_operator.Controller.{
  sync_with, sync_providers, wrap_metrics_error_with_metrics, finish, queued_again, scheduled,
  on_result, attempt, as_syncers, reconcile_with, reconcile_instance, reconcile, provider_label,
}
use group_sync_operator.Controller.Safety.{Reads, Holds, sync_with-Keeps, now-Keeps, count-Keeps}

-- The name that a syncer has of its provider.
abbrev pub syncer_name : Syncer → String
syncer_name (okta name p) = name
syncer_name (keycloak name p) = name
syncer_name (github name p) = name
syncer_name (gitlab name p) = name
syncer_name (azure name p) = name
syncer_name (ldap name p) = name

syncer_name-init : (t : Syncer) → syncer_name t ≡ syncer_name (init t).0
unfolding init
syncer_name-init (okta name p) = refl
syncer_name-init (keycloak name p) = refl
syncer_name-init (github name p) = refl
syncer_name-init (gitlab name p) = refl
syncer_name-init (azure name p) = refl
syncer_name-init (ldap name p) = refl

choose-name :
    (name : String) (k : ProviderType) (t : Syncer) → choose name k ≡ ok t → syncer_name t ≡ name
unfolding choose
choose-name name k t h = ground arith

get_group_syncer_for_provider-name :
    (p : Provider) (t : Syncer) → get_group_syncer_for_provider p ≡ ok t → syncer_name t ≡ p.name
unfolding get_group_syncer_for_provider
get_group_syncer_for_provider-name p t h = elim (Option-cases p.provider_type) [
  | inl e ↦ absurd (let q : _ = rw e at h in cc)
  | inr (k, e) ↦ choose-name p.name k t (rw e at h)
]

module _ {ℓ} {W : Type 0} {A : Type ℓ} {P : W → Type 0} where
  on_result-Keeps :
      (r : Result A) (failed : Error → Exec W Outcome) (next : A → Exec W Outcome)
      → ((e : Error) → Keeps P (failed e))
      → ((a : A) → r ≡ ok a → Keeps P (next a))
      → Keeps P (on_result r failed next)
  on_result-Keeps (ok a) failed next kf kn = record { at = λ w h. (kn a refl).at w h }
  on_result-Keeps (err e) failed next kf kn = record { at = λ w h. (kf e).at w h }
  on_result-Keeps panic failed next kf kn = record { at = λ w h. h }

  attempt-Keeps :
      (m : Exec W A) (failed : Error → Exec W Outcome) (next : A → Exec W Outcome)
      → Keeps P m
      → ((e : Error) → Keeps P (failed e))
      → ((a : A) → Keeps P (next a))
      → Keeps P (attempt m failed next)
  attempt-Keeps m failed next km kf kn = record {
    at = λ w h. (on_result-Keeps (m w).0 failed next kf (λ a _. kn a)).at (m w).1 (km.at w h);
  }

module _ {W : Type 0} (P : W → Type 0) where
  after_validation-keeps :
      (r : Result (Unit {0})) (w : W) (rest : Result (List Error) × W)
      → P w
      → P rest.1
      → P (after_validation r w rest).1
  after_validation-keeps (ok _) w rest h k = k
  after_validation-keeps (err e) w rest h k = k
  after_validation-keeps panic w rest h k = h

module _ {W : Type 0} {P : W → Type 0} where
  validate_all-Keeps :
      (gs : List (GroupSyncer W)) → All (λ g. Keeps P g.validate) gs → Keeps P (validate_all gs)
  unfolding validate_all
  validate_all-Keeps [] h = search keeps_rules
  validate_all-Keeps (g ∷ gs) h = record {
    at = λ w p.
        let q : P (g.validate w).1 = h.0.at w p in
        after_validation-keeps P (g.validate w).0 (g.validate w).1
          (validate_all gs (g.validate w).1) q ((validate_all-Keeps gs h.1).at (g.validate w).1 q);
  }

  validate-Keeps :
      (parses : String → Bool) (schedule : String) (gs : List (GroupSyncer W))
      → All (λ g. Keeps P g.validate) gs
      → Keeps P (validate parses schedule gs)
  unfolding validate
  validate-Keeps parses schedule gs h = search (keeps_rules, validate_all-Keeps)

module _ {W : Type 0} {c : Cluster W} {view : View W} (laws : ClusterLaws c view) (n : String)
    (s : Stored) where
  error-Keeps : (i : GroupSync) (e : Error) → Keeps (Holds laws n s) (c.manage_error i e)
  error-Keeps i e = record { at = λ w h. laws.error_keeps i e w n ∙ h }

  success-Keeps : (i : GroupSync) → Keeps (Holds laws n s) (c.manage_success i)
  success-Keeps i = record { at = λ w h. laws.success_keeps i w n ∙ h }

  update-Keeps : (i : GroupSync) → Keeps (Holds laws n s) (c.update_instance i)
  update-Keeps i = record { at = λ w h. laws.update_keeps i w n ∙ h }

  instance-Keeps : (a b : String) → Keeps (Holds laws n s) (c.get_instance a b)
  instance-Keeps a b = record { at = λ w h. laws.instance_keeps a b w n ∙ h }

  wrap-Keeps :
      (name : String) (i : GroupSync) (e : Error)
      → Keeps (Holds laws n s) (wrap_metrics_error_with_metrics c name i e)
  unfolding wrap_metrics_error_with_metrics
  wrap-Keeps name i e = search (keeps_rules, count-Keeps laws n s, error-Keeps)

  queued_again-Keeps :
      (i : GroupSync) (r : Outcome) (o : Option (ℕ × ℕ))
      → Keeps (Holds laws n s) (queued_again c i r o)
  queued_again-Keeps i r none = search keeps_rules
  queued_again-Keeps i r (some (at, wait)) = search (keeps_rules, count-Keeps laws n s)

  scheduled-Keeps : (i : GroupSync) (r : Outcome) → Keeps (Holds laws n s) (scheduled c i r)
  scheduled-Keeps i r =
      Keeps-if _ _ _ (Keeps-pure r)
        (Keeps-bind c.now _ (now-Keeps laws n s) (λ t. queued_again-Keeps i r _))

  finish-Keeps : (i : GroupSync) → Keeps (Holds laws n s) (finish c i)
  unfolding finish
  finish-Keeps i =
      Keeps-bind c.now _ (now-Keeps laws n s)
        λ t. Keeps-bind (c.manage_success _) _ (success-Keeps _) λ r. scheduled-Keeps i r

  -- The syncers of an instance write no group, and the group has none of their labels.
  abbrev Apart : GroupSync → List (GroupSyncer W) → Type 0
  Apart i =
      All
        (λ g. Reads view g × (get sync_provider s.labels ≢ some (provider_label i g.provider_name)))

  sync_providers-Keeps :
      (i : GroupSync) (gs : List (GroupSyncer W)) (done : Exec W Outcome)
      → Apart i gs
      → Keeps (Holds laws n s) done
      → Keeps (Holds laws n s) (sync_providers c i gs done)
  unfolding sync_providers
  sync_providers-Keeps i [] done h k = k
  sync_providers-Keeps i (g ∷ gs) done h k =
      attempt-Keeps (sync_with c i g) _ _ (sync_with-Keeps laws n s g h.0.0 i h.0.1)
        (wrap-Keeps g.provider_name i) (λ _. sync_providers-Keeps i gs done h.1 k)

  -- The group has none of the labels of these syncers.
  abbrev ApartFrom : GroupSync → List Syncer → Type 0
  ApartFrom i = All (λ t. get sync_provider s.labels ≢ some (provider_label i (syncer_name t)))

  Chosen-ApartFrom :
      (i : GroupSync) (ps : List Provider) (ts : List Syncer)
      → Chosen ps ts
      → ((p : Provider) → Occurs p ps → get sync_provider s.labels ≢ some (provider_label i p.name))
      → ApartFrom i (set_defaults ts).0
  unfolding set_defaults
  Chosen-ApartFrom i [] [] h apart = tt
  Chosen-ApartFrom i [] (t ∷ ts) h apart = absurd h
  Chosen-ApartFrom i (p ∷ ps) [] h apart = absurd h
  Chosen-ApartFrom i (p ∷ ps) (t ∷ ts) h apart = (
    λ e. apart p (inl refl) (
        e
        ∙ ap (λ n. some (provider_label i n))
            (sym (syncer_name-init t) ∙ get_group_syncer_for_provider-name p t h.0)),
    Chosen-ApartFrom i ps ts h.1 (λ q o. apart q (inr o)),
  )

  module _ (methods : GroupSync → Syncer → GroupSyncer W)
      (named : (i : GroupSync) (t : Syncer) → (methods i t).provider_name ≡ syncer_name t)
      (reads : (i : GroupSync) (t : Syncer) → Reads view (methods i t)) where
    as_syncers-Apart :
        (i : GroupSync) (ts : List Syncer) → ApartFrom i ts → Apart i (as_syncers c methods i ts)
    as_syncers-Apart i [] apart = tt
    as_syncers-Apart i (t ∷ ts) apart = (
      (reads i t, λ e. apart.0 (e ∙ ap (λ n. some (provider_label i n)) (named i t))),
      as_syncers-Apart i ts apart.1,
    )

    as_syncers-validate :
        (i : GroupSync) (ts : List Syncer)
        → All (λ g. Keeps (Holds laws n s) g.validate) (as_syncers c methods i ts)
    as_syncers-validate i [] = tt
    as_syncers-validate i (t ∷ ts) =
        (record { at = λ w h. (reads i t).validate_keeps w n ∙ h }, as_syncers-validate i ts)

    reconcile_with-Keeps :
        (i : GroupSync) (ts : List Syncer) (changed : Bool)
        → ApartFrom i ts
        → Keeps (Holds laws n s) (reconcile_with c methods i ts changed)
    unfolding reconcile_with
    reconcile_with-Keeps i ts true apart =
        attempt-Keeps (c.update_instance i) _ _ (update-Keeps i) (error-Keeps i) (λ _. Keeps-pure _)
    reconcile_with-Keeps i ts false apart =
        attempt-Keeps (validate c.schedule_is_valid i.spec.schedule (as_syncers c methods i ts)) _ _
          (validate-Keeps c.schedule_is_valid i.spec.schedule _ (as_syncers-validate i ts))
          (error-Keeps i)
          (λ _.
            sync_providers-Keeps i (as_syncers c methods i ts) (finish c i)
              (as_syncers-Apart i ts apart) (finish-Keeps i))

    reconcile_instance-Keeps :
        (i : GroupSync)
        → ((p : Provider)
            → Occurs p i.spec.providers
            → get sync_provider s.labels ≢ some (provider_label i p.name))
        → Keeps (Holds laws n s) (reconcile_instance c methods i)
    unfolding reconcile_instance with_defaults
    reconcile_instance-Keeps i apart =
        on_result-Keeps (get_group_sync_mgr i) _ _ (error-Keeps i) (λ ts made.
          reconcile_with-Keeps (with_defaults i (set_defaults ts).0) (set_defaults ts).0 _
            (Chosen-ApartFrom i i.spec.providers ts ((get_group_sync_mgr_iff i ts).0 made) apart))

    -- If the calls of the syncers write no group and each syncer gives the name of its provider, then
    -- one reconciliation of a resource, whether it succeeds, fails or panics, leaves a group in the
    -- cluster with its labels, annotations and users as they were, if the group's provider label is
    -- not that of one of the providers that the resource lists when it is read (a group with no such
    -- label included, and one of a provider that the resource no longer lists).
    pub reconcile_untouched :
        (namespace name : String) (w : W)
        → ((i : GroupSync)
            → (c.get_instance namespace name w).0 ≡ ok i
            → (p : Provider) → Occurs p i.spec.providers
            → get sync_provider s.labels ≢ some (provider_label i p.name))
        → view w n ≡ some s
        → view (reconcile c methods namespace name w).1 n ≡ some s
    unfolding reconcile
    reconcile_untouched namespace name w apart h =
        (on_result-Keeps (c.get_instance namespace name w).0 _ _
            (λ e. Keeps-if (is_api_not_found e) _ _ (Keeps-pure _) (Keeps-raise e))
            (λ i e. reconcile_instance-Keeps i (apart i e))).at
          (c.get_instance namespace name w).1 ((instance-Keeps namespace name).at w h)
