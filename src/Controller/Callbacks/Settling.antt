-- ===== src/Controller/Callbacks/Settling.antt =====
-- The callbacks of `CreateOrUpdate` on an object that they have made, and that others have changed since.
use mcg_osd_deployer.Base.{◌≡◌, refl, ap, ◌∙◌, String, Bool-cases, ◌==◌, ◌&&◌, not, ◌⊎◌, inl, inr}
use mcg_osd_deployer.Exec.{Error, ok, pure, wrapping, ◌>>=◌}
use mcg_osd_deployer.Exec.Runs.{ok-injective}
use mcg_osd_deployer.Exec.Settled.{
  Settled, Prepares, Any, Settled-pure, Settled-bind, Settled-after, Prepares-wrapping,
  Prepares-after, Passes-pure, Passes-bind,
}
use mcg_osd_deployer.Utils.{add_label, add_annotation}
use mcg_osd_deployer.Utils.Labels.{put-put, put-restores, put_both_restores}
use mcg_osd_deployer.Cluster.Meta.{ObjectMeta, StringMap, get_key, or_empty}
use mcg_osd_deployer.Cluster.Objects.{Kind, Resource, NooBaaSpec, noobaa}
use mcg_osd_deployer.Cluster.Platform.{Platform}
use mcg_osd_deployer.Controller.Calls.{M, owned, own, this}
use mcg_osd_deployer.Controller.Storage.{noobaa_as}
use mcg_osd_deployer.Controller.Bucket.{claim_as}
use mcg_osd_deployer.Controller.Monitoring.Network.{
  prometheus_service_as, kube_rbac_config_map_as, owned_prometheus_service, proxy_network_policy_as,
  ingress_network_policy_as,
}
use mcg_osd_deployer.Controller.Monitoring.Metrics.{relabel_secret_as, prometheus_as}
use mcg_osd_deployer.Controller.Monitoring.Alerts.{
  alertmanager_as, check_prerequisites, alertmanager_config_as,
}
use mcg_osd_deployer.Controller.Monitoring.Rules.{dms_rule_as}
use mcg_osd_deployer.Controller.Callbacks.Drift.{Relabelled, Drift}
use mcg_osd_deployer.Controller.Callbacks.{
  Callback, callback, kube_rbac, prometheus_service, proxy_policy, ingress_policy, relabel_secret,
  the_prometheus, the_alertmanager, the_alertmanager_config, dms_rule, the_noobaa, claim, plugin,
  console_service,
}

-- The references to owners, and where they are, are the same.
abbrev Kept : {k : Kind} → Resource k → Resource k → Type 0
Kept o out =
    (out.metadata.owner_references ≡ o.metadata.owner_references)
    × (out.metadata.namespace ≡ o.metadata.namespace)

-- `SetControllerReference` leaves an object alone that has its reference already.
abbrev pub RefersOnce : Platform → Type 0
RefersOnce P =
    (owner m m' m'' : ObjectMeta)
    → P.set_controller_reference owner m ≡ inr m'
    → m''.owner_references ≡ m'.owner_references
    → m''.namespace ≡ m'.namespace
    → P.set_controller_reference owner m'' ≡ inr m''

module _ (P : Platform) where
  module _ (once : RefersOnce P) where
    owned_again :
        {k : Kind} (o o' out : Resource k) (owner : ObjectMeta) (x : Error ⊎ ObjectMeta)
        → P.set_controller_reference owner o.metadata ≡ x
        → owned P o x ≡ ok o'
        → Kept o' out
        → owned P out (P.set_controller_reference owner out.metadata) ≡ ok out
    owned_again o o' out owner (inl e) h i kept = cc
    owned_again o o' out owner (inr m) h i (refs, namespace) =
        let same : m ≡ o'.metadata = ap (λ o. o.metadata) (ok-injective i) in
        rw (once owner o.metadata m out.metadata h (rw same refs) (rw same namespace)) refl

    Prepares-own : {k : Kind} → Prepares Kept (λ (o : Resource k). own P o)
    unfolding own
    Prepares-own = record {
      at = λ o o' out (r, s) w' h kept.
          rw (owned_again o o' out r.managed.metadata _ refl (ap (λ z. z.0) h) kept)
            (ap (λ w. (ok out, w)) (ap (λ z. z.1) h));
    }

    moves :
        {k : Kind} {D : Resource k → Resource k → Type 0}
        → ((o o' : Resource k) → D o o' → Kept o o')
        → (x y z : Resource k) → Kept x y
        → D y z
        → Kept x z
    moves kept x y z (refs, namespace) d =
        let (refs', namespace') = kept y z d in (refs' ∙ refs, namespace' ∙ namespace)

    module _ {k : Kind} {D : Resource k → Resource k → Type 0}
        (kept : (o o' : Resource k) → D o o' → Kept o o') where
      -- A callback that takes the object over and writes it.
      Settled-labelled :
          (G : Resource k → Resource k)
          → ((o : Resource k) → Kept o (G o))
          → ((o z : Resource k) → D (G o) z → G z ≡ G o)
          → Settled Any D (λ o. own P o >>= (λ o'. pure (G o')))
      Settled-labelled G stays restores =
          Settled-after (λ o. own P o) (λ o. pure (G o)) (moves kept) Prepares-own
            (Settled-pure G stays restores)

      -- The same where more is found out before the object is made.
      Settled-owned :
          (T : Resource k → M P (Resource k))
          → Settled Kept D T
          → Settled Any D (λ o. own P o >>= T)
      Settled-owned T settled = Settled-after (λ o. own P o) T (moves kept) Prepares-own settled

    same-Kept : {k : Kind} (o o' : Resource k) → (o'.metadata ≡ o.metadata) × Unit {0} → Kept o o'
    same-Kept o o' (e, u) = (ap (λ m. m.owner_references) e, ap (λ m. m.namespace) e)

    Relabelled-Kept :
        {k : Kind} (o o' : Resource k) → Relabelled o.metadata o'.metadata × Unit {0} → Kept o o'
    Relabelled-Kept o o' ((value, e), u) = (ap (λ m. m.owner_references) e, ap (λ m. m.namespace) e)

    relabel-Settled : Settled Any (Drift relabel_secret) (relabel_secret_as P)
    unfolding relabel_secret_as
    relabel-Settled = Settled-bind (this P) _ (λ r.
        Settled-owned same-Kept _ (
          Settled-bind _ _
            (λ config. Settled-pure _ (λ o. (refl, refl)) (λ o z (e, u). rw e refl))))

    dms-Settled : Settled Any (Drift dms_rule) (dms_rule_as P)
    unfolding dms_rule_as
    dms-Settled = Settled-bind (this P) _ (λ r.
        Settled-owned same-Kept _ (
          Settled-bind _ _
            (λ groups. Settled-pure _ (λ o. (refl, refl)) (λ o z (e, u). rw e refl))))

    alertmanager-Settled : Settled Any (Drift the_alertmanager) (alertmanager_as P)
    unfolding alertmanager_as add_label
    alertmanager-Settled =
        Settled-labelled Relabelled-Kept _ (λ o. (refl, refl))
          (λ o z ((value, e), u). rw (e, put-restores))

    prometheus-Settled : Settled Any (Drift the_prometheus) (prometheus_as P)
    unfolding prometheus_as add_label
    prometheus-Settled = Settled-bind (this P) _ (λ r. Settled-owned Relabelled-Kept _ (
        Settled-bind _ _ (λ csv. Settled-bind _ _ (λ containers. Settled-bind _ _ (λ endpoints.
          Settled-bind _ _ (λ spec.
            Settled-pure _ (λ o. (refl, refl)) (λ o z ((value, e), u). rw (e, put-restores))))))))

    Prepares-check_prerequisites : Prepares Kept (check_prerequisites P)
    unfolding check_prerequisites
    Prepares-check_prerequisites =
        Prepares-after (λ o. wrapping "failed to own AlertmanagerConfig secret" (own P o)) _
          (Prepares-wrapping "failed to own AlertmanagerConfig secret" (λ o. own P o) Prepares-own)
          (Passes-bind _ _ (λ a0. Passes-bind _ _ (λ a1. Passes-bind _ _ (λ a2.
            Passes-bind _ _ (λ a3. Passes-bind _ _ (λ a4.
              Passes-bind _ _
                (λ a5. Passes-bind _ _ (λ a6. Passes-bind _ _ (λ a7. Passes-pure)))))))))

    alertmanager_config-Settled :
        Settled Any (Drift the_alertmanager_config) (alertmanager_config_as P)
    unfolding alertmanager_config_as add_label
    alertmanager_config-Settled =
        Settled-after (check_prerequisites P) _ (moves Relabelled-Kept) Prepares-check_prerequisites
          (Settled-bind _ _ (λ a0. Settled-bind _ _ (λ a1. Settled-bind _ _ (λ a2.
            Settled-bind _ _ (λ a3. Settled-bind _ _ (λ a4. Settled-bind _ _ (λ a5.
              Settled-bind _ _ (λ a6. Settled-bind _ _ (λ a7. Settled-bind _ _ (λ a8.
                Settled-pure _ (λ o. (refl, refl))
                  (λ o z ((value, e), u). rw (e, put-restores))))))))))))

    prometheus_service-Settled : Settled Any (Drift prometheus_service) (owned_prometheus_service P)
    unfolding owned_prometheus_service prometheus_service_as add_label add_annotation
    prometheus_service-Settled =
        Settled-labelled
          (λ o o' ((v, v₁, v₂, e), u). (ap (λ m. m.owner_references) e, ap (λ m. m.namespace) e))
          prometheus_service_as (λ o. (refl, refl))
          (λ o z ((v, v₁, v₂, e), t). rw (e, t, put-restores, put_both_restores))

    noobaa_restored :
        (annotations : StringMap) (backing_store : String) (desired : NooBaaSpec)
        (o z : Resource noobaa)
        → let f = noobaa_as annotations backing_store desired in
          Drift (the_noobaa annotations backing_store desired) (f o) z → f z ≡ f o
    unfolding noobaa_as add_annotation
    noobaa_restored annotations backing_store desired o z (e, u) =
        elim (Bool-cases (
          or_empty (get_key "default-backing-store" annotations) == ""
          && not (backing_store == ""))) [
            | inl t ↦ rw (e, u, t, put-put) refl
            | inr f ↦ rw (e, u, f) refl
          ]

    pub callback-Settled : {k : Kind} (c : Callback k) → Settled Any (Drift c) (callback P c)
    unfolding callback kube_rbac_config_map_as proxy_network_policy_as ingress_network_policy_as
        claim_as
    callback-Settled kube_rbac =
        Settled-labelled same-Kept _ (λ o. (refl, refl)) (λ o z (e, u). rw e refl)
    callback-Settled prometheus_service = prometheus_service-Settled
    callback-Settled proxy_policy =
        Settled-labelled same-Kept _ (λ o. (refl, refl)) (λ o z (e, u). rw e refl)
    callback-Settled ingress_policy =
        Settled-labelled same-Kept _ (λ o. (refl, refl)) (λ o z (e, u). rw e refl)
    callback-Settled relabel_secret = relabel-Settled
    callback-Settled the_prometheus = prometheus-Settled
    callback-Settled the_alertmanager = alertmanager-Settled
    callback-Settled the_alertmanager_config = alertmanager_config-Settled
    callback-Settled dms_rule = dms-Settled
    callback-Settled (the_noobaa annotations backing_store desired) =
        Settled-pure _ (λ o. tt) (noobaa_restored annotations backing_store desired)
    callback-Settled (claim desired) = Settled-pure _ (λ o. tt) (λ o z ((owners, e), u). rw e refl)
    callback-Settled plugin = record { at = λ o out w w' h. (tt, λ z (e, none). absurd none) }
    callback-Settled (console_service d) = record {
      at = λ o out w w' h. (tt, λ z (e, none). absurd none);
    }
