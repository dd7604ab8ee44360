-- ===== src/Controller/Callbacks/Drift.antt =====
-- What others change of the objects that the callbacks of `CreateOrUpdate` write.
use mcg_osd_deployer.Base.{◌≡◌, String, List}
use mcg_osd_deployer.Utils.{put}
use mcg_osd_deployer.Cluster.Meta.{ObjectMeta, OwnerReference}
use mcg_osd_deployer.Cluster.Objects.{Kind, Body, Resource}
use mcg_osd_deployer.Controller.Reconciler.{mon_label_key}
use mcg_osd_deployer.Controller.Callbacks.{
  Callback, prometheus_service, the_prometheus, the_alertmanager, the_alertmanager_config,
  the_noobaa, claim, plugin, console_service,
}

-- Others have changed the value of the label by which the operator's monitoring is selected.
abbrev pub Relabelled : ObjectMeta → ObjectMeta → Type 0
Relabelled m m' = (value : String) × (m' ≡ record m { labels = put m.labels mon_label_key value })

-- What others have changed of the metadata: the values of labels and annotations that the callback
-- writes, and the owners of a claim.
abbrev pub MetaDrift : {k : Kind} → Callback k → ObjectMeta → ObjectMeta → Type 0
MetaDrift prometheus_service m m' =
    (value : String) × (first : String) × (second : String) × (m' ≡ record m {
      labels = put m.labels mon_label_key value;
      annotations =
          put (put m.annotations "service.beta.openshift.io/serving-cert-secret-name" first)
            "service.alpha.openshift.io/serving-cert-secret-name" second;
    })
MetaDrift the_prometheus m m' = Relabelled m m'
MetaDrift the_alertmanager m m' = Relabelled m m'
MetaDrift the_alertmanager_config m m' = Relabelled m m'
MetaDrift (claim desired) m m' =
    (owners : List OwnerReference) × (m' ≡ record m { owner_references = owners })
MetaDrift c m m' = m' ≡ m

-- What a callback does not write of the body is the same. The callbacks of the console's plugin and of its
-- service write nothing of it, so that no change of the body is one of theirs.
abbrev pub BodyDrift : {k : Kind} → Callback k → Body k → Body k → Type 0
BodyDrift prometheus_service b b' = b'.service_type ≡ b.service_type
BodyDrift (the_noobaa annotations backing_store desired) b b' = b'.phase ≡ b.phase
BodyDrift plugin b b' = ⊥
BodyDrift (console_service d) b b' = ⊥
BodyDrift c b b' = Unit

-- Others have changed some of what the callback writes, and nothing else.
abbrev pub Drift : {k : Kind} → Callback k → Resource k → Resource k → Type 0
Drift c o o' = MetaDrift c o.metadata o'.metadata × BodyDrift c o.body o'.body
