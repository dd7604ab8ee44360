-- ===== src/Tests/Drifts.antt =====
-- A callback on an object that it has made and others have changed, and the event of it, at a server that writes references to owners.
use mcg_osd_deployer.Base.{◌≡◌, refl, ap, sym, ◌∙◌, ◌⊎◌, inl, inr, true, map, List, [], ◌∷◌}
use mcg_osd_deployer.Exec.{Error, ok, lift, pure, ◌>>=◌}
use mcg_osd_deployer.Cluster.Meta.{ObjectMeta, OwnerReference}
use mcg_osd_deployer.Cluster.Objects.{Resource, secret, network_policy}
use mcg_osd_deployer.Cluster.Platform.{Platform}
use mcg_osd_deployer.Cluster.Zero.{fresh}
use mcg_osd_deployer.Controller.Calls.{own, this}
use mcg_osd_deployer.Controller.Reconciler.{initialize_reconciler}
use mcg_osd_deployer.Controller.Monitoring.Metrics.{relabel_secret_as}
use mcg_osd_deployer.Controller.Callbacks.{Callback, callback}
use mcg_osd_deployer.Controller.Callbacks.Settling.{RefersOnce}
use mcg_osd_deployer.Controller.Callbacks.Drifting.{changes_repaired}
use mcg_osd_deployer.Controller.Setup.Watches.{Event, object_of, ReconcileRequest, Handlers}
use mcg_osd_deployer.Tests.Server.{server}
use mcg_osd_deployer.Tests.Data.{living, alone, reconciler}

abbrev reference : ObjectMeta → OwnerReference
reference owner = record { owner_name = owner.name; owner_uid = owner.uid }

abbrev owned_by : ObjectMeta → ObjectMeta → ObjectMeta
owned_by owner m = record m { owner_references = reference owner ∷ [] }

abbrev owning : Platform
owning =
    let s = server (alone living) in
    record s { set_controller_reference = λ owner m. inr (owned_by owner m) }

abbrev made : Error ⊎ ObjectMeta → ObjectMeta
made (inr m) = m
made (inl e) = (fresh secret "" "").metadata

owning-RefersOnce : RefersOnce owning
owning-RefersOnce owner m m' m'' h refs namespace =
    let e : reference owner ∷ [] ≡ m''.owner_references =
      ap (λ x. (made x).owner_references) h ∙ sym refs in
    ap (λ rs. inr (record m'' { owner_references = rs })) e

abbrev relabeled : Resource secret
relabeled = record {
  metadata = owned_by living.metadata (fresh secret "relabel" "ns").metadata;
  body = ("alertrelabelconfig.yaml", "namespacens") ∷ [];
}

-- The secret after others have emptied it.
abbrev emptied : Resource secret
emptied = record relabeled { body = [] }

changes_repaired_example :
    callback owning Callback.relabel_secret emptied (reconciler living, [])
    ≡ (ok relabeled, (reconciler living, []))
unfolding callback fresh own this relabel_secret_as ◌>>=◌ lift pure initialize_reconciler
changes_repaired_example =
    changes_repaired owning Callback.relabel_secret (fresh secret "relabel" "ns") relabeled emptied
      (reconciler living, []) (reconciler living, []) owning-RefersOnce refl (refl, tt)

-- The handler behind `Owns`, where a ManagedMCG is the only kind of owner.
abbrev by_reference : Event → List ReconcileRequest
by_reference e =
    map (λ ref. (ref.owner_name, (object_of e).namespace)) (object_of e).owner_references

abbrev handlers : Handlers
handlers = record { generation_changed = λ e. true; for_object = λ e. []; for_owner = by_reference }

abbrev policy : Resource network_policy
policy =
    let o = fresh network_policy "ingress" "ns" in
    record o { metadata = owned_by living.metadata o.metadata }
