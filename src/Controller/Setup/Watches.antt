-- ===== src/Controller/Setup/Watches.antt =====
-- The watches that `SetupWithManager` of controllers/managedmcg_controller.go registers, all together:
-- on the ManagedMCG, on what it owns, and on other objects.
use mcg_osd_deployer.Base.{
  ◌≡◌, String, Bool, true, false, Option, none, some, List, [], ◌∷◌, ◌++◌, inr, ◌==◌, ◌&&◌, ◌||◌,
  if◌then◌else◌,
}
use mcg_osd_deployer.Cluster.Meta.{ObjectMeta}
use mcg_osd_deployer.Cluster.Objects.{
  Kind, managed_mcg, config_map, service, network_policy, prometheus, alertmanager,
  alertmanager_config,
}
use mcg_osd_deployer.Cluster.Platform.{Platform}
use mcg_osd_deployer.Controller.Reconciler.{Config, Reconciler}
use mcg_osd_deployer.Controller.Setup.{watched_request}

abbrev pub ReconcileRequest : Type 0
ReconcileRequest = String × String

-- An event of an informer, with the object, and of an update the object before it.
pub data Event : Type 0 where
  create_event delete_event generic_event : ObjectMeta → Event
  update_event : ObjectMeta → ObjectMeta → Event

abbrev pub object_of : Event → ObjectMeta
object_of (create_event o) = o
object_of (delete_event o) = o
object_of (generic_event o) = o
object_of (update_event old o) = o

-- What controller-runtime brings along: `GenerationChangedPredicate`, the handler behind `For`, which
-- asks for the object itself, and the one behind `Owns`, which asks for the ManagedMCG that is its
-- controller.
pub record Handlers : Type 0 where
  pub generation_changed : Event → Bool
  pub for_object : Event → List ReconcileRequest
  pub for_owner : Event → List ReconcileRequest

abbrev as_list : Option ReconcileRequest → List ReconcileRequest
as_list none = []
as_list (some q) = q ∷ []

module _ (h : Handlers) (c : Config) where
  -- `For`, with `managedMCGPredicates`.
  unfoldable pub for_requests : Kind → Event → List ReconcileRequest
  for_requests managed_mcg e = if h.generation_changed e then h.for_object e else []
  for_requests k e = []

  -- The kinds of `Owns`.
  unfoldable pub is_owned : Kind → Bool
  is_owned config_map = true
  is_owned service = true
  is_owned network_policy = true
  is_owned k = false

  -- The requests that an event leads to, by all watches.
  unfoldable pub enqueued : Kind → Event → List ReconcileRequest
  unfolding for_requests is_owned watched_request
  enqueued k e =
      for_requests k e
      ++ ((if is_owned k then h.for_owner e else []) ++ as_list (watched_request c k (object_of e)))

-- The list asks for the reconciliation of that name and namespace.
abbrev pub asks : ReconcileRequest → List ReconcileRequest → Bool
asks (name, namespace) [] = false
asks (name, namespace) ((name', namespace') ∷ rest) =
    (name' == name && namespace' == namespace) || asks (name, namespace) rest

-- The handler behind `Owns` finds the owner that `SetControllerReference` has put down.
abbrev pub FindsOwner : Platform → Handlers → Type 0
FindsOwner P h =
    (owner m : ObjectMeta) (e : Event)
    → P.set_controller_reference owner m ≡ inr (object_of e)
    → asks (owner.name, (object_of e).namespace) (h.for_owner e) ≡ true

-- The kinds of the objects that the reconciliation takes over, but for secrets and Prometheus rules,
-- which have watches of their own.
pub data TakenOver : Kind → Type 0 where
  a_config_map : TakenOver config_map
  a_service : TakenOver service
  a_network_policy : TakenOver network_policy
  a_prometheus : TakenOver prometheus
  an_alertmanager : TakenOver alertmanager
  an_alertmanager_config : TakenOver alertmanager_config

-- What an event on an object of that kind is to lead to.
abbrev pub Answered : {k : Kind} → TakenOver k → ReconcileRequest → List ReconcileRequest → Type 0
Answered a_config_map q asked = asks q asked ≡ true
Answered a_service q asked = asks q asked ≡ true
Answered a_network_policy q asked = asks q asked ≡ true
Answered t q asked = asked ≡ []
