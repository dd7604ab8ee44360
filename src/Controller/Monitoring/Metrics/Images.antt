-- ===== src/Controller/Monitoring/Metrics/Images.antt =====
-- Where the image of the proxy comes from, in `reconcilePrometheus` of controllers/monitoring_alert.go.
use mcg_osd_deployer.Base.{
  ◌≡◌, refl, String, Option, none, some, List, [], ◌∷◌, All, inl, inr, ◌==◌, Bool-cases, eq_iff,
  if◌then◌else◌, arith,
}
use mcg_osd_deployer.Exec.{ok, pure, panics}
use mcg_osd_deployer.Cluster.Monitoring.{Container, StrategyDeploymentSpec}
use mcg_osd_deployer.Cluster.Platform.{Platform}
use mcg_osd_deployer.Controller.Reconciler.{Reconciler}
use mcg_osd_deployer.Controller.Monitoring.Metrics.{
  deployer_deployment, set_proxy_image, containers_of,
}

abbrev pub proxy_name : String
proxy_name = "kube-rbac-proxy"

-- A container of the proxy has the image.
abbrev pub HasImage : String → Container → Type 0
HasImage image c = c.container_name ≡ proxy_name → c.image ≡ image

pub set_proxy_image-HasImage :
    (image : String) (cs : List Container) → All (HasImage image) (set_proxy_image image cs)
unfolding set_proxy_image
set_proxy_image-HasImage image [] = tt
set_proxy_image-HasImage image (c ∷ cs) = (one, set_proxy_image-HasImage image cs)
  where
    one : HasImage image (if c.container_name == proxy_name then record c { image = image } else c)
    one = elim (Bool-cases (c.container_name == proxy_name)) [
      | inl t ↦ rw t (λ e. refl)
      | inr f ↦ rw f (λ e. absurd (ground (arith, f, (eq_iff c.container_name proxy_name).1 e)))
    ]

-- The deployment that is left by the loop has the name of the operator's.
pub deployer_deployment_lem :
    (found : Option StrategyDeploymentSpec) (ds : List StrategyDeploymentSpec)
    {d : StrategyDeploymentSpec}
    → ((d : StrategyDeploymentSpec)
        → found ≡ some d
        → d.deployment_name ≡ "mcg-osd-deployer-controller-manager")
    → deployer_deployment found ds ≡ some d
    → d.deployment_name ≡ "mcg-osd-deployer-controller-manager"
unfolding deployer_deployment
deployer_deployment_lem found [] h e = h _ e
deployer_deployment_lem found (x ∷ ds) h e =
    deployer_deployment_lem
      (if x.deployment_name == "mcg-osd-deployer-controller-manager" then some x else found) ds
      (named found x h) e
  where
    named :
        (found : Option StrategyDeploymentSpec) (x : StrategyDeploymentSpec)
        → ((d : StrategyDeploymentSpec)
            → found ≡ some d
            → d.deployment_name ≡ "mcg-osd-deployer-controller-manager")
        → (d : StrategyDeploymentSpec)
        → (if x.deployment_name == "mcg-osd-deployer-controller-manager" then some x else found)
          ≡ some d
        → d.deployment_name ≡ "mcg-osd-deployer-controller-manager"
    named found x h d e =
        elim (Bool-cases (x.deployment_name == "mcg-osd-deployer-controller-manager")) [
          | inl t ↦
              let same : some x ≡ some d = rw t at e in
              cc (same, (eq_iff x.deployment_name "mcg-osd-deployer-controller-manager").0 t)
          | inr f ↦ h d (rw f at e)
        ]

module _ (P : Platform) where
  pub containers_of_lem :
      (x : Option StrategyDeploymentSpec) (w : Reconciler × P.State) {cs : List Container}
      → (containers_of P x w).0 ≡ ok cs
      → (d : StrategyDeploymentSpec) × (x ≡ some d)
        × (cs ≡ d.containers)
        × ((containers_of P x w).1 ≡ w)
  unfolding pure panics
  containers_of_lem none w h = cc
  containers_of_lem (some d) w h = (d, refl, cc, refl)
