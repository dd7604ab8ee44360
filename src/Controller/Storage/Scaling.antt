-- ===== src/Controller/Storage/Scaling.antt =====
-- What the downscaling loop of `reconcileOCSCSV` does to the deployments of a CSV.
use mcg_osd_deployer.Base.{
  zero, suc, ◌≡◌, refl, inl, inr, Bool, true, false, ◌||◌, not, Option, none, some, List, [], ◌∷◌,
  map, if◌then◌else◌, is_some, All, arith, Bool-cases,
}
use mcg_osd_deployer.Base.Int.{ℤ, pos, negsuc, is_zero_ℤ}
use mcg_osd_deployer.Exec.{ok, panic}
use mcg_osd_deployer.Cluster.Monitoring.{StrategyDeploymentSpec}
use mcg_osd_deployer.Controller.Storage.{is_scaled, scale_replicas, scale_one, scale_down}

-- The deployment at zero replicas, if it is one that is scaled down.
abbrev pub zeroed : StrategyDeploymentSpec → StrategyDeploymentSpec
zeroed d = if is_scaled d.deployment_name then record d { replicas = some (pos 0) } else d

-- A pointer to a number other than 0.
abbrev pub runs : Option ℤ → Bool
runs none = false
runs (some n) = not (is_zero_ℤ n)

-- It is to be scaled down and runs replicas.
abbrev pub is_running : StrategyDeploymentSpec → Bool
is_running d = if is_scaled d.deployment_name then runs d.replicas else false

abbrev pub any_running : List StrategyDeploymentSpec → Bool
any_running [] = false
any_running (d ∷ ds) = is_running d || any_running ds

-- Its replicas can be read, if the loop reads them.
abbrev pub HasReplicas : StrategyDeploymentSpec → Type 0
HasReplicas d = is_scaled d.deployment_name ≡ true → is_some d.replicas ≡ true

scale_replicas_lem :
    (d : StrategyDeploymentSpec) (o : Option ℤ)
    → d.replicas ≡ o
    → is_some o ≡ true
    → scale_replicas d o ≡ ok (record d { replicas = some (pos 0) }, runs o)
scale_replicas_lem d none e h = cc
scale_replicas_lem d (some (pos zero)) e h = λ i. ok (record d { replicas = e i }, false)
scale_replicas_lem d (some (pos (suc n))) e h = ground arith
scale_replicas_lem d (some (negsuc n)) e h = refl

scale_one_lem :
    (d : StrategyDeploymentSpec) → HasReplicas d → scale_one d ≡ ok (zeroed d, is_running d)
unfolding scale_one
scale_one_lem d h = elim (Bool-cases (is_scaled d.deployment_name)) [
  | inl t ↦ rw t (scale_replicas_lem d d.replicas refl (h t))
  | inr f ↦ rw f
]

scale_one_panic :
    (d : StrategyDeploymentSpec)
    → is_scaled d.deployment_name ≡ true
    → d.replicas ≡ none
    → scale_one d ≡ panic "nil pointer dereference"
unfolding scale_one
scale_one_panic d t e = rw (t, e)

-- Where the replicas of each deployment that is to be scaled down can be read, the loop sets all of
-- those to 0, leaves every other deployment as it is, keeps their order, and says that it changed
-- something exactly when one of those was not at 0.
pub scale_down_lem :
    (ds : List StrategyDeploymentSpec)
    → All HasReplicas ds
    → scale_down ds ≡ ok (map zeroed ds, any_running ds)
unfolding scale_down
scale_down_lem [] h = refl
scale_down_lem (d ∷ ds) (h, hs) = rw (scale_one_lem d h, scale_down_lem ds hs)

zeroed-HasReplicas : (d : StrategyDeploymentSpec) → HasReplicas d → HasReplicas (zeroed d)
zeroed-HasReplicas d h = elim (Bool-cases (is_scaled d.deployment_name)) [
  | inl t ↦ rw t (λ u. refl)
  | inr f ↦ rw f h
]

zeroed-zeroed : (d : StrategyDeploymentSpec) → zeroed (zeroed d) ≡ zeroed d
zeroed-zeroed d = elim (Bool-cases (is_scaled d.deployment_name)) [
  | inl t ↦ rw (t, t)
  | inr f ↦ rw (f, f)
]

is_running-zeroed : (d : StrategyDeploymentSpec) → is_running (zeroed d) ≡ false
is_running-zeroed d = elim (Bool-cases (is_scaled d.deployment_name)) [
  | inl t ↦ rw (t, t)
  | inr f ↦ rw (f, f)
]

zeroed-All :
    (ds : List StrategyDeploymentSpec) → All HasReplicas ds → All HasReplicas (map zeroed ds)
zeroed-All [] h = tt
zeroed-All (d ∷ ds) (h, hs) = (zeroed-HasReplicas d h, zeroed-All ds hs)

map-zeroed_twice : (ds : List StrategyDeploymentSpec) → map zeroed (map zeroed ds) ≡ map zeroed ds
map-zeroed_twice [] = refl
map-zeroed_twice (d ∷ ds) = rw (zeroed-zeroed, map-zeroed_twice ds)

any_running-zeroed : (ds : List StrategyDeploymentSpec) → any_running (map zeroed ds) ≡ false
any_running-zeroed [] = refl
any_running-zeroed (d ∷ ds) = rw (is_running-zeroed, any_running-zeroed ds)

-- A second pass over what the first has left changes nothing, so the CSV is not updated again.
scale_down_twice :
    (ds out : List StrategyDeploymentSpec) (changed : Bool)
    → All HasReplicas ds
    → scale_down ds ≡ ok (out, changed)
    → scale_down out ≡ ok (out, false)
scale_down_twice ds out changed h e =
    let same : out ≡ map zeroed ds = cc (scale_down_lem ds h, e) in
    rw (same, scale_down_lem _ (zeroed-All ds h), map-zeroed_twice, any_running-zeroed)
