-- ===== src/Cluster/Api.antt =====
-- The types of api/v1alpha1/managedmcg_types.go.
use mcg_osd_deployer.Base.{String, Bool, true, false}

-- `ReconcileStrategy` is a string; `none` and `strict` are its constants.
pub data ReconcileStrategy : Type 0 where
  strategy_none strategy_strict : ReconcileStrategy
  strategy_other : String → ReconcileStrategy

-- `ComponentState` is a string with four constants; a fresh status has `other ""`.
pub data ComponentState : Type 0 where
  ready pending not_found unknown : ComponentState
  other : String → ComponentState

-- `state == ComponentReady`
abbrev pub is_component_ready : ComponentState → Bool
is_component_ready ready = true
is_component_ready _ = false

-- `state == ComponentNotFound`
abbrev pub is_component_not_found : ComponentState → Bool
is_component_not_found not_found = true
is_component_not_found _ = false

pub record ComponentStatusMap : Type 0 where
  pub noobaa : ComponentState
  pub prometheus : ComponentState
  pub alertmanager : ComponentState
  pub console : ComponentState

pub record ManagedMcgStatus : Type 0 where
  pub reconcile_strategy : ReconcileStrategy
  pub components : ComponentStatusMap

pub record ManagedMcgBody : Type 0 where
  pub spec_strategy : ReconcileStrategy
  pub status : ManagedMcgStatus
