-- ===== src/Startup/Environment.antt =====
-- What `setupEnvMap` reads from the environment, in whatever order Go goes over the map, and what
-- the reconciler's configuration takes from it.
use mcg_osd_deployer.Base.{
  ◌≡◌, refl, ◌↔◌, String, true, Option, List, [], ◌∷◌, All, ◌==◌, if◌then◌else◌, arith, eq_iff,
  Option-cases, Bool-cases, inl, inr, is_some, map, some, ap, ◌∙◌,
}
use mcg_osd_deployer.Base.Dict.{Dict, lookup, insert, lookup-insert}
use mcg_osd_deployer.Exec.{ok}
use mcg_osd_deployer.Exec.Runs.{ok-injective}
use mcg_osd_deployer.Cluster.Meta.{or_empty}
use mcg_osd_deployer.Controller.Setup.{lookup_images}
use mcg_osd_deployer.Utils.{contains}
use mcg_osd_deployer.Startup.{
  namespace_key, reconciler_config, env_keys, blank_env, env_loop, setup_env_map,
}

module _ (look_up_env : String → Option String) where
  -- The variable is set.
  abbrev pub IsGiven : String → Type 0
  IsGiven key = is_some (look_up_env key) ≡ true

  -- The loop returns, and each key that it went over has the environment's value.
  abbrev Reads : List String → Dict String → Type 0
  Reads order env =
      (out : Dict String) × (env_loop look_up_env order env ≡ ok out)
      × ((key : String)
          → lookup key out ≡ (if contains order key then look_up_env key else lookup key env))

  env_loop-Reads : (order : List String) (env : Dict String) → All IsGiven order → Reads order env
  unfolding env_loop contains
  env_loop-Reads [] env h = (env, refl, λ key. refl)
  env_loop-Reads (k ∷ order) env (h, hs) = elim (Option-cases (look_up_env k)) [
    | inl e ↦ cc
    | inr (v, e) ↦
        let (out, run, values) = env_loop-Reads order (insert k v env) hs in
        (
          out,
          rw (env_loop, e) run,
          λ key. ground (arith, values key, lookup-insert k key v env, eq_iff k key, e),
        )
  ]

  env_loop-IsGiven :
      (order : List String) (env out : Dict String)
      → env_loop look_up_env order env ≡ ok out
      → All IsGiven order
  unfolding env_loop
  env_loop-IsGiven [] env out h = tt
  env_loop-IsGiven (k ∷ order) env out h = elim (Option-cases (look_up_env k)) [
    | inl e ↦ let h' = rw (env_loop, e) at h in cc
    | inr (v, e) ↦ (rw e refl, env_loop-IsGiven order (insert k v env) out (rw (env_loop, e) at h))
  ]

pub IsGiven-of_contains :
    (look_up_env : String → Option String) (order : List String) (key : String)
    → contains order key ≡ true
    → All (IsGiven look_up_env) order
    → IsGiven look_up_env key
unfolding contains
IsGiven-of_contains look_up_env [] key c h = cc
IsGiven-of_contains look_up_env (k ∷ order) key c (h, hs) = elim (Bool-cases (k == key)) [
  | inl t ↦ rw ((eq_iff k key).0 t) at h
  | inr f ↦ IsGiven-of_contains look_up_env order key (rw f at c) hs
]

-- The environment map is set up exactly where every variable in the order is set.
pub setup_env_map_exact :
    (look_up_env : String → Option String) (order : List String)
    → ((out : Dict String) × (setup_env_map look_up_env order ≡ ok out))
      ↔ All (IsGiven look_up_env) order
unfolding setup_env_map
setup_env_map_exact look_up_env order = (
  λ (out, e). env_loop-IsGiven look_up_env order (blank_env env_keys) out e,
  λ h. let (out, e, v) = env_loop-Reads look_up_env order (blank_env env_keys) h in (out, e),
)

-- The environment map that is set up has the environment's value, which is set, under each key that
-- the loop goes over, whatever the order is in which it does.
pub setup_env_map_values :
    (look_up_env : String → Option String) (order : List String) (out : Dict String) (key : String)
    → setup_env_map look_up_env order ≡ ok out
    → contains order key ≡ true
    → (lookup key out ≡ look_up_env key) × (is_some (lookup key out) ≡ true)
unfolding setup_env_map
setup_env_map_values look_up_env order out key e c =
    let given = env_loop-IsGiven look_up_env order (blank_env env_keys) out e in
    let (out', e', v) = env_loop-Reads look_up_env order (blank_env env_keys) given in
    let same : out' ≡ out = cc (e, e') in
    let value : lookup key out ≡ look_up_env key = rw (same, c) at (v key) in
    (value, rw value (IsGiven-of_contains look_up_env order key c given))

-- What the environment gives, under each of the keys.
abbrev pub given_env : (String → Option String) → Dict String
given_env look_up_env = map (λ key. (key, or_empty (look_up_env key))) env_keys

pub contains-namespace : contains env_keys namespace_key ≡ true
unfolding contains
contains-namespace = refl

-- The configuration depends on the values of the environment map alone.
pub config_given :
    (look_up_env : String → Option String) (env : Dict String) (images : String × String)
    → ((key : String) → contains env_keys key ≡ true → lookup key env ≡ look_up_env key)
    → reconciler_config env images ≡ reconciler_config (given_env look_up_env) images
unfolding reconciler_config lookup contains
config_given look_up_env env (core, db) value =
    rw
      (
        value "ADDON_NAME" refl,
        value "SOP_ENDPOINT" refl,
        value "ALERT_SMTP_FROM_ADDR" refl,
        value "RHOBS_ENDPOINT" refl,
        value "RH_SSO_TOKEN_ENDPOINT" refl,
        value "ADDON_ENVIRONMENT" refl,
      )
      refl

pub All-IsGiven :
    (look_up_env : String → Option String) (keys order : List String)
    → ((key : String) → contains keys key ≡ true → contains order key ≡ true)
    → All (IsGiven look_up_env) order
    → All (IsGiven look_up_env) keys
unfolding contains
All-IsGiven look_up_env [] order sub h = tt
All-IsGiven look_up_env (k ∷ keys) order sub h = (
  IsGiven-of_contains look_up_env order k (sub k (ground (arith, eq_iff k k))) h,
  All-IsGiven look_up_env keys order (λ key c. sub key (ground (arith, c))) h,
)

pub images_given :
    (look_up_env : String → Option String) {core db : String}
    → look_up_env "NOOBAA_CORE_IMAGE" ≡ some core
    → look_up_env "NOOBAA_DB_IMAGE" ≡ some db
    → lookup_images look_up_env ≡ ok (core, db)
unfolding lookup_images
images_given look_up_env c d = rw (c, d) refl

pub lookup_images_inv :
    (look_up_env : String → Option String) (images : String × String)
    → lookup_images look_up_env ≡ ok images
    → (look_up_env "NOOBAA_CORE_IMAGE" ≡ some images.0)
      × (look_up_env "NOOBAA_DB_IMAGE" ≡ some images.1)
unfolding lookup_images
lookup_images_inv look_up_env images h = elim (Option-cases (look_up_env "NOOBAA_CORE_IMAGE")) [
  | inl c ↦ let h' = rw c at h in cc
  | inr (core, c) ↦ elim (Option-cases (look_up_env "NOOBAA_DB_IMAGE")) [
    | inl d ↦ let h' = rw (c, d) at h in cc
    | inr (db, d) ↦
        let same = ok-injective (rw (c, d) at h) in
        (c ∙ ap (λ x. some x.0) same, d ∙ ap (λ x. some x.1) same)
  ]
]
