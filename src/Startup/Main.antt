-- ===== src/Startup/Main.antt =====
-- `main` of main.go: the steps up to the start of the manager, and when the program ends well.
use mcg_osd_deployer.Base.{
  ◌≡◌, refl, sym, ◌∙◌, ap, subst, ℕ, String, true, Option, some, List, All, ◌↔◌, Bool-cases, inl,
  inr,
}
use mcg_osd_deployer.Base.Dict.{Dict}
use mcg_osd_deployer.Utils.{contains}
use mcg_osd_deployer.Cluster.Meta.{or_empty}
use mcg_osd_deployer.Startup.Environment.{
  given_env, contains-namespace, config_given, All-IsGiven, images_given, lookup_images_inv,
  IsGiven, setup_env_map_exact, setup_env_map_values,
}
use mcg_osd_deployer.Exec.{Outcome, ok, err, panic, Exec, lift, wrapping, wrap_outcome, ◌>>=◌, ◌>>◌}
use mcg_osd_deployer.Exec.Runs.{bind_inv, wrap_outcome-ok}
use mcg_osd_deployer.Cluster.Objects.{Resource, managed_mcg}
use mcg_osd_deployer.Cluster.Platform.{Platform}
use mcg_osd_deployer.Controller.Reconciler.{Config}
use mcg_osd_deployer.Controller.Setup.{lookup_images, setup_with_manager}
use mcg_osd_deployer.Startup.{
  namespace_key, env_keys, env_value, setup_env_map, reconciler_config, initial_managed_mcg,
  created_or_there, ensure_managed_mcg,
}

-- The exit code of the program: `os.Exit(1)` after an error, and 2 after a panic.
unfoldable pub exit_code : Outcome (Unit {0}) → ℕ
exit_code (ok u) = 0
exit_code (err e) = 1
exit_code (panic why) = 2

exit_code-zero : (x : Outcome (Unit {0})) → exit_code x ≡ 0 → x ≡ ok tt
unfolding exit_code
exit_code-zero (ok tt) h = refl
exit_code-zero (err e) h = cc
exit_code-zero (panic why) h = cc

-- The making of the manager for a namespace, the registration of the reconciler, and the run of the
-- manager are calls of controller-runtime.
module _ (P : Platform) (look_up_env : String → Option String) (order : List String)
    (new_manager : String → Exec P.State (Unit {0})) (complete : Config → Exec P.State (Unit {0}))
    (run_manager : Exec P.State (Unit {0})) where
  -- A health check that cannot be added is only logged, so that the checks are left out.
  unfoldable pub main : Exec P.State (Unit {0})
  unfolding ◌>>=◌ lift setup_env_map setup_with_manager reconciler_config ensure_managed_mcg
  main = do
    env ← lift (setup_env_map look_up_env order)
    new_manager (env_value env namespace_key)
    setup_with_manager complete look_up_env (reconciler_config env)
    ensure_managed_mcg P env
    run_manager

  -- The resource was created, or was there.
  abbrev pub IsThere : Outcome (Resource managed_mcg) → Type 0
  IsThere (ok m) = Unit {0}
  IsThere (err e) = P.is_already_exists e ≡ true
  IsThere (panic why) = ⊥

  -- The states after the manager is made for a namespace and after the reconciler is registered with a
  -- configuration, and the answer of the API server to the creation of the ManagedMCG.
  abbrev pub managed : String → P.State → P.State
  managed namespace s = (new_manager namespace s).1

  abbrev pub registered : String → Config → P.State → P.State
  registered namespace c s = (complete c (managed namespace s)).1

  abbrev pub answered : String → Config → P.State → Outcome (Resource managed_mcg) × P.State
  answered namespace c s =
      P.create managed_mcg (initial_managed_mcg namespace) (registered namespace c s)

  -- The calls all end without an error, but that the ManagedMCG may be there already.
  pub record Served (namespace : String) (c : Config) (s : P.State) : Type 0 where
    pub is_managed : (new_manager namespace s).0 ≡ ok tt
    pub is_registered : (complete c (managed namespace s)).0 ≡ ok tt
    pub is_there : IsThere (answered namespace c s).0
    pub has_run : (run_manager (answered namespace c s).1).0 ≡ ok tt

  -- Every variable of the environment is set, both images are, and the calls end well for the namespace
  -- and the configuration that they give.
  pub record Completed (s : P.State) : Type 0 where
    pub is_given : All (IsGiven look_up_env) env_keys
    pub core_image : String
    pub has_core : look_up_env "NOOBAA_CORE_IMAGE" ≡ some core_image
    pub db_image : String
    pub has_db : look_up_env "NOOBAA_DB_IMAGE" ≡ some db_image
    pub is_served :
        Served
          (or_empty (look_up_env namespace_key))
          (reconciler_config (given_env look_up_env) (core_image, db_image))
          s

  IsThere-of_ok : (x : Outcome (Resource managed_mcg)) → created_or_there P x ≡ ok tt → IsThere x
  unfolding created_or_there
  IsThere-of_ok (ok m) h = tt
  IsThere-of_ok (err e) h = elim (Bool-cases (P.is_already_exists e)) [
    | inl t ↦ t
    | inr f ↦ let h' = rw f at h in cc
  ]
  IsThere-of_ok (panic why) h = cc

  ok_of_there : (x : Outcome (Resource managed_mcg)) → IsThere x → created_or_there P x ≡ ok tt
  unfolding created_or_there
  ok_of_there (ok m) h = refl
  ok_of_there (err e) h = rw h refl
  ok_of_there (panic why) h = absurd h

  setup_run :
      (configured : String × String → Config) (s : P.State) (images : String × String)
      → lookup_images look_up_env ≡ ok images
      → let (x, s') = complete (configured images) s in
        setup_with_manager complete look_up_env configured s
        ≡ (wrap_outcome "error setting up ManagedMCG controller" x, s')
  unfolding setup_with_manager ◌>>=◌ lift wrapping
  setup_run configured s images e = rw e refl

  images_of_setup :
      (configured : String × String → Config) (s : P.State)
      → (setup_with_manager complete look_up_env configured s).0 ≡ ok tt
      → (images : String × String) × (lookup_images look_up_env ≡ ok images)
  unfolding setup_with_manager lift
  images_of_setup configured s h =
      let (images, e, h') = bind_inv (lift (lookup_images look_up_env)) _ s h in
      (images, ap (λ x. x.0) e)

  main_inv :
      (s : P.State)
      → (main s).0 ≡ ok tt
      → (env : Dict String) × (images : String × String) × (setup_env_map look_up_env order
          ≡ ok env)
        × (lookup_images look_up_env ≡ ok images)
        × Served (env_value env namespace_key) (reconciler_config env images) s
  unfolding main lift ensure_managed_mcg
  main_inv s h =
      let (env, e₁, h₁) = bind_inv (lift (setup_env_map look_up_env order)) _ s h in
      let namespace = env_value env namespace_key in
      let (u₂, e₂, h₂) = bind_inv (new_manager namespace) _ s h₁ in
      let setup = setup_with_manager complete look_up_env (reconciler_config env) in
      let (u₃, e₃, h₃) = bind_inv setup _ (managed namespace s) h₂ in
      let (images, i) =
        images_of_setup (reconciler_config env) (managed namespace s) (ap (λ x. x.0) e₃) in
      let run = setup_run (reconciler_config env) (managed namespace s) images i in
      let (u₄, e₄, h₄) = bind_inv (ensure_managed_mcg P env) _ _ h₃ in
      let create = λ (s : P.State). P.create managed_mcg (initial_managed_mcg namespace) s in
      (
        env,
        images,
        ap (λ x. x.0) e₁,
        i,
        record {
          is_managed = ap (λ x. x.0) e₂;
          is_registered =
              wrap_outcome-ok "error setting up ManagedMCG controller" _
                (ap (λ x. x.0) (sym run ∙ e₃));
          is_there =
              IsThere-of_ok _
                (ap (λ x. created_or_there P (create x.1).0) (sym run) ∙ ap (λ x. x.0) e₄);
          has_run = ap (λ x. (run_manager (create x.1).1).0) (sym run) ∙ h₄;
        },
      )

  main_run :
      (s : P.State) (env : Dict String) (images : String × String)
      → setup_env_map look_up_env order ≡ ok env
      → lookup_images look_up_env ≡ ok images
      → Served (env_value env namespace_key) (reconciler_config env images) s
      → (main s).0 ≡ ok tt
  unfolding main lift ensure_managed_mcg ◌>>=◌
  main_run s env images has_env has_images c =
      rw
        (
          has_env,
          c.is_managed,
          setup_run (reconciler_config env) (managed (env_value env namespace_key) s) images
              has_images,
          c.is_registered,
          ok_of_there _ c.is_there,
        )
        c.has_run

  -- The environment map that the loop sets up gives the namespace and the configuration of the
  -- environment.
  Served-given :
      (s : P.State) (env : Dict String) (images : String × String)
      → ((key : String) → contains order key ≡ contains env_keys key)
      → setup_env_map look_up_env order ≡ ok env
      → Served (env_value env namespace_key) (reconciler_config env images) s
        ≡ Served
            (or_empty (look_up_env namespace_key))
            (reconciler_config (given_env look_up_env) images)
            s
  Served-given s env images each e =
      let value = λ (key : String) (c : contains env_keys key ≡ true).
        (setup_env_map_values look_up_env order env key e (each key ∙ c)).0 in
      λ i.
        Served (or_empty (value namespace_key contains-namespace i))
          (config_given look_up_env env images value i) s

  -- The loop goes over each variable of the environment, in whatever order. Then the program ends
  -- with the exit code 0 exactly where every variable of the environment and both images are set, the
  -- manager is made for the namespace of the environment, the reconciler that the environment's values
  -- and the images configure is registered, the ManagedMCG is created there or is there already, and
  -- the manager then runs to its end without an error, in this order.
  pub main_exact :
      (s : P.State)
      → ((key : String) → contains order key ≡ contains env_keys key)
      → (exit_code (main s).0 ≡ 0) ↔ Completed s
  unfolding exit_code
  main_exact s each = (
    λ h.
        let (env, images, e, i, served) = main_inv s (exit_code-zero (main s).0 h) in
        let (core, db) = lookup_images_inv look_up_env images i in
        record {
          is_given =
              All-IsGiven look_up_env env_keys order (λ key c. each key ∙ c)
                ((setup_env_map_exact look_up_env order).0 (env, e));
          core_image = images.0;
          has_core = core;
          db_image = images.1;
          has_db = db;
          is_served = subst (λ (A : Type 0). A) (Served-given s env images each e) served;
        },
    λ c.
        let (env, e) =
          (setup_env_map_exact look_up_env order).1
            (All-IsGiven look_up_env order env_keys (λ key k. sym (each key) ∙ k) c.is_given) in
        let images : String × String = (c.core_image, c.db_image) in
        let served =
          subst (λ (A : Type 0). A) (sym (Served-given s env images each e)) c.is_served in
        rw (main_run s env images e (images_given look_up_env c.has_core c.has_db) served) refl,
  )
