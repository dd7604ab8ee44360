-- ===== src/Tests/Races.antt =====
-- The handlers of bucket class events beside reconciliations, at concrete schedules.
use mcg_osd_deployer.Base.{
  ◌≡◌, ◌↔◌, refl, true, false, Option, none, some, List, [], ◌∷◌, ◌==◌, if◌then◌else◌, arith,
}
use mcg_osd_deployer.Cluster.Meta.{get_key}
use mcg_osd_deployer.Cluster.Objects.{Kind, Resource, Kind, bucket_class, object_bucket_claim}
use mcg_osd_deployer.Cluster.Zero.{fresh}
use mcg_osd_deployer.Exec.{Error}
use mcg_osd_deployer.Controller.Shared.{Memory, assigned, renewed}
use mcg_osd_deployer.Controller.Bucket.{
  phase_ready, set_obc_desired_state, claim_as, bucket_class_added,
}
use mcg_osd_deployer.Controller.Bucket.Race.{
  Claim, Action, reconciliation, handler, sent, looked_up, at, run, overtaken, act, handle,
}
use mcg_osd_deployer.Controller.Bucket.Race.Bare.{fetch_overtaken}
use mcg_osd_deployer.Controller.Bucket.Race.Ends.{outcome, undisturbed_outcome, sent_exact}
use mcg_osd_deployer.Controller.Bucket.Round
use mcg_osd_deployer.Controller.Bucket.Round.{Class}
use mcg_osd_deployer.Controller.Bucket.Round.Sound.{round_sound}
use mcg_osd_deployer.Safety.Claims.{existing_claim_kept}
use mcg_osd_deployer.Tests.Server.{not_found, Scenario, server, server-IsLawful}
use mcg_osd_deployer.Tests.Data.{living, annotated, reconciler}

-- The field before anything is allocated.
abbrev memory : {k : Kind} → Memory k
memory {k} = record { objects = λ p. fresh k "" ""; field = 0; next = 0 }

-- No claim is found.
abbrev absent : Claim → Option Claim
absent = some

-- Reconciliations before the claim is named, and after its spec is set.
abbrev calm_schedule : List Action
calm_schedule =
    reconciliation ∷ handler ∷ reconciliation ∷ handler ∷ handler ∷ handler ∷ handler ∷ handler
    ∷ handler ∷ reconciliation ∷ handler ∷ []

-- A reconciliation starts while the claim is fetched.
abbrev racing_schedule : List Action
racing_schedule =
    handler ∷ handler ∷ handler ∷ handler ∷ reconciliation ∷ handler ∷ handler ∷ handler ∷ handler
    ∷ []

undisturbed_outcome_example :
    (run annotated absent calm_schedule (at looked_up memory)).pc
    ≡ outcome
        (set_obc_desired_state "b" annotated).1
        (absent (set_obc_desired_state "b" annotated).0)
unfolding overtaken handle
undisturbed_outcome_example =
    undisturbed_outcome annotated absent calm_schedule memory (omega arith) refl

absent-IsUntouched : (o o' : Claim) → absent o ≡ some o' → o' ≡ o
absent-IsUntouched o o' e = cc

sent_exact_example :
    (fresh object_bucket_claim "b" "team"
      ≡ claim_as (set_obc_desired_state "b" annotated).1 (set_obc_desired_state "b" annotated).0)
    ↔ (overtaken annotated absent racing_schedule (at looked_up memory) ≡ false)
unfolding run fresh act handle assigned renewed get_key
sent_exact_example =
    sent_exact annotated absent racing_schedule memory (fresh object_bucket_claim "b" "team")
      (λ e. cc) absent-IsUntouched refl

-- The class is found by its name.
abbrev by_name : Class → Option Class
by_name o = if o.metadata.name == "" then none else some annotated

abbrev round_schedule : List Round.Action
round_schedule =
    Round.handler ∷ Round.placed ∷ Round.handler ∷ Round.handler ∷ Round.handler ∷ Round.placed
    ∷ Round.handler ∷ Round.handler ∷ []

round_sound_example :
    (found : Class) × (by_name (fresh bucket_class "b" annotated.metadata.namespace) ≡ some found)
    × (found.body.class_phase == phase_ready ≡ true)
unfolding Round.run fresh Round.act Round.step assigned renewed
round_sound_example =
    round_sound annotated.metadata.namespace annotated by_name (λ ns. refl) refl round_schedule
      memory refl

abbrev claims_only : (k : Kind) → Resource k → Option Error × Resource k
claims_only object_bucket_claim o = (none, o)
claims_only k o = (some not_found, o)

-- The server has the claim.
abbrev claimed : Scenario
claimed = record { answer = claims_only; items = λ log k. []; status_error = none }

existing_claim_kept_example :
    (bucket_class_added (server claimed) annotated (reconciler living, [])).1.1 ≡ []
unfolding server-IsLawful
existing_claim_kept_example =
    existing_claim_kept (server claimed) (server-IsLawful claimed) annotated (reconciler living) []
      refl

fetch_overtaken_example :
    (run annotated absent (handler ∷ handler ∷ handler ∷ handler ∷ []) (
      act annotated absent reconciliation (
        run annotated absent
          (handler ∷ handler ∷ handler ∷ handler ∷ [])
          (at looked_up memory)))).pc
    ≡ sent (set_obc_desired_state "b" annotated).0
unfolding run overtaken act handle assigned renewed
fetch_overtaken_example =
    fetch_overtaken annotated absent (handler ∷ handler ∷ handler ∷ handler ∷ [])
      (handler ∷ handler ∷ handler ∷ handler ∷ []) memory 0 refl refl refl (omega arith)
