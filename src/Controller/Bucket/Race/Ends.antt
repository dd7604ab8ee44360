-- ===== src/Controller/Bucket/Race/Ends.antt =====
-- When the creation of a claim comes to its end, and what it has then asked for.
use mcg_osd_deployer.Base.{
  ◌≡◌, ◌≢◌, ap, sym, subst, ◌∙◌, ◌↔◌, ◌⊎◌, inl, inr, ℕ, ◌-◌, ◌≤◌, true, false, Option, none, some,
  List, [], ◌∷◌, arith, Bool-cases,
}
use mcg_osd_deployer.Cluster.Objects.{Resource, bucket_class, object_bucket_claim}
use mcg_osd_deployer.Cluster.Zero.{zero_body}
use mcg_osd_deployer.Controller.Shared.{Pointer, Memory}
use mcg_osd_deployer.Controller.Bucket.{set_obc_desired_state, claim_as}
use mcg_osd_deployer.Controller.Bucket.Race.{
  Claim, Pc, looked_up, cleared, with_name, with_namespace, fetching, answered, with_owners,
  with_spec, sent, failed, Race, at, Action, reconciliation, handler, fetched, handle, act, run,
  overtaken, handler_steps,
}
use mcg_osd_deployer.Controller.Bucket.Race.Sent.{target, desired, Alone, run-Alone}
use mcg_osd_deployer.Controller.Bucket.Race.Lost.{
  IsUntouched, Nameless, Specless, Spoilt, overtaken-Spoilt,
}

-- The steps that the handler has still to make.
abbrev pub left : Pc → ℕ
left looked_up = 8
left cleared = 7
left with_name = 6
left with_namespace = 5
left (fetching p) = 4
left (answered p) = 3
left (with_owners p) = 2
left (with_spec p) = 1
left (sent o) = 0
left failed = 0

-- What is handed to the API server, by what the fetch makes of the claim.
abbrev pub outcome : Claim → Option Claim → Pc
outcome wanted none = failed
outcome wanted (some o) = sent (claim_as wanted o)

module _ (bc : Resource bucket_class) (fetch : Claim → Option Claim) where
  left-fetched :
      (p : Pointer) (m : Memory object_bucket_claim) (x : Option Claim)
      → left (fetched bc fetch p m x).pc ≤ 3
  left-fetched p m none = omega arith
  left-fetched p m (some o) = omega arith

  left-handle :
      (p : Pc) (m : Memory object_bucket_claim) → left (handle bc fetch p m).pc ≤ left p - 1
  unfolding handle
  left-handle looked_up m = omega arith
  left-handle cleared m = omega arith
  left-handle with_name m = omega arith
  left-handle with_namespace m = omega arith
  left-handle (fetching p) m = left-fetched p m (fetch (m.objects p))
  left-handle (answered p) m = omega arith
  left-handle (with_owners p) m = omega arith
  left-handle (with_spec p) m = omega arith
  left-handle (sent o) m = omega arith
  left-handle failed m = omega arith

  pub left-run :
      (schedule : List Action) (r : Race)
      → left (run bc fetch schedule r).pc ≤ left r.pc - handler_steps schedule
  unfolding run act
  left-run [] r = omega arith
  left-run (reconciliation ∷ rest) r = left-run rest _
  left-run (handler ∷ rest) r =
      omega (arith, left-run rest (handle bc fetch r.pc r.memory), left-handle r.pc r.memory)

  outcome-Alone :
      (p : Pc) (m : Memory object_bucket_claim)
      → left p ≤ 0
      → Alone bc fetch p m
      → p ≡ outcome (desired bc fetch) (fetch (target bc fetch))
  outcome-Alone looked_up m h a = ground arith
  outcome-Alone cleared m h a = ground arith
  outcome-Alone with_name m h a = ground arith
  outcome-Alone with_namespace m h a = ground arith
  outcome-Alone (fetching p) m h a = ground arith
  outcome-Alone (answered p) m h a = ground arith
  outcome-Alone (with_owners p) m h a = ground arith
  outcome-Alone (with_spec p) m h a = ground arith
  outcome-Alone (sent o) m h (o', f, e) = rw (f, e)
  outcome-Alone failed m h f = rw f

  -- Where the handler makes its eight steps, in between any number of reconciliations none of which
  -- starts after the claim is named and before its spec is set, it hands to the API server what it
  -- would alone: the claim under its name, as its fetch has it, with the desired owners and spec. It
  -- ends without a request exactly where the fetch fails with another error than not-found.
  pub undisturbed_outcome :
      (schedule : List Action) (m : Memory object_bucket_claim)
      → 8 ≤ handler_steps schedule
      → overtaken bc fetch schedule (at looked_up m) ≡ false
      → (run bc fetch schedule (at looked_up m)).pc
        ≡ outcome
            (set_obc_desired_state bc.metadata.name bc).1
            (fetch (set_obc_desired_state bc.metadata.name bc).0)
  undisturbed_outcome schedule m enough calm =
      let r = run bc fetch schedule (at looked_up m) in
      outcome-Alone r.pc r.memory (omega (arith, left-run schedule (at looked_up m)))
        (run-Alone bc fetch schedule (at looked_up m) tt calm)

  sent-Spoilt :
      (o : Claim)
      → bc.metadata.name ≢ ""
      → Nameless o ⊎ Specless o
      → o ≢ claim_as (desired bc fetch) (target bc fetch)
  unfolding set_obc_desired_state claim_as zero_body
  sent-Spoilt o ne (inl e) eq = ne (sym (ap (λ c. c.metadata.name) eq) ∙ e)
  sent-Spoilt o ne (inr e) eq =
      let h = sym (ap (λ c. c.body.additional_config) eq) ∙ ap (λ b. b.additional_config) e in cc

  -- What the handler sends of a claim that is not there yet is the claim with its name, the desired
  -- owners and the desired spec exactly where no reconciliation starts after the claim is named and
  -- before its spec is set. That holds for every schedule and every class with a name.
  pub sent_exact :
      (schedule : List Action) (m : Memory object_bucket_claim) (o : Claim)
      → bc.metadata.name ≢ ""
      → IsUntouched fetch
      → (run bc fetch schedule (at looked_up m)).pc ≡ sent o
      → (o
          ≡ claim_as
              (set_obc_desired_state bc.metadata.name bc).1
              (set_obc_desired_state bc.metadata.name bc).0)
        ↔ (overtaken bc fetch schedule (at looked_up m) ≡ false)
  sent_exact schedule m o ne untouched e =
      let s = at looked_up m in
      let kept : overtaken bc fetch schedule s ≡ false
          → Alone bc fetch (sent o) (run bc fetch schedule s).memory =
        λ w.
          subst (λ p. Alone bc fetch p (run bc fetch schedule s).memory) e
            (run-Alone bc fetch schedule s tt w) in
      let lost : overtaken bc fetch schedule s ≡ true
          → Spoilt bc fetch (sent o) (run bc fetch schedule s).memory =
        λ w.
          subst (λ p. Spoilt bc fetch p (run bc fetch schedule s).memory) e
            (overtaken-Spoilt bc fetch untouched schedule s tt w) in
      (
        λ eq. elim (Bool-cases (overtaken bc fetch schedule s)) [
          | inl w ↦ elim (sent-Spoilt o ne (lost w) eq) [ ]
          | inr w ↦ w
        ],
        λ w. let (o', f, g) = kept w in rw (g, untouched _ o' f),
      )
