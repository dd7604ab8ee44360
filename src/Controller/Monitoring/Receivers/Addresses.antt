-- ===== src/Controller/Monitoring/Receivers/Addresses.antt =====
-- The loop that collects the addresses ends, with all addresses up to the first gap.
use mcg_osd_deployer.Base.{
  ℕ, zero, suc, ◌≤◌, ◌<◌, ◌≡◌, refl, String, none, some, List, [], ◌∷◌, length, ◌==◌, arith, eq_iff,
  Option-cases, Bool-cases, inl, inr,
}
use text.Mathlib.TextLemmas.{append_cancel_left}
use mcg_osd_deployer.Cluster.Platform.{Platform, IsLawful}
use mcg_osd_deployer.Base.Dict.{Dict, lookup, erase, lookup-erase}
use mcg_osd_deployer.Controller.Monitoring.Receivers.{addresses_from, alerting_address_key}

module _ {V : Type 0} where
  length-erase_le : (k : String) (d : Dict V) → length (erase k d) ≤ length d
  unfolding erase
  length-erase_le k [] = omega arith
  length-erase_le k ((j, v) ∷ d) = ground (arith, length-erase_le k d)

  -- Taking out a key that is there makes the dictionary shorter.
  length-erase :
      (k : String) (d : Dict V) (v : V) → lookup k d ≡ some v → length (erase k d) < length d
  unfolding erase lookup
  length-erase k [] v h = cc
  length-erase k ((j, w) ∷ d) v h = ground (arith, length-erase_le k d, length-erase k d v)

-- The keys from index `i` on are found `n` times, with the values of the list, and then not.
abbrev pub IsRun : (ℕ → String) → Dict String → ℕ → List String → Type 0
IsRun key params i [] = lookup (key i) params ≡ none
IsRun key params i (a ∷ rest) = (lookup (key i) params ≡ some a) × IsRun key params (suc i) rest

module _ (key : ℕ → String) (injective : (i j : ℕ) → key i ≡ key j → i ≡ j) where
  -- Erasing the key of an earlier index does not disturb the later ones.
  lookup-erase_earlier :
      (params : Dict String) (i j : ℕ)
      → i < j
      → lookup (key j) (erase (key i) params) ≡ lookup (key j) params
  lookup-erase_earlier params i j lt = elim (Bool-cases (key i == key j)) [
    | inl t ↦ absurd (omega (arith, injective i j ((eq_iff (key i) (key j)).0 t)))
    | inr f ↦ rw (lookup-erase, f)
  ]

  IsRun-erase :
      (params : Dict String) (i j : ℕ) (out : List String)
      → i < j
      → IsRun key (erase (key i) params) j out
      → IsRun key params j out
  IsRun-erase params i j [] lt h = rw (lookup-erase_earlier params i j lt) at h
  IsRun-erase params i j (a ∷ out) lt h = (
    rw (lookup-erase_earlier params i j lt) at (h.0),
    IsRun-erase params i (suc j) out (omega arith) h.1,
  )

  addresses_from-erase :
      (params : Dict String) (i fuel j : ℕ)
      → i < j
      → addresses_from key (erase (key i) params) fuel j ≡ addresses_from key params fuel j
  unfolding addresses_from
  addresses_from-erase params i zero j lt = refl
  addresses_from-erase params i (suc fuel) j lt =
      rw (
        lookup-erase_earlier params i j lt,
        addresses_from-erase params i fuel (suc j) (omega arith),
      )

  -- With more fuel than there are parameters, the loop ends.
  pub addresses_from_total :
      (params : Dict String) (fuel i : ℕ)
      → length params < fuel
      → (out : List String) × (addresses_from key params fuel i ≡ some out) × IsRun key params i out
  unfolding addresses_from
  addresses_from_total params zero i lt = absurd (omega arith)
  addresses_from_total params (suc fuel) i lt = elim (Option-cases (lookup (key i) params)) [
    | inl e ↦ ([], rw e, e)
    | inr (a, e) ↦
        let shorter = length-erase (key i) params a e in
        let (out, found, run) =
          addresses_from_total (erase (key i) params) fuel (suc i) (omega arith) in
        (
          a ∷ out,
          rw (e, ← addresses_from-erase params i fuel (suc i) (omega arith), found),
          (e, IsRun-erase params i (suc i) out (omega arith) run),
        )
  ]

module _ (P : Platform) (L : IsLawful P) where
  key-injective :
      (i j : ℕ) → alerting_address_key P.sprint i ≡ alerting_address_key P.sprint j → i ≡ j
  unfolding alerting_address_key
  key-injective i j e =
      L.sprint-injective i j
        (append_cancel_left "-" _ _ (append_cancel_left "notification-email" _ _ e))

-- The loop over the addresses ends, whatever the addon's parameters are: its fuel, one round more
-- than there are parameters, is enough. It returns the parameters under `notification-email-0`,
-- `notification-email-1` and so on, up to the first index whose key is missing.
pub alerting_addresses_total :
    (P : Platform) (L : IsLawful P) (params : Dict String)
    → let key = alerting_address_key P.sprint in
      (out : List String) × (addresses_from key params (suc (length params)) 0 ≡ some out)
      × IsRun key params 0 out
alerting_addresses_total P L params =
    addresses_from_total (alerting_address_key P.sprint) (key-injective P L) params
      (suc (length params)) 0 (omega arith)
