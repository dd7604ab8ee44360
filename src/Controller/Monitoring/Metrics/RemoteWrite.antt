-- ===== src/Controller/Monitoring/Metrics/RemoteWrite.antt =====
-- What `configureRHOBSRemoteWrite` leaves of the remote write, where it returns.
use mcg_osd_deployer.Base.{
  ◌≡◌, refl, ◌∙◌, sym, ap, String, Option, none, some, List, [], ◌∷◌, ◌⊎◌, inl, inr, ◌==◌,
  Bool-cases, eq_iff, if◌then◌else◌,
}
use mcg_osd_deployer.Base.Dict.{Dict, lookup}
use mcg_osd_deployer.Exec.{errorf, ok, err, pure, lift, panics, ◌>>=◌}
use mcg_osd_deployer.Exec.Runs.{continue_inv, ok-injective}
use mcg_osd_deployer.Cluster.Monitoring.{PrometheusBody, RemoteWriteSpec}
use mcg_osd_deployer.Cluster.Objects.{Resource, secret}
use mcg_osd_deployer.Cluster.Platform.{Platform}
use mcg_osd_deployer.Controller.Reconciler.{
  Config, Reconciler, rhobs_config_id_secret_key, rhobs_config_secret_name,
}
use mcg_osd_deployer.Controller.Calls.{this, get, wrap_error}
use mcg_osd_deployer.Controller.Monitoring.Metrics.{
  require_key, remote_write_to, first_remote_write, remote_write_with, unless_not_found,
  configure_rhobs_remote_write,
}

require_key_lem :
    (key : String) (entries : Dict String) {v : String}
    → require_key key entries ≡ ok v
    → lookup key entries ≡ some v
unfolding require_key
require_key_lem key entries h = go (lookup key entries) h
  where
    go :
        (o : Option String) {v : String}
        → elim o [
          | none ↦ err (errorf "rhobs secret does not contain a value for key")
          | some v ↦ ok v
        ]
          ≡ ok v
        → o ≡ some v
    go none h = cc
    go (some v) h = cc

-- The secret `o` has all that is needed, and the first remote write is filled in from it.
pub record Filled (c : Config) (entries : Dict String) (before after : PrometheusBody)
    : Type 0 where
  pub id : String
  pub password : String
  pub audience : String
  pub first : RemoteWriteSpec
  pub rest : List RemoteWriteSpec
  pub has_id : lookup rhobs_config_id_secret_key entries ≡ some id
  pub has_password : lookup rhobs_config_secret_name entries ≡ some password
  pub has_audience : lookup "rhobs-audience" entries ≡ some audience
  pub was : before.remote_write ≡ first ∷ rest
  pub is : after ≡ record before { remote_write = remote_write_to c audience first ∷ rest }

-- The remote write was taken out because there is no secret `o`, or filled in from it.
abbrev pub IsConfigured : Config → Resource secret → PrometheusBody → PrometheusBody → Type 0
IsConfigured c o before after =
    ((o.metadata.uid ≡ "") × (after ≡ record before { remote_write = [] }))
    ⊎ Filled c o.body before after

module _ (P : Platform) where
  first_remote_write_lem :
      (c : Config) (audience : String) (ws : List RemoteWriteSpec) (w : Reconciler × P.State)
      {out : List RemoteWriteSpec}
      → (first_remote_write P c audience ws w).0 ≡ ok out
      → (first : RemoteWriteSpec) × (rest : List RemoteWriteSpec) × (ws ≡ first ∷ rest)
        × (out ≡ remote_write_to c audience first ∷ rest)
  unfolding pure panics
  first_remote_write_lem c audience [] w h = cc
  first_remote_write_lem c audience (first ∷ rest) w h = (first, rest, refl, cc)

  remote_write_with_lem :
      (c : Config) (entries : Dict String) (spec : PrometheusBody) (w : Reconciler × P.State)
      {out : PrometheusBody}
      → (remote_write_with P c entries spec w).0 ≡ ok out
      → Filled c entries spec out
  unfolding remote_write_with ◌>>=◌ lift pure
  remote_write_with_lem c entries spec w {out} h =
      let (id, e₁, h₁) = continue_inv (require_key rhobs_config_id_secret_key entries) _ _ h in
      let (password, e₂, h₂) = continue_inv (require_key rhobs_config_secret_name entries) _ _ h₁ in
      let (audience, e₃, h₃) = continue_inv (require_key "rhobs-audience" entries) _ _ h₂ in
      let (writes, e₄, h₄) =
        continue_inv (first_remote_write P c audience spec.remote_write w).0 _ _ h₃ in
      let (first, rest, was, same) = first_remote_write_lem c audience spec.remote_write w e₄ in
      record {
        id = id;
        password = password;
        audience = audience;
        first = first;
        rest = rest;
        has_id = require_key_lem rhobs_config_id_secret_key entries e₁;
        has_password = require_key_lem rhobs_config_secret_name entries e₂;
        has_audience = require_key_lem "rhobs-audience" entries e₃;
        was = was;
        is = sym (ok-injective h₄) ∙ ap (λ ws. record spec { remote_write = ws }) same;
      }

  answered_lem :
      (c : Config) (o : Resource secret) (spec : PrometheusBody) (w : Reconciler × P.State)
      {out : PrometheusBody}
      → ((if o.metadata.uid == ""
            then pure (record spec { remote_write = [] })
            else remote_write_with P c o.body spec)
          w).0
        ≡ ok out
      → IsConfigured c o spec out
  unfolding pure
  answered_lem c o spec w h = elim (Bool-cases (o.metadata.uid == "")) [
    | inl t ↦ inl ((eq_iff o.metadata.uid "").0 t, sym (ok-injective (rw t at h)))
    | inr f ↦ inr (remote_write_with_lem c o.body spec w (rw f at h))
  ]

  -- What `configureRHOBSRemoteWrite` does, where it returns.
  pub configure_lem :
      (spec : PrometheusBody) (r : Reconciler) (s : P.State) {out : PrometheusBody}
      → (configure_rhobs_remote_write P spec (r, s)).0 ≡ ok out
      → IsConfigured r.config (P.get secret r.rhobs_remote_write_config_secret s).0.1 spec out
  unfolding configure_rhobs_remote_write ◌>>=◌ this get
  configure_lem spec r s h =
      let ((e, o), s') = P.get secret r.rhobs_remote_write_config_secret s in
      let w₁ = unless_not_found P (wrap_error "error getting" e) (r, s') in
      let (u, e₁, h₁) = continue_inv w₁.0 _ w₁.1 h in answered_lem r.config o spec w₁.1 h₁
