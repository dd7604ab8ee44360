-- ===== src/Tests/Helpers.antt =====
-- The theorems on the probe, the scheme and the helpers, at concrete data.
use mcg_osd_deployer.Base.{
  ◌≡◌, refl, ◌↔◌, String, Bool, ◌||◌, true, false, none, some, [], ◌==◌, if◌then◌else◌, is_some,
}
use mcg_osd_deployer.Utils.{add_label, remove_label}
use mcg_osd_deployer.Utils.Labels.{remove_label-add_label}
use mcg_osd_deployer.Cluster.Meta.{get_key}
use mcg_osd_deployer.Cluster.Zero.{fresh}
use mcg_osd_deployer.Cluster.Objects.{managed_mcg, alertmanager_config}
use mcg_osd_deployer.Controller.Status.{are_components_ready}
use mcg_osd_deployer.Readiness.{readyz}
use mcg_osd_deployer.Readiness.Codes.{readyz_codes}
use mcg_osd_deployer.Startup.Scheme.{
  Package, clientgoscheme, noobaa_apis, opv1a1, operatorv1, promv1, promv1a1, noobaav1alpha1, obv1,
  consolev1alpha1, AddsOwn, in_scheme, added, version_of, version_of-in_scheme,
}
use mcg_osd_deployer.Tests.Server.{server}
use mcg_osd_deployer.Tests.Data.{living, alone}

readyz_codes_example :
    let ((e, m), s) =
      (server (alone living)).get managed_mcg (fresh managed_mcg "managedmcg" "ns") [] in
    let code = (readyz (server (alone living)) "managedmcg" "ns" []).0 in
    let all = are_components_ready m.body.status.components in
    ((code ≡ 200) ↔ ((e ≡ none) × (all ≡ true)))
    × ((code ≡ 503) ↔ ((e ≡ none) × (all ≡ false)))
    × ((code ≡ 500) ↔ (is_some e ≡ true))
readyz_codes_example = readyz_codes (server (alone living)) "managedmcg" "ns" []

remove_label-add_label_example :
    let m = living.metadata in
    (get_key "x" (add_label m "k" "v").labels
      ≡ (if "k" == "x" then some "v" else get_key "x" m.labels))
    × (get_key "x" (remove_label (add_label m "k" "v") "k").labels
        ≡ (if "k" == "x" then none else get_key "x" m.labels))
remove_label-add_label_example = remove_label-add_label living.metadata "k" "x" "v"

abbrev documented : Package → String → Bool
documented clientgoscheme v = v == "v1" || (v == "apps/v1" || v == "networking.k8s.io/v1")
documented noobaa_apis v = v == "noobaa.io/v1alpha1"
documented noobaav1alpha1 v = v == "noobaa.io/v1alpha1"
documented opv1a1 v = v == "operators.coreos.com/v1alpha1"
documented operatorv1 v = v == "operator.openshift.io/v1" || v == "config.openshift.io/v1"
documented promv1 v = v == "monitoring.coreos.com/v1"
documented promv1a1 v = v == "monitoring.coreos.com/v1alpha1"
documented obv1 v = v == "objectbucket.io/v1alpha1"
documented consolev1alpha1 v = v == "console.openshift.io/v1alpha1"
documented _ v = false

documented-AddsOwn : AddsOwn documented
documented-AddsOwn = record {
  core = refl;
  apps = refl;
  networking = refl;
  noobaa_own = refl;
  claims = refl;
  operators = refl;
  monitoring = refl;
  monitoring_alpha = refl;
  console_alpha = refl;
  operator_own = refl;
  configuration = refl;
}

version_of-in_scheme_example : in_scheme documented added (version_of alertmanager_config) ≡ true
version_of-in_scheme_example =
    version_of-in_scheme documented documented-AddsOwn alertmanager_config
