-- ===== src/Tests/Objects.antt =====
-- The theorems on the monitoring, the console, NooBaa and the start of the program, at concrete data.
use mcg_osd_deployer.Base.{◌≡◌, refl, ◌↔◌, String, Option, some, List, [], ◌∷◌, inl}
use mcg_osd_deployer.Base.Int.{ℤ, negsuc}
use mcg_osd_deployer.Exec.{ok, pure}
use mcg_osd_deployer.Utils.{add_label}
use mcg_osd_deployer.Cluster.Api.{strategy_strict}
use mcg_osd_deployer.Cluster.Monitoring.{ServicePort}
use mcg_osd_deployer.Cluster.Objects.{
  Kind, Resource, NooBaaSpec, noobaa, secret, prometheus, console,
}
use mcg_osd_deployer.Cluster.Zero.{fresh}
use mcg_osd_deployer.Controller.Reconciler.{
  initialize_reconciler, managed_mcg_name, mon_label_key, mon_label_value,
}
use mcg_osd_deployer.Controller.Plugin.{add_plugin, reconcile_console_cluster}
use mcg_osd_deployer.Controller.Plugin.Once.{reconcile_console_cluster_settles}
use mcg_osd_deployer.Controller.Monitoring.Metrics.{prometheus_desired}
use mcg_osd_deployer.Controller.Monitoring.Metrics.Prometheus.{in_namespace_of}
use mcg_osd_deployer.Controller.Setup.{watched_request}
use mcg_osd_deployer.Controller.Setup.Sources.{located, sources_watched}
use mcg_osd_deployer.Console.{get_service, get_console_plugin_cr}
use mcg_osd_deployer.Console.Ports.{IsInt32, console_ports}
use mcg_osd_deployer.Startup.{env_keys}
use mcg_osd_deployer.Startup.Main.{exit_code, main, Completed, main_exact}
use mcg_osd_deployer.Tests.Server.{server, Scenario}
use mcg_osd_deployer.Tests.Data.{
  config, living, alone, selected_rule, reconciler, proxy, environment,
}

console_ports_example :
    let port = negsuc 2147483648 in
    (n : ℤ) × (p : ServicePort) × ((get_service port "ns").body.ports ≡ p ∷ [])
    × (p.port ≡ n)
    × (p.target_port ≡ inl n)
    × ((get_console_plugin_cr port "/" "ns").body.service_port ≡ n)
    × IsInt32 n
    × ((n ≡ port) ↔ IsInt32 port)
console_ports_example = console_ports (negsuc 2147483648) "ns" "/"

abbrev spec : NooBaaSpec
spec = (fresh noobaa "noobaa" "ns").body.spec

sources_watched_example :
    let r = initialize_reconciler config strategy_strict "ns" "managedmcg" in
    let found : Option (String × String) = some (managed_mcg_name, "ns") in
    let m = selected_rule.metadata in
    (watched_request config secret (located m config.addon_param_secret_name "ns") ≡ found)
    × (watched_request config secret
          (located m r.pagerduty_secret.metadata.name r.pagerduty_secret.metadata.namespace)
        ≡ found)
    × (watched_request config secret (
          located m r.dead_mans_snitch_secret.metadata.name
            r.dead_mans_snitch_secret.metadata.namespace)
        ≡ found)
    × (watched_request config secret
          (located m r.smtp_secret.metadata.name r.smtp_secret.metadata.namespace)
        ≡ found)
    × (watched_request config secret (
          located m r.rhobs_remote_write_config_secret.metadata.name
            r.rhobs_remote_write_config_secret.metadata.namespace)
        ≡ found)
    × (watched_request config noobaa
          (located m r.the_noobaa.metadata.name r.the_noobaa.metadata.namespace)
        ≡ found)
sources_watched_example =
    sources_watched config strategy_strict "ns" "managedmcg" selected_rule.metadata

-- A console without plugins, and the same after the operator has added its own.
abbrev a_console : Resource console
a_console = fresh console "cluster" ""

abbrev consoles : (k : Kind) → List (Resource k)
consoles console = add_plugin a_console ∷ []
consoles _ = []

abbrev with_plugin : Scenario
with_plugin = let c = alone living in record c { items = λ log k. consoles k }

reconcile_console_cluster_settles_example :
    reconcile_console_cluster (server with_plugin) (reconciler living, [])
    ≡ (ok tt, (reconciler living, []))
reconcile_console_cluster_settles_example =
    reconcile_console_cluster_settles (server with_plugin) (reconciler living) [] [] [] a_console
      refl

abbrev outfitted : Resource prometheus
outfitted = record {
  metadata = add_label (reconciler living).the_prometheus.metadata mon_label_key mon_label_value;
  body =
      let b = prometheus_desired (proxy ∷ []) (in_namespace_of "ns") in
      record b { remote_write = [] };
}

main_exact_example :
    (exit_code
        (main
          (server (alone living))
          environment
          env_keys
          (λ namespace. pure tt)
          (λ c. pure tt)
          (pure tt)
          []).0
      ≡ 0)
    ↔ Completed
        (server (alone living))
        environment
        env_keys
        (λ namespace. pure tt)
        (λ c. pure tt)
        (pure tt)
        []
main_exact_example =
    main_exact (server (alone living)) environment env_keys (λ namespace. pure tt) (λ c. pure tt)
      (pure tt) [] (λ key. refl)
