-- ===== src/Templates/Storage.antt =====
-- templates/noobaa.go.
use mcg_osd_deployer.Base.{true, none, some, [], ◌∷◌}
use mcg_osd_deployer.Cluster.Objects.{NooBaaSpec}

unfoldable pub noobaa_template : NooBaaSpec
noobaa_template = record {
  default_pv_pool = some (record {
    storage_class = "gp2";
    num_volumes = 1;
    volume_resources = record {
      requests = ("storage", "32Gi") ∷ [];
      limits = ("storage", "32Gi") ∷ [];
    };
  });
  endpoints = some (record {
    min_count = 1;
    max_count = 2;
    additional_virtual_hosts = [];
    endpoint_resources = some (record {
      requests = ("cpu", "1") ∷ ("memory", "2Gi") ∷ [];
      limits = ("cpu", "1") ∷ ("memory", "2Gi") ∷ [];
    });
  });
  allow_noobaa_deletion = true;
  confirmation = "confirmed";
  core_resources = none;
  db_resources = none;
  db_volume_resources = none;
  noobaa_image = none;
  db_image = none;
  db_type = "";
}
