-- ===== src/Console/Ports.antt =====
-- The ports of the console's objects, which are numbers of 32 bits.
use mcg_osd_deployer.Base.{ℕ, ◌-◌, ◌≡◌, refl, ◌↔◌, String, false, [], ◌∷◌, inl, arith}
use Prim.Native.Nat.{◌%◌}
use mcg_osd_deployer.Base.Int.{ℤ, pos, negsuc, ltb_ℤ, int32, int32_ℤ}
use mcg_osd_deployer.Cluster.Monitoring.{ServicePort}
use mcg_osd_deployer.Console.{get_service, get_console_plugin_cr}

-- A number of `int32`.
abbrev pub IsInt32 : ℤ → Type 0
IsInt32 n = (ltb_ℤ n (negsuc 2147483647) ≡ false) × (ltb_ℤ (pos 2147483647) n ≡ false)

int32-IsInt32 : (n : ℕ) → IsInt32 (int32 n)
unfolding int32
int32-IsInt32 n = ground arith

int32_ℤ-IsInt32 : (n : ℤ) → IsInt32 (int32_ℤ n)
unfolding int32_ℤ
int32_ℤ-IsInt32 (pos n) = int32-IsInt32 n
int32_ℤ-IsInt32 (negsuc n) = int32-IsInt32 (4294967295 - n % 4294967296)

int32_ℤ_exact : (n : ℤ) → (int32_ℤ n ≡ n) ↔ IsInt32 n
unfolding int32_ℤ int32
int32_ℤ_exact (pos n) = ground arith
int32_ℤ_exact (negsuc n) = ground arith

-- The service of the console and its plugin agree on one port, whatever port is configured. It is a
-- number of 32 bits with a sign, and it is the configured one exactly where that is such a number.
pub console_ports :
    (port : ℤ) (namespace base_path : String)
    → (n : ℤ) × (p : ServicePort) × ((get_service port namespace).body.ports ≡ p ∷ [])
      × (p.port ≡ n)
      × (p.target_port ≡ inl n)
      × ((get_console_plugin_cr port base_path namespace).body.service_port ≡ n)
      × IsInt32 n
      × ((n ≡ port) ↔ IsInt32 port)
unfolding get_service get_console_plugin_cr
console_ports port namespace base_path =
    (int32_ℤ port, _, refl, refl, refl, refl, int32_ℤ-IsInt32 port, int32_ℤ_exact port)
