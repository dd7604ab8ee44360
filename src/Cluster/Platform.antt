-- ===== src/Cluster/Platform.antt =====
-- What the operator calls and does not implement: the client of the API server, helpers of
-- controller-runtime and apimachinery, the file system. Each call acts on a state that may change
-- with every call, reads included, since others write to the cluster too.
use mcg_osd_deployer.Base.{ℕ, ◌≡◌, String, Bool, true, Option, List, ◌∷◌, ◌⊎◌}
use mcg_osd_deployer.Exec.{Error, wrapf, Exec, ok}
use mcg_osd_deployer.Exec.Keeps.{Keeps}
use mcg_osd_deployer.Cluster.Meta.{ObjectMeta}
use mcg_osd_deployer.Cluster.Monitoring.{RuleGroup}
use mcg_osd_deployer.Cluster.Objects.{Kind, managed_mcg, Resource}

-- A write request to the API server.
pub data Request : Type 0 where
  create_request update_request delete_request status_request : (k : Kind) → Resource k → Request

pub record Platform : Type 1 where
  pub State : Type 0
  -- `Client.Get`: the object after the call, with the error if there is one.
  pub get : (k : Kind) → Resource k → State → (Option Error × Resource k) × State
  -- `Client.List`, in a namespace or in all of them.
  pub list : (k : Kind) → Option String → Exec State (List (Resource k))
  pub create : (k : Kind) → Resource k → Exec State (Resource k)
  pub update : (k : Kind) → Resource k → Exec State (Resource k)
  pub delete : (k : Kind) → Resource k → Exec State (Unit {0})
  pub update_status : Resource managed_mcg → Exec State (Resource managed_mcg)
  -- `controllerutil.CreateOrUpdate`, whose callback may use the caller's variables `R`.
  pub create_or_update :
      {R : Type 0} (k : Kind)
      → Resource k
      → (Resource k → Exec (R × State) (Resource k))
      → Exec (R × State) (Resource k)
  -- `wait.PollImmediate`, with its interval and timeout in seconds.
  pub poll_immediate : ℕ → ℕ → Exec State Bool → Exec State (Unit {0})
  -- `controllerutil.SetControllerReference`, of an owner on the metadata of a resource.
  pub set_controller_reference : ObjectMeta → ObjectMeta → Error ⊎ ObjectMeta
  pub is_not_found : Error → Bool
  pub is_already_exists : Error → Bool
  -- `ioutil.ReadFile`
  pub read_file : String → Error ⊎ String
  -- `net.JoinHostPort`
  pub join_host_port : String → String → String
  -- `fmt.Sprint` of an index.
  pub sprint : ℕ → String
  -- `json.Marshal` of the proxy's static rules, each with its path, resource flag and verb.
  pub marshal_static : List (String × Bool × String) → String
  -- `yaml.Marshal` of one relabeling, by its target label and replacement.
  pub marshal_relabel : String → String → Error ⊎ String
  -- `k8syaml.Unmarshal` of the embedded noobaa-rules.yaml into the groups that are there.
  pub unmarshal_noobaa_rules : List RuleGroup → Error ⊎ List RuleGroup

-- The documented behaviour that theorems rely on. The server's requests can be told apart in a log
-- of writes, newest first; `create_or_update` reads, calls back, and creates or updates its object,
-- and does nothing else; a poll ends well only when its condition has just returned true, and
-- at once where the condition returns true at first; the `errors.Is...` tests see through wrapping.
pub record IsLawful (P : Platform) : Type 1 where
  pub log : P.State → List Request
  pub log-get : (k : Kind) (o : Resource k) (s : P.State) → log (P.get k o s).1 ≡ log s
  pub log-list : (k : Kind) (n : Option String) (s : P.State) → log (P.list k n s).1 ≡ log s
  pub log-create :
      (k : Kind) (o : Resource k) (s : P.State)
      → log (P.create k o s).1 ≡ create_request k o ∷ log s
  pub log-update :
      (k : Kind) (o : Resource k) (s : P.State)
      → log (P.update k o s).1 ≡ update_request k o ∷ log s
  pub log-delete :
      (k : Kind) (o : Resource k) (s : P.State)
      → log (P.delete k o s).1 ≡ delete_request k o ∷ log s
  pub log-update_status :
      (o : Resource managed_mcg) (s : P.State)
      → log (P.update_status o s).1 ≡ status_request managed_mcg o ∷ log s
  pub create_or_update-Keeps :
      {R : Type 0} (I : R × P.State → Type 0) (k : Kind) (o : Resource k)
      (f : Resource k → Exec (R × P.State) (Resource k))
      → ((o : Resource k) → Keeps I (f o))
      → ((o : Resource k) (r : R) (s : P.State) → I (r, s) → I (r, (P.get k o s).1))
      → ((o : Resource k) (r : R) (s : P.State) → I (r, s) → I (r, (P.create k o s).1))
      → ((o : Resource k) (r : R) (s : P.State) → I (r, s) → I (r, (P.update k o s).1))
      → Keeps I (P.create_or_update k o f)
  pub poll_immediate-Keeps :
      (I : P.State → Type 0) (interval timeout : ℕ) (condition : Exec P.State Bool)
      → Keeps I condition
      → Keeps I (P.poll_immediate interval timeout condition)
  pub poll_immediate-done :
      (interval timeout : ℕ) (condition : Exec P.State Bool) (s : P.State)
      → (P.poll_immediate interval timeout condition s).0 ≡ ok tt
      → (s' : P.State) × (condition s'
          ≡ (ok true, (P.poll_immediate interval timeout condition s).1))
  pub poll_immediate-now :
      (interval timeout : ℕ) (condition : Exec P.State Bool) (s s' : P.State)
      → condition s ≡ (ok true, s')
      → P.poll_immediate interval timeout condition s ≡ (ok tt, s')
  pub is_not_found-wrapf :
      (why : String) (e : Error) → P.is_not_found (wrapf why e) ≡ P.is_not_found e
  pub sprint-injective : (i j : ℕ) → P.sprint i ≡ P.sprint j → i ≡ j
  pub is_already_exists-wrapf :
      (why : String) (e : Error) → P.is_already_exists (wrapf why e) ≡ P.is_already_exists e
