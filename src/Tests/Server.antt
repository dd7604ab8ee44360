-- ===== src/Tests/Server.antt =====
-- A server whose answers are fixed by a scenario, and which records the write requests. It shows that
-- the assumptions on the platform can be met.
use text.Mathlib.TextLemmas.{nil≢cons, cons≢nil, tail-eq_of_cons-eq}
use mcg_osd_deployer.Base.{
  ℕ, zero, suc, ◌≡◌, refl, ap, String, ◌<>◌, Bool, true, false, Option, none, some, List, ◌∷◌, inr,
  ◌==◌, if◌then◌else◌,
}
use mcg_osd_deployer.Exec.{
  Error, status, errorf, wrapf, Outcome, ok, err, panic, Exec, raise, ◌>>=◌,
}
use mcg_osd_deployer.Exec.Keeps.{Keeps, Keeps-bind, Keeps-if, Keeps-raise}
use mcg_osd_deployer.Cluster.Objects.{Kind, managed_mcg, Resource}
use mcg_osd_deployer.Cluster.Platform.{
  Platform, IsLawful, Request, create_request, update_request, delete_request, status_request,
}

-- What the server answers: the objects, the same at every time, and the lists, by the requests so far.
pub record Scenario : Type 0 where
  pub answer : (k : Kind) → Resource k → Option Error × Resource k
  pub items : List Request → (k : Kind) → List (Resource k)
  pub status_error : Option Error

abbrev pub not_found : Error
not_found = status "NotFound"

abbrev pub not_found? : Error → Bool
not_found? (status reason) = reason == "NotFound"
not_found? (errorf why) = false
not_found? (wrapf why e) = not_found? e

abbrev pub already_exists? : Error → Bool
already_exists? (status reason) = reason == "AlreadyExists"
already_exists? (errorf why) = false
already_exists? (wrapf why e) = already_exists? e

abbrev pub unary : ℕ → String
unary zero = String.[]
unary (suc n) = String.◌∷◌ "i" (unary n)

pub unary-injective : (i j : ℕ) → unary i ≡ unary j → i ≡ j
unary-injective zero zero e = refl
unary-injective zero (suc j) e = absurd (nil≢cons e)
unary-injective (suc i) zero e = absurd (cons≢nil e)
unary-injective (suc i) (suc j) e = ap suc (unary-injective i j (tail-eq_of_cons-eq e))

abbrev pub writes :
    {k : Kind} {R : Type 0}
    → (Resource k → Request)
    → Resource k
    → Exec (R × List Request) (Resource k)
writes q o (r, log) = (ok o, (r, q o ∷ log))

-- `controllerutil.CreateOrUpdate` after its `Get`, without the test whether anything changed.
abbrev pub apply :
    {R : Type 0} (k : Kind) (f : Resource k → Exec (R × List Request) (Resource k))
    → Option Error × Resource k
    → Exec (R × List Request) (Resource k)
apply k f (none, o) = f o >>= writes (update_request k)
apply k f (some e, o) = if not_found? e then f o >>= writes (create_request k) else raise e

abbrev pub polled : Outcome Bool → Outcome (Unit {0})
polled (ok true) = ok tt
polled (ok false) = err (errorf "timed out waiting for the condition")
polled (err e) = err e
polled (panic why) = panic why

abbrev pub status_answer : Option Error → Resource managed_mcg → Outcome (Resource managed_mcg)
status_answer none o = ok o
status_answer (some e) o = err e

abbrev pub server : Scenario → Platform
server c = record {
  State = List Request;
  get = λ k o log. (c.answer k o, log);
  list = λ k n log. (ok (c.items log k), log);
  create = λ k o log. (ok o, create_request k o ∷ log);
  update = λ k o log. (ok o, update_request k o ∷ log);
  delete = λ k o log. (ok tt, delete_request k o ∷ log);
  update_status = λ o log. (status_answer c.status_error o, status_request managed_mcg o ∷ log);
  create_or_update = λ k o f. apply k f (c.answer k o);
  poll_immediate =
      λ interval timeout condition log. let (x, log') = condition log in (polled x, log');
  set_controller_reference = λ owner m. inr m;
  is_not_found = not_found?;
  is_already_exists = already_exists?;
  read_file = λ path. inr "<html>";
  join_host_port = λ host port. host <> (":" <> port);
  sprint = unary;
  marshal_static = λ rules. "{}";
  marshal_relabel = λ label text. inr (label <> text);
  unmarshal_noobaa_rules = λ groups. inr groups;
}

pub polled-true : (x : Outcome Bool) → polled x ≡ ok tt → x ≡ ok true
polled-true (ok true) h = refl
polled-true (ok false) h = cc
polled-true (err e) h = cc
polled-true (panic why) h = cc

pub apply-Keeps :
    {R : Type 0} (I : R × List Request → Type 0) (k : Kind)
    (f : Resource k → Exec (R × List Request) (Resource k))
    → ((o : Resource k) → Keeps I (f o))
    → ((o : Resource k) (r : R) (s : List Request) → I (r, s) → I (r, create_request k o ∷ s))
    → ((o : Resource k) (r : R) (s : List Request) → I (r, s) → I (r, update_request k o ∷ s))
    → (x : Option Error × Resource k) → Keeps I (apply k f x)
apply-Keeps I k f kf c u (none, o) =
    Keeps-bind (f o) _ (kf o) (λ o'. record { at = λ (r, s) h. u o' r s h })
apply-Keeps I k f kf c u (some e, o) =
    Keeps-if (not_found? e) _ _
      (Keeps-bind (f o) _ (kf o) (λ o'. record { at = λ (r, s) h. c o' r s h })) (Keeps-raise e)

unfoldable pub server-IsLawful : (c : Scenario) → IsLawful (server c)
unfolding ◌>>=◌ raise
server-IsLawful c = record {
  log = λ log. log;
  log-get = λ k o s. refl;
  log-list = λ k n s. refl;
  log-create = λ k o s. refl;
  log-update = λ k o s. refl;
  log-delete = λ k o s. refl;
  log-update_status = λ o s. refl;
  create_or_update-Keeps = λ I k o f kf g cr up. apply-Keeps I k f kf cr up (c.answer k o);
  poll_immediate-Keeps = λ I interval timeout condition k. record { at = λ s h. k.at s h };
  poll_immediate-done = λ interval timeout condition s h.
      (s, λ i. (polled-true (condition s).0 h i, (condition s).1));
  poll_immediate-now = λ interval timeout condition s s' h. rw h refl;
  is_not_found-wrapf = λ why e. refl;
  sprint-injective = unary-injective;
  is_already_exists-wrapf = λ why e. refl;
}
