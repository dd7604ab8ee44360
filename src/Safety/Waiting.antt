-- ===== src/Safety/Waiting.antt =====
-- `removeNoobaa` waits for the bucket classes to be gone before it touches NooBaa.
use mcg_osd_deployer.Base.{
  ◌≡◌, ◌∙◌, sym, subst, refl, ap, ◌⊎◌, inl, inr, String, true, some, List, [], ◌∷◌,
}
use mcg_osd_deployer.Exec.{
  Outcome, ok, err, panic, wrap_outcome, pure, wrapping, ◌>>=◌, continue, for_each,
}
use mcg_osd_deployer.Exec.Runs.{bind_split}
use mcg_osd_deployer.Exec.Keeps.{Keeps, Keeps-for_each}
use mcg_osd_deployer.Cluster.Objects.{Resource, bucket_class}
use mcg_osd_deployer.Cluster.Platform.{Platform, IsLawful, Request, delete_request}
use mcg_osd_deployer.Controller.Reconciler.{Reconciler}
use mcg_osd_deployer.Controller.Calls.{list, delete}
use mcg_osd_deployer.Controller.Uninstall.{
  is_empty, delete_bucket_class, bucket_classes_gone, await_bucket_classes, remove_noobaa,
  remove_noobaa_and_stores,
}
use mcg_osd_deployer.Safety.Within.{Extends, start, more}
use mcg_osd_deployer.Safety.Removal.{gone-Keeps}

-- A deletion of a bucket class.
abbrev pub IsClassDeletion : Request → Type 0
IsClassDeletion (delete_request bucket_class o) = Unit
IsClassDeletion _ = ⊥

is_empty_lem : {A : Type 0} (xs : List A) → is_empty xs ≡ true → xs ≡ []
unfolding is_empty
is_empty_lem [] h = refl
is_empty_lem (x ∷ xs) h = cc

wrapped-ok :
    {A : Type 0} (why : String) (x : Outcome A) {a : A} → wrap_outcome why x ≡ ok a → x ≡ ok a
wrapped-ok why (ok b) h = h
wrapped-ok why (err e) h = cc
wrapped-ok why (panic p) h = cc

module _ (P : Platform) (L : IsLawful P) (namespace : String) where
  gone_outcome :
      (x : Outcome (List (Resource bucket_class))) (s : P.State)
      → (continue (wrap_outcome "error listing" x) (λ items. pure (is_empty items)) s).0 ≡ ok true
      → x ≡ ok []
  unfolding pure
  gone_outcome (ok items) s h = ap ok (is_empty_lem items (cc))
  gone_outcome (err e) s h = cc
  gone_outcome (panic why) s h = cc

  gone_state :
      (x : Outcome (List (Resource bucket_class))) (s : P.State)
      → (continue (wrap_outcome "error listing" x) (λ items. pure (is_empty items)) s).1 ≡ s
  unfolding pure
  gone_state (ok items) s = refl
  gone_state (err e) s = refl
  gone_state (panic why) s = refl

  gone_lem :
      (s t : P.State)
      → bucket_classes_gone P namespace s ≡ (ok true, t)
      → P.list bucket_class (some namespace) s ≡ (ok [], t)
  unfolding bucket_classes_gone ◌>>=◌ wrapping
  gone_lem s t h =
      let (x, s') = P.list bucket_class (some namespace) s in
      λ i. (gone_outcome x s' (ap (λ y. y.0) h) i, (sym (gone_state x s') ∙ ap (λ y. y.1) h) i)

  abbrev Deleting : List Request → Reconciler × P.State → Type 0
  Deleting base (r, s) = (r.namespace ≡ namespace) × Extends IsClassDeletion base (L.log s)

  delete_class-Deleting :
      (base : List Request) (o : Resource bucket_class)
      → Keeps (Deleting base) (delete_bucket_class P o)
  unfolding delete_bucket_class ◌>>=◌ wrapping delete
  delete_class-Deleting base o = record { at = λ (r, s) (n, h). (n, rw L.log-delete (more tt h)) }

  classes-Deleting :
      (base : List Request)
      → Keeps (Deleting base) (wrapping "failed to get the bucketClasses" (list P bucket_class))
  unfolding list wrapping
  classes-Deleting base = record { at = λ (r, s) (n, h). (n, rw L.log-list h) }

  await-Deleting : (base : List Request) → Keeps (Deleting base) (await_bucket_classes P)
  unfolding await_bucket_classes ◌>>=◌ wrapping
  await-Deleting base = record {
    at = λ (r, s) (n, h). (
      n,
      (L.poll_immediate-Keeps (λ s. Extends IsClassDeletion base (L.log s)) 2 10 _
            (gone-Keeps P L IsClassDeletion base r.namespace)).at
          s h,
    );
  }

module _ (P : Platform) (L : IsLawful P) where
  -- If the wait ends well, the last answer of the API server had no bucket class.
  await-gone :
      (r : Reconciler) (s : P.State)
      → (await_bucket_classes P (r, s)).0 ≡ ok tt
      → (s' : P.State) × (P.list bucket_class (some r.namespace) s'
          ≡ (ok [], (await_bucket_classes P (r, s)).1.1))
  unfolding await_bucket_classes ◌>>=◌ wrapping
  await-gone r s h =
      let done = wrapped-ok _ (P.poll_immediate 2 10 (bucket_classes_gone P r.namespace) s).0 h in
      let (s', e) = L.poll_immediate-done 2 10 (bucket_classes_gone P r.namespace) s done in
      (s', gone_lem P L r.namespace s' _ e)

  await-gone_in :
      (r : Reconciler) (s : P.State) (n : String)
      → r.namespace ≡ n
      → (await_bucket_classes P (r, s)).0 ≡ ok tt
      → (s' : P.State) × (P.list bucket_class (some n) s'
          ≡ (ok [], (await_bucket_classes P (r, s)).1.1))
  await-gone_in r s n e h =
      subst
        (λ m.
          (s' : P.State) × (P.list bucket_class (some m) s'
            ≡ (ok [], (await_bucket_classes P (r, s)).1.1)))
        e (await-gone r s h)

-- The run from `before` to `end` went on to NooBaa and the stores right after an answer of the API
-- server that had no bucket class in the operator's namespace, and had only deleted classes before.
abbrev pub WentOn :
    (P : Platform) (L : IsLawful P) → Reconciler × P.State → Reconciler × P.State → Type 0
WentOn P L before end =
    (r' : Reconciler) × (s' : P.State) × (s₁ : P.State) × (P.list bucket_class
        (some before.0.namespace) s'
      ≡ (ok [], s₁))
    × Extends IsClassDeletion (L.log before.1) (L.log s₁)
    × (end ≡ (remove_noobaa_and_stores P (r', s₁)).1)

-- `removeNoobaa` either sends no request but deletions of bucket classes in its whole run, or goes on
-- to NooBaa and the stores right after an answer of the API server that had no bucket class in the
-- operator's namespace, with no request but deletions of bucket classes before that answer.
pub remove_noobaa_waits :
    (P : Platform) (L : IsLawful P) (r : Reconciler) (s : P.State)
    → Extends IsClassDeletion (L.log s) (L.log (remove_noobaa P (r, s)).1.1)
      ⊎ WentOn P L (r, s) (remove_noobaa P (r, s)).1
unfolding remove_noobaa
remove_noobaa_waits P L r s =
    let base : List Request = L.log s in
    let Q : Reconciler × P.State → Type 0 =
      λ w. Extends IsClassDeletion base (L.log w.1) ⊎ WentOn P L (r, s) w in
    let d₁ = (classes-Deleting P L r.namespace base).at (r, s) (refl, start) in
    bind_split Q _ _ (r, s)
      (λ classes e₁.
        let w₁ = (wrapping "failed to get the bucketClasses" (list P bucket_class) (r, s)).1 in
        let d₂ =
          (Keeps-for_each (delete_bucket_class P) classes
              (delete_class-Deleting P L r.namespace base)).at
            w₁ d₁ in
        bind_split Q (for_each (delete_bucket_class P) classes) _ w₁
          (λ u e₂.
            let w₂ = (for_each (delete_bucket_class P) classes w₁).1 in
            let d₃ = (await-Deleting P L r.namespace base).at w₂ d₂ in
            bind_split Q (await_bucket_classes P) _ w₂
              (λ u e₃.
                let (s', e) = await-gone_in P L w₂.0 w₂.1 r.namespace d₂.0 (ap (λ x. x.0) e₃) in
                inr ((await_bucket_classes P w₂).1.0, s', _, e, d₃.1, refl))
              (inl d₃.1))
          (inl d₂.1))
      (inl d₁.1)
