-- ===== src/Reconcile/Controller/Tests.antt =====
-- A reconciler of one workload in a cluster that knows only whether the Deployment "web" exists.
use oam_kubernetes_runtime.Base.{
  GoString, codes, ◌==◌, ==_iff, Bool, true, false, ◌&&◌, Bool-cases, has_prefix, none, [], ◌∷◌,
  if◌then◌else◌, ok, ok_inj, All, ◌≡◌, refl, ap, sym, ◌∙◌, inl, inr, arith,
}
use oam_kubernetes_runtime.Api.{ApplicationConfiguration}
use oam_kubernetes_runtime.Api.Fieldpath.{found}
use oam_kubernetes_runtime.Api.Value.{Unstructured}
use oam_kubernetes_runtime.Samples.{
  sample_reference, sample_item, sample_configuration, sample_status, sample_workload,
}
use oam_kubernetes_runtime.Workload.{Workload}
use oam_kubernetes_runtime.Reconcile.Gc.{eligible, applied_refs, is_revision_workload}
use oam_kubernetes_runtime.Reconcile.Gc.Safety.{RefersTo, candidates}
use oam_kubernetes_runtime.Reconcile.Tests.{listed}
use oam_kubernetes_runtime.Reconcile.Controller.{
  Reconciler, Removal, removed, Completed, collect, run_live, last_write,
}
use oam_kubernetes_runtime.Reconcile.Controller.Written.{ReturnsStatus, EndsPass, run_live-EndsPass}
use oam_kubernetes_runtime.Reconcile.Controller.Collected.{world_of, collect-eligible}

abbrev is_web : Unstructured → Bool
is_web u = u.api_version == codes "apps/v1" && u.kind == codes "Deployment" && u.name == codes "web"

abbrev delete_from : Unstructured → Bool → Removal Bool
delete_from u w = if is_web u then removed false else removed w

abbrev web : Workload
web = sample_workload (codes "web") [] []

abbrev reconciler : Reconciler Bool
reconciler = record {
  get = λ _ _ _. found (sample_configuration [] []);
  update = λ ac w. ok (ac, w);
  update_status = λ ac w. ok (ac, w);
  delete = delete_from;
  list = λ _ _ _ _ _. ok [];
  render = λ _ _. ok (web ∷ [], []);
  apply = λ _ _ _. (none, true);
  finalize = λ ac w. (none, ac, w);
  gc = eligible;
  pre_hooks = [];
  post_hooks = [];
  finalizers = listed;
  long_wait = 60000000000;
}

abbrev old : ApplicationConfiguration
old =
    sample_configuration (sample_item (codes "web") [] ∷ [])
      (sample_status (codes "gone") [] [] ∷ [])

returns : ReturnsStatus reconciler
returns ac ac' w w' h =
    let same = ok_inj h in
    (
      ap (λ (p : ApplicationConfiguration × Bool). p.0.status) (sym same),
      ap (λ (p : ApplicationConfiguration × Bool). p.0.metadata.generation) (sym same),
    )

run_live-EndsPass_example :
    (c : Completed Bool) × (run_live reconciler old false
      ≡ last_write reconciler c.requeue c.ac c.world)
    × (c.ac.status.observed_generation ≡ c.ac.metadata.generation)
    × EndsPass reconciler old false c
run_live-EndsPass_example = run_live-EndsPass reconciler old false refl tt returns

removed_inj : {v v' : Bool} → ◌≡◌ {A = Removal Bool} (removed v) (removed v') → v ≡ v'
removed_inj h = cc

all_of :
    (a b c : GoString) (s t u : GoString)
    → (a == s && b == t && c == u) ≡ true
    → (s ≡ a) × (t ≡ b) × (u ≡ c)
all_of a b c s t u h = ground (arith, ==_iff a s, ==_iff b t, ==_iff c u)

is_web_refers : (u : Unstructured) → is_web u ≡ true → RefersTo (sample_reference (codes "web")) u
is_web_refers u h =
    all_of u.api_version u.kind u.name (codes "apps/v1") (codes "Deployment") (codes "web") h

keeps_web :
    (u : Unstructured) (v v' : Bool)
    → All (λ ref. ¬ RefersTo ref u) (applied_refs (web ∷ []))
    → v ≡ true
    → delete_from u v ≡ removed v'
    → v' ≡ true
unfolding applied_refs
keeps_web u v v' h p e = elim (Bool-cases (is_web u)) [
  | inl i ↦ absurd (h.0 (is_web_refers u i))
  | inr i ↦ sym (removed_inj (rw i at e)) ∙ p
]

collect-eligible_example :
    world_of
      (collect reconciler old (eligible (codes "default") old.status.workloads (web ∷ [])) true)
    ≡ true
unfolding candidates is_revision_workload has_prefix
collect-eligible_example =
    collect-eligible reconciler (λ w. w ≡ true) old (codes "default") old.status.workloads
      (web ∷ []) true keeps_web (refl, tt) refl
