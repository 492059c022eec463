-- ===== src/Reconcile/Gc/Safety.antt =====
-- applicationconfiguration.go, eligible: what is collected, and what never is.
use mathlib.Core.List.{map-append}
use oam_kubernetes_runtime.Base.{
  All-keep, All-map, All-keep_test, All-zip, All-imp, keep_none, Mem-append_left, Mem-append_right,
  All-of_Mem, ℕ, GoString, codes, ==_iff, ==_refl, has_prefix-append, Bool, true, false, not, any,
  List, [], ◌∷◌, ◌++◌, map, keep, keep-append, All, All-append, if◌then◌else◌, ◌≡◌, refl, ap, ◌∙◌,
  arith, inl, inr, append_assoc, join, print_int64, Mem,
}
use oam_kubernetes_runtime.Api.{TypedReference, WorkloadTrait, WorkloadStatus}
use oam_kubernetes_runtime.Api.Value.{Unstructured}
use oam_kubernetes_runtime.Workload.{Workload, Trait, reference_to, status, trait_status}
use oam_kubernetes_runtime.Revision.{construct_revision_name}
use oam_kubernetes_runtime.Reconcile.Gc.{
  ref_eq, trait_refs, applied_refs, is_applied, is_revision_workload, bare, eligible_traits,
  eligible_statuses, eligible,
}

-- The references in the order of the statuses: a workload's, unless it is named as a revision of
-- its component, then its traits'.
abbrev pub status_trait_refs : List WorkloadTrait → List TypedReference
status_trait_refs [] = []
status_trait_refs (t ∷ ts) = t.reference ∷ status_trait_refs ts

unfoldable pub candidates : List WorkloadStatus → List TypedReference
candidates [] = []
candidates (s ∷ ss) =
    let rest = status_trait_refs s.traits ++ candidates ss in
    if is_revision_workload s then rest else s.reference ∷ rest

abbrev pub is_stale : List Workload → TypedReference → Bool
is_stale ws r = not (is_applied (applied_refs ws) r)

eligible_traits-eq :
    (ns : GoString) (applied : List TypedReference) (ts : List WorkloadTrait)
    → eligible_traits ns applied ts
      ≡ map (bare ns) (keep (λ r. not (is_applied applied r)) (status_trait_refs ts))
unfolding eligible_traits keep
eligible_traits-eq ns applied [] = refl
eligible_traits-eq ns applied (t ∷ ts) = ground (arith, eligible_traits-eq ns applied ts)

map-keep-append :
    (ns : GoString) (p : TypedReference → Bool) (xs ys : List TypedReference)
    → map (bare ns) (keep p (xs ++ ys)) ≡ map (bare ns) (keep p xs) ++ map (bare ns) (keep p ys)
map-keep-append ns p xs ys = rw (keep-append p xs ys) (map-append (bare ns) (keep p xs) (keep p ys))

eligible_statuses-eq :
    (ns : GoString) (applied : List TypedReference) (ss : List WorkloadStatus)
    → eligible_statuses ns applied ss
      ≡ map (bare ns) (keep (λ r. not (is_applied applied r)) (candidates ss))
unfolding eligible_statuses candidates keep
eligible_statuses-eq ns applied [] = refl
eligible_statuses-eq ns applied (s ∷ ss) = ground (
  arith,
  eligible_traits-eq ns applied s.traits,
  eligible_statuses-eq ns applied ss,
  map-keep-append ns (λ r. not (is_applied applied r)) (status_trait_refs s.traits) (candidates ss),
)

-- Collected are, in order, the candidates that no workload and no trait of the configuration
-- refers to.
pub eligible-candidates :
    (ns : GoString) (ss : List WorkloadStatus) (ws : List Workload)
    → eligible ns ss ws ≡ map (bare ns) (keep (is_stale ws) (candidates ss))
unfolding eligible
eligible-candidates ns ss ws = eligible_statuses-eq ns (applied_refs ws) ss

ref_eq_refl : (r : TypedReference) → ref_eq r r ≡ true
unfolding ref_eq
ref_eq_refl r = ground (arith, ==_refl r.api_version, ==_refl r.kind, ==_refl r.name, ==_refl r.uid)

is_applied_of_Mem :
    (r : TypedReference) (applied : List TypedReference)
    → Mem r applied
    → is_applied applied r ≡ true
unfolding is_applied any
is_applied_of_Mem r [] m = absurd m
is_applied_of_Mem r (x ∷ applied) (inl e) = rw (← e) (ground (arith, ref_eq_refl r))
is_applied_of_Mem r (x ∷ applied) (inr m) = ground (arith, is_applied_of_Mem r applied m)

Mem-trait_status : (ts : List Trait) → status_trait_refs (map trait_status ts) ≡ trait_refs ts
unfolding trait_status
Mem-trait_status [] = refl
Mem-trait_status (t ∷ ts) = ap (◌∷◌ (reference_to t.object)) (Mem-trait_status ts)

if-All :
    (b : Bool) (P : TypedReference → Type 0) (r : TypedReference) (rs : List TypedReference)
    → P r
    → All P rs
    → All P (if b then rs else r ∷ rs)
if-All true P r rs p h = h
if-All false P r rs p h = (p, h)

candidates-status :
    (ws : List Workload) → All (λ r. Mem r (applied_refs ws)) (candidates (map status ws))
unfolding candidates applied_refs status
candidates-status [] = tt
candidates-status (w ∷ ws) = if-All (is_revision_workload (status w)) _ _ _ (inl refl) (
    rw (Mem-trait_status w.traits) (
      All-append _ (trait_refs w.traits) (candidates (map status ws))
        (All-of_Mem _ (trait_refs w.traits)
          (λ r m. inr (Mem-append_left r (trait_refs w.traits) (applied_refs ws) m)))
        (All-imp _ _ (λ r m. inr (Mem-append_right r (trait_refs w.traits) (applied_refs ws) m))
          (candidates (map status ws)) (candidates-status ws))))

-- In a steady state nothing is garbage: with the statuses of the very workloads that were rendered.
pub eligible-status : (ns : GoString) (ws : List Workload) → eligible ns (map status ws) ws ≡ []
eligible-status ns ws =
    eligible-candidates ns (map status ws) ws
    ∙ ap (map (bare ns)) (
        keep_none (is_stale ws) (candidates (map status ws)) (
          All-imp _ _ (λ r m. ap not (is_applied_of_Mem r (applied_refs ws) m))
            (candidates (map status ws)) (candidates-status ws)))

-- The object has the type and the name of the reference.
abbrev pub RefersTo : TypedReference → Unstructured → Type 0
RefersTo r u = (r.api_version ≡ u.api_version) × (r.kind ≡ u.kind) × (r.name ≡ u.name)

trait_refs-uid : (ts : List Trait) → All (λ r. r.uid ≡ []) (trait_refs ts)
trait_refs-uid [] = tt
trait_refs-uid (t ∷ ts) = (refl, trait_refs-uid ts)

applied_refs-uid : (ws : List Workload) → All (λ r. r.uid ≡ []) (applied_refs ws)
unfolding applied_refs
applied_refs-uid [] = tt
applied_refs-uid (w ∷ ws) = (
  refl,
  All-append _ (trait_refs w.traits) (applied_refs ws) (trait_refs-uid w.traits)
      (applied_refs-uid ws),
)

not_applied-All :
    (ns : GoString) (c : TypedReference)
    → c.uid ≡ []
    → (applied : List TypedReference) → All (λ r. r.uid ≡ []) applied
    → is_applied applied c ≡ false
    → All (λ r. ¬ RefersTo r (bare ns c)) applied
unfolding is_applied any ref_eq
not_applied-All ns c e [] h k = tt
not_applied-All ns c e (r ∷ applied) h k = (
  λ same. absurd (
      ground (
        arith,
        ==_iff c.api_version r.api_version,
        ==_iff c.kind r.kind,
        ==_iff c.name r.name,
        ==_iff c.uid r.uid,
      )),
  not_applied-All ns c e applied h.1 (ground arith),
)

-- Where the statuses carry no UID, as those that the controller writes, no object is collected
-- that a workload or a trait of the configuration has the type and the name of.
pub eligible-not_applied :
    (ns : GoString) (ss : List WorkloadStatus) (ws : List Workload)
    → All (λ r. r.uid ≡ []) (candidates ss)
    → All (λ u. All (λ r. ¬ RefersTo r u) (applied_refs ws)) (eligible ns ss ws)
eligible-not_applied ns ss ws h = rw (eligible-candidates ns ss ws) (
    All-map (bare ns) _ (keep (is_stale ws) (candidates ss)) (
      All-zip _ _ _
        (λ c e stale.
          not_applied-All ns c e (applied_refs ws) (applied_refs-uid ws) (not_true _ stale))
        (keep (is_stale ws) (candidates ss)) (All-keep _ (is_stale ws) (candidates ss) h)
        (All-keep_test (is_stale ws) (candidates ss))))
  where
    not_true : (b : Bool) → not b ≡ true → b ≡ false
    not_true b e = ground arith

-- A workload that is named as a revision of its component is not collected, whatever is applied.
pub is_revision_workload-construct_revision_name :
    (s : WorkloadStatus) (revision : ℕ)
    → s.reference.name ≡ construct_revision_name s.component_name revision
    → is_revision_workload s ≡ true
unfolding is_revision_workload construct_revision_name join
is_revision_workload-construct_revision_name s revision e = rw e (
    rw (← append_assoc s.component_name (codes "-") (codes "v" ++ print_int64 revision))
      (has_prefix-append (s.component_name ++ codes "-") _))
