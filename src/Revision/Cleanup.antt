-- ===== src/Revision/Cleanup.antt =====
-- component.go, sortedControllerRevision and cleanupControllerRevision: which revisions go.
use oam_kubernetes_runtime.Base.{
  ℕ, zero, suc, ◌+◌, ◌-◌, ◌≤◌, Map, has_key, length, take, drop, keep, All, All-drop, All-keep,
  Bool, true, false, not, Bool-cases, some, List, [], ◌∷◌, map, ◌≡◌, refl, inl, inr, arith, ap,
  Sorter, IsSorted, leb, if◌then◌else◌, GoString, Mem, All-imp, ◌↔◌, lookup,
}
use oam_kubernetes_runtime.Api.{Component, ApplicationConfiguration}
use oam_kubernetes_runtime.Revision.{
  ControllerRevision, Cluster, Call, create, update_status, delete, revision_key, live_hashes,
  cleanup_loop, cleanup_controller_revision, sorted_controller_revision,
}
use oam_kubernetes_runtime.Revision.Live.{
  Pins, Distinct, keys, has_key-Mem, live_hashes-Mem, live_hashes-Distinct, length-keys,
}

-- No application configuration pins the revision.
abbrev pub is_dead : Map Bool → ControllerRevision → Bool
is_dead live r = not (has_key r.name live)

-- The call deletes a revision that nothing pins.
abbrev pub DeletesDead : Map Bool → Call → Type 0
DeletesDead live (create r) = ⊥
DeletesDead live (update_status c) = ⊥
DeletesDead live (delete r) = is_dead live r ≡ true

-- The call deletes a revision that no configuration pins.
abbrev pub DeletesUnpinned : List ApplicationConfiguration → Call → Type 0
DeletesUnpinned configs (create r) = ⊥
DeletesUnpinned configs (update_status c) = ⊥
DeletesUnpinned configs (delete r) = ¬ Pins configs r.name

live_names-Pins :
    (configs : List ApplicationConfiguration) (k : GoString)
    → Mem k (keys (live_hashes [] configs)) ↔ Pins configs k
unfolding has_key lookup
live_names-Pins configs k = (
  λ m. elim ((live_hashes-Mem k configs []).0 ((has_key-Mem k (live_hashes [] configs)).1 m)) [
    | inl e ↦ absurd (ground (arith, e))
    | inr p ↦ p
  ],
  λ p. (has_key-Mem k (live_hashes [] configs)).0 ((live_hashes-Mem k configs []).1 (inr p)),
)

DeletesDead-DeletesUnpinned :
    (configs : List ApplicationConfiguration) (c : Call)
    → DeletesDead (live_hashes [] configs) c
    → DeletesUnpinned configs c
DeletesDead-DeletesUnpinned configs (create r) d = d
DeletesDead-DeletesUnpinned configs (update_status c) d = d
DeletesDead-DeletesUnpinned configs (delete r) d =
    λ p. absurd (ground (arith, d, (live_hashes-Mem r.name configs []).1 (inr p)))

-- The loop, where every deletion is granted, deletes the first revisions that nothing pins.
cleanup_loop-eq-take :
    (cl : Cluster) (live : Map Bool)
    → ((r : ControllerRevision) → cl.delete_ok r ≡ true)
    → (k : ℕ) (rs : List ControllerRevision)
    → cleanup_loop cl live k rs ≡ (map delete (take k (keep (is_dead live) rs)), true)
unfolding cleanup_loop keep
cleanup_loop-eq-take cl live ok zero [] = refl
cleanup_loop-eq-take cl live ok (suc k) [] = refl
cleanup_loop-eq-take cl live ok zero (r ∷ rs) = refl
cleanup_loop-eq-take cl live ok (suc k) (r ∷ rs) =
    ground (
      arith,
      ok r,
      cleanup_loop-eq-take cl live ok (suc k) rs,
      cleanup_loop-eq-take cl live ok k rs,
    )

pub cleanup_loop-DeletesDead :
    (cl : Cluster) (live : Map Bool) (k : ℕ) (rs : List ControllerRevision)
    → All (DeletesDead live) (cleanup_loop cl live k rs).0
      × (length (cleanup_loop cl live k rs).0 ≤ k)
unfolding cleanup_loop
cleanup_loop-DeletesDead cl live zero [] = (tt, omega arith)
cleanup_loop-DeletesDead cl live (suc k) [] = (tt, omega arith)
cleanup_loop-DeletesDead cl live zero (r ∷ rs) = (tt, omega arith)
cleanup_loop-DeletesDead cl live (suc k) (r ∷ rs) = elim (Bool-cases (has_key r.name live)) [
  | inl e ↦ rw e (cleanup_loop-DeletesDead cl live (suc k) rs)
  | inr e ↦ rw e (elim (Bool-cases (cl.delete_ok r)) [
    | inl ok ↦
        let rest = cleanup_loop-DeletesDead cl live k rs in
        rw ok ((ap not e, rest.0), omega (arith, rest.1))
    | inr refused ↦ rw refused ((ap not e, tt), omega arith)
  ])
]

-- The deleted revisions are not newer than what stays.
abbrev pub IsBefore : List ControllerRevision → List ControllerRevision → Type 0
IsBefore deleted kept = All (λ d. All (λ k. revision_key d ≤ revision_key k) kept) deleted

IsSorted-keep :
    (p : ControllerRevision → Bool) (rs : List ControllerRevision)
    → IsSorted revision_key rs
    → IsSorted revision_key (keep p rs)
unfolding keep
IsSorted-keep p [] h = tt
IsSorted-keep p (r ∷ rs) h = elim (Bool-cases (p r)) [
  | inl e ↦ rw e (All-keep _ p rs h.0, IsSorted-keep p rs h.1)
  | inr e ↦ rw e (IsSorted-keep p rs h.1)
]

take-IsBefore :
    (k : ℕ) (rs : List ControllerRevision)
    → IsSorted revision_key rs
    → IsBefore (take k rs) (drop k rs)
take-IsBefore zero rs h = tt
take-IsBefore (suc k) [] h = tt
take-IsBefore (suc k) (r ∷ rs) h = (All-drop _ k rs h.0, take-IsBefore k rs h.1)

-- The list is sorted only if something is to go.
cleanup_loop_over :
    (cl : Cluster) (live : Map Bool)
    → ((r : ControllerRevision) → cl.delete_ok r ≡ true)
    → (k : ℕ) (rs sorted : List ControllerRevision)
    → cleanup_loop cl live k (if leb k 0 then rs else sorted)
      ≡ (map delete (take k (keep (is_dead live) sorted)), true)
cleanup_loop_over cl live ok zero rs sorted = cleanup_loop-eq-take cl live ok zero rs
cleanup_loop_over cl live ok (suc k) rs sorted =
    rw positive (cleanup_loop-eq-take cl live ok (suc k) sorted)
  where
    positive : leb (suc k) 0 ≡ false
    positive = ground arith

module _ (sorter : Sorter revision_key) (limit : ℕ) (cl : Cluster) (cur : Component)
    (revisions : List ControllerRevision) (configs : List ApplicationConfiguration)
    (listed : cl.list_revisions cur.metadata.name ≡ some revisions)
    (pinned : cl.list_app_configs ≡ some configs) where
  -- A cleanup makes no other calls than deletions of revisions that are not pinned, and no
  -- more of them than there are revisions over the limit and the number of pinned names, each name
  -- counted once, whichever deletions the API server grants. A name that is not empty is pinned if
  -- it is the revision name of some component of some application configuration.
  pub cleanup_controller_revision_safe :
      let calls = (cleanup_controller_revision sorter limit cl cur).0 in
      (names : List GoString) × Distinct names
      × ((k : GoString) → Mem k names ↔ Pins configs k)
      × All (DeletesUnpinned configs) calls
      × (length calls ≤ length revisions - (limit + length names))
  unfolding cleanup_controller_revision
  cleanup_controller_revision_safe =
      let live = live_hashes [] configs in
      let (dead, bound) =
        cleanup_loop-DeletesDead cl live (length revisions - (limit + length live))
          (sorted_controller_revision sorter limit cl configs revisions).0 in
      (
        keys live,
        live_hashes-Distinct configs [] tt,
        live_names-Pins configs,
        rw (listed, pinned, cleanup_controller_revision)
            (All-imp _ _ (DeletesDead-DeletesUnpinned configs) _ dead),
        rw (listed, pinned, cleanup_controller_revision) (rw (length-keys live) bound),
      )

  -- If the API server grants every deletion, a cleanup deletes, of the revisions that nothing pins,
  -- as many as are over the limit: a part of the sorted list before which no remaining one comes.
  pub cleanup_controller_revision_oldest :
      ((r : ControllerRevision) → cl.delete_ok r ≡ true)
      → let live = live_hashes [] configs in
        let over = length revisions - (limit + length live) in
        let dead = keep (is_dead live) (sorter.sort revisions) in
        (cleanup_controller_revision sorter limit cl cur ≡ (map delete (take over dead), true))
        × IsBefore (take over dead) (drop over dead)
  unfolding cleanup_controller_revision
  cleanup_controller_revision_oldest ok = (
    rw (listed, pinned, cleanup_controller_revision)
        (cleanup_loop_over cl _ ok (length revisions - (limit + length (live_hashes [] configs)))
          revisions (sorter.sort revisions)),
    take-IsBefore _ _ (IsSorted-keep _ _ (sorter.sort-IsSorted revisions)),
  )
