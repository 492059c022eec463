-- ===== src/Revision/Published.antt =====
-- component.go, createControllerRevision: which revision a run publishes, and in which order.
use oam_kubernetes_runtime.Base.{
  ℕ, ◌+◌, ◌%◌, GoString, word, true, ◌≡◌, refl, is_empty, Option, none, some, List, [], ◌∷◌, Mem,
  Mem_of_All, ◌⊎◌, inl, inr, Sorter, Bool-cases, Option-cases, ltb, signed_key, if◌then◌else◌,
  is_yes_iff, ap, sym, subst, ◌∙◌, arith,
}
use oam_kubernetes_runtime.Api.{ObjectMeta, Revision, Component}
use oam_kubernetes_runtime.Revision.{
  ControllerRevision, component, Cluster, Call, create, update_status, revision_key,
  is_revision_diff, compare_old, spec_eq, ComponentSpec-discrete, unpack_revision_data, with_latest,
  new_revision, publish, create_controller_revision, construct_revision_name,
  cleanup_controller_revision, live_hashes,
}
use oam_kubernetes_runtime.Revision.Cleanup.{DeletesDead, cleanup_loop-DeletesDead}

-- The revision holds that component, which is the given one with a status that names the revision.
abbrev pub IsRevisionOf : ObjectMeta → Component → ControllerRevision → Component → Type 0
IsRevisionOf mt comp rev c =
    (rev.name ≡ construct_revision_name mt.name rev.revision)
    × (rev.namespace ≡ comp.metadata.namespace)
    × (rev.owner_uid ≡ comp.metadata.uid)
    × (rev.component_label ≡ comp.metadata.name)
    × (rev.revision_data ≡ component c)
    × (c.metadata ≡ comp.metadata)
    × (c.spec ≡ comp.spec)
    × (c.status.observed_generation ≡ comp.metadata.generation)
    × (c.status.latest_revision ≡ some (record { name = rev.name; revision = rev.revision }))

-- The API server's copy of a component's latest revision.
abbrev latest_of : Cluster → ObjectMeta → GoString → Option ControllerRevision
latest_of cl mt name = cl.get_revision (record { namespace = mt.namespace; name = name })

-- The revision is not one that can be read and holds the component's spec.
abbrev pub Differs : Cluster → Component → ControllerRevision → Type 0
Differs cl comp old =
    ¬ ((o : Component) × (unpack_revision_data cl old ≡ some o) × (comp.spec ≡ o.spec))

-- The number is 1 for a component without a revision, and otherwise follows that of its latest
-- revision: as the API server has it, or as the status has it if the API server has none. A
-- revision that the API server has differs from the component.
abbrev pub Follows : Cluster → ObjectMeta → Component → ℕ → Type 0
Follows cl mt comp n =
    ((comp.status.latest_revision ≡ none) × (n ≡ 1))
    ⊎ ((latest : Revision) × (comp.status.latest_revision ≡ some latest)
        × (((latest_of cl mt latest.name ≡ none) × (n ≡ (latest.revision + 1) % word))
            ⊎ ((old : ControllerRevision) × (latest_of cl mt latest.name ≡ some old)
                × (((old.name ≡ []) × (n ≡ (latest.revision + 1) % word))
                    ⊎ (Differs cl comp old × (n ≡ (old.revision + 1) % word))))))

compare_old-Differs :
    (cl : Cluster) (comp : Component) (old : ControllerRevision)
    → (compare_old cl comp old).0 ≡ true
    → Differs cl comp old × ((compare_old cl comp old).1 ≡ old.revision)
unfolding compare_old spec_eq
compare_old-Differs cl comp old h = elim (Option-cases (unpack_revision_data cl old)) [
  | inl e ↦ ((λ (o, f, same). absurd (ground (arith, e, f))), rw (e, compare_old) refl)
  | inr (o, e) ↦ elim (Bool-cases (spec_eq comp.spec o.spec)) [
    | inl same ↦ absurd (ground (arith, rw (e, same, compare_old) at h))
    | inr other ↦ (
      (λ (o', f, same). absurd (
          ground (
            arith,
            other,
            (is_yes_iff (ComponentSpec-discrete comp.spec o.spec)).1
                (same ∙ ap (λ (c : Component). c.spec) (some_inj (sym f ∙ e))),
          ))),
      rw (e, other, compare_old) refl,
    )
  ]
]
  where
    some_inj : {A : Type 0} {x y : A} → ◌≡◌ {A = Option A} (some x) (some y) → x ≡ y
    some_inj p = cc

is_revision_diff-Follows :
    (cl : Cluster) (mt : ObjectMeta) (comp : Component)
    → (is_revision_diff cl mt comp).0 ≡ true
    → Follows cl mt comp (((is_revision_diff cl mt comp).1 + 1) % word)
unfolding is_revision_diff
is_revision_diff-Follows cl mt comp h = elim (Option-cases comp.status.latest_revision) [
  | inl e ↦ inl (e, rw (e, is_revision_diff) refl)
  | inr (latest, e) ↦ inr (
    latest,
    e,
    elim (Option-cases (latest_of cl mt latest.name)) [
      | inl f ↦ inl (f, rw (e, f, is_revision_diff) refl)
      | inr (old, f) ↦ inr (
        old,
        f,
        elim (Bool-cases (is_empty old.name)) [
          | inl empty ↦ inl (is_empty-eq old.name empty, rw (e, f, empty, is_revision_diff) refl)
          | inr named ↦
              let (differs, number) =
                compare_old-Differs cl comp old (rw (e, f, named, is_revision_diff) at h) in
              inr (differs, rw (e, f, named, is_revision_diff) (ap (λ k. (k + 1) % word) number))
        ],
      )
    ],
  )
]
  where
    is_empty-eq : (s : GoString) → is_empty s ≡ true → s ≡ []
    is_empty-eq [] p = refl
    is_empty-eq (x ∷ s) p = cc

module _ (sorter : Sorter revision_key) (limit : ℕ) (cl : Cluster) where
  cleanup-no_update :
      (cur c : Component)
      → ¬ Mem (update_status c) (cleanup_controller_revision sorter limit cl cur).0
  unfolding cleanup_controller_revision
  cleanup-no_update cur c = elim (Option-cases (cl.list_revisions cur.metadata.name)) [
    | inl e ↦ rw (e, cleanup_controller_revision) (λ m. m)
    | inr (revisions, e) ↦ elim (Option-cases cl.list_app_configs) [
      | inl f ↦ rw (e, f, cleanup_controller_revision) (λ m. m)
      | inr (configs, f) ↦
          rw (e, f, cleanup_controller_revision)
            λ m.
              Mem_of_All (DeletesDead (live_hashes [] configs)) _ _
                (cleanup_loop-DeletesDead cl _ _ _).0 m
    ]
  ]

  cleanup_if-no_update :
      (next : ℕ) (cur c : Component)
      → ¬ Mem (update_status c) (
          if ltb (signed_key limit) (signed_key next)
          then (cleanup_controller_revision sorter limit cl cur).0
          else [])
  cleanup_if-no_update next cur c = elim (Bool-cases (ltb (signed_key limit) (signed_key next))) [
    | inl e ↦ rw e (cleanup-no_update cur c)
    | inr e ↦ rw e (λ m. m)
  ]

  -- What `publish` does, where it updates a status.
  publish-shape :
      (name : GoString) (next : ℕ) (comp c : Component)
      → let rev = new_revision name next (with_latest comp name next) in
        let calls = (publish sorter limit cl name next comp).1 in
        Mem (update_status c) calls
        → (rest : List Call) × (calls ≡ create rev ∷ update_status c ∷ rest)
          × ((d : Component) → ¬ Mem (update_status d) rest)
          × (cl.create_ok rev ≡ true)
          × (with_latest comp name next ≡ c)
  unfolding publish
  publish-shape name next comp c m =
      let comp' = with_latest comp name next in
      let rev = new_revision name next comp' in
      elim (Bool-cases (cl.create_ok rev)) [
        | inr refused ↦ absurd (not_created (rw refused at m))
        | inl made ↦ elim (Bool-cases (cl.update_status_ok comp')) [
          | inr refused ↦
              let same = updated [] (λ k. k) (rw (made, refused) at m) in
              rw (made, refused)
                ([], ap (λ d. create rev ∷ update_status d ∷ []) same, (λ d k. k), refl, same)
          | inl done ↦
              let tail =
                if ltb (signed_key limit) (signed_key next)
                then (cleanup_controller_revision sorter limit cl comp').0
                else [] in
              let same = updated tail (cleanup_if-no_update next comp' c) (rw (made, done) at m) in
              rw (made, done)
                (
                  tail,
                  ap (λ d. create rev ∷ update_status d ∷ tail) same,
                  cleanup_if-no_update next comp',
                  refl,
                  same,
                )
        ]
      ]
    where
      updated :
          (rest : List Call)
          → ¬ Mem (update_status c) rest
          → Mem (update_status c) (
              create (new_revision name next (with_latest comp name next))
              ∷ update_status (with_latest comp name next)
              ∷ rest)
          → with_latest comp name next ≡ c
      updated rest none_left (inl e) = cc
      updated rest none_left (inr (inl e)) = cc
      updated rest none_left (inr (inr k)) = absurd (none_left k)

      not_created :
          Mem (update_status c) (create (new_revision name next (with_latest comp name next)) ∷ [])
          → ⊥
      not_created (inl e) = cc
      not_created (inr k) = k

  -- Where a run requests a status update, it requests it right after the creation of the revision
  -- that the status names, which was granted, and no further one. The revision holds the component
  -- with the new status. Its number is 1 for a component without a latest revision, and otherwise
  -- the one after the number of the latest revision: that of the API server's copy, whose component
  -- cannot be read or has another spec, or that in the status, if the API server has no named copy.
  pub create_controller_revision_order :
      (mt : ObjectMeta) (comp c : Component)
      → Mem (update_status c) (create_controller_revision sorter limit cl mt comp).1
      → (rev : ControllerRevision) × (rest : List Call) × ((create_controller_revision sorter limit
            cl mt comp).1
          ≡ create rev ∷ update_status c ∷ rest)
        × ((d : Component) → ¬ Mem (update_status d) rest)
        × (cl.create_ok rev ≡ true)
        × IsRevisionOf mt comp rev c
        × Follows cl mt comp rev.revision
  unfolding create_controller_revision with_latest new_revision
  create_controller_revision_order mt comp c m = elim (Bool-cases (is_revision_diff cl mt comp).0) [
    | inr d ↦ absurd (rw (d, create_controller_revision) at m)
    | inl d ↦
        let next = ((is_revision_diff cl mt comp).1 + 1) % word in
        let name = construct_revision_name mt.name next in
        let (rest, calls, no_more, made, same) =
          publish-shape name next comp c (rw (d, create_controller_revision) at m) in
        (
          new_revision name next (with_latest comp name next),
          rest,
          rw (d, create_controller_revision) calls,
          no_more,
          made,
          subst (IsRevisionOf mt comp (new_revision name next (with_latest comp name next))) same
              (refl, refl, refl, refl, refl, refl, refl, refl, refl),
          is_revision_diff-Follows cl mt comp d,
        )
  ]
