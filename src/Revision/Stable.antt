-- ===== src/Revision/Stable.antt =====
-- component.go, createControllerRevision: the run after the one that published a revision.
use oam_kubernetes_runtime.Base.{
  ℕ, ◌+◌, ◌%◌, GoString, word, true, false, ◌≡◌, ◌↔◌, refl, is_yes_iff, is_empty, some, List, [],
  ◌∷◌, ◌⊎◌, inl, inr, Sorter, Bool-cases, ltb, signed_key, subst, if◌then◌else◌, join, ap, sym, ◌∙◌,
  arith, not,
}
use oam_kubernetes_runtime.Api.{ObjectMeta, Component, ComponentSpec}
use oam_kubernetes_runtime.Revision.{
  ControllerRevision, component, raw, Cluster, Call, create, update_status, revision_key,
  is_revision_diff, compare_old, spec_eq, ComponentSpec-discrete, unpack_revision_data, with_latest,
  new_revision, publish, create_controller_revision, construct_revision_name,
  cleanup_controller_revision,
}
use oam_kubernetes_runtime.Revision.Published.{create_controller_revision_order}

spec_eq_iff : (s t : ComponentSpec) → (spec_eq s t ≡ true) ↔ (s ≡ t)
unfolding spec_eq
spec_eq_iff s t =
    ((is_yes_iff (ComponentSpec-discrete s t)).0, (is_yes_iff (ComponentSpec-discrete s t)).1)

construct_revision_name-ne : (c : GoString) (r : ℕ) → is_empty (construct_revision_name c r) ≡ false
unfolding construct_revision_name join
construct_revision_name-ne [] r = refl
construct_revision_name-ne (x ∷ c) r = refl

-- The API server has that revision of the component, as the JSON of a component.
abbrev pub IsStored : Cluster → ObjectMeta → ControllerRevision → Component → Type 0
IsStored cl mt rev read =
    (stored : ControllerRevision) × (bytes : GoString) × (cl.get_revision
        (record { namespace = mt.namespace; name = rev.name })
      ≡ some stored)
    × (stored.name ≡ rev.name)
    × (stored.revision ≡ rev.revision)
    × (stored.revision_data ≡ raw bytes)
    × (cl.unmarshal bytes ≡ some read)

compare_old-raw :
    (cl : Cluster) (cur read : Component) (old : ControllerRevision) (bytes : GoString)
    → old.revision_data ≡ raw bytes
    → cl.unmarshal bytes ≡ some read
    → compare_old cl cur old ≡ (not (spec_eq cur.spec read.spec), old.revision)
unfolding compare_old unpack_revision_data
compare_old-raw cl cur read old bytes has_raw decoded =
    rw (has_raw, decoded, compare_old)
      (elim (Bool-cases (spec_eq cur.spec read.spec)) [ inl e ↦ rw e refl | inr e ↦ rw e refl ])

-- Where the latest revision is stored, the difference is that of the specs.
is_revision_diff-stored :
    (cl : Cluster) (mt : ObjectMeta) (cur read : Component) (rev : ControllerRevision)
    → is_empty rev.name ≡ false
    → cur.status.latest_revision ≡ some (record { name = rev.name; revision = rev.revision })
    → IsStored cl mt rev read
    → is_revision_diff cl mt cur ≡ (not (spec_eq cur.spec read.spec), rev.revision)
unfolding is_revision_diff
is_revision_diff-stored cl mt cur read rev named latest
      (stored, bytes, got, same_name, same_number, has_raw, decoded) =
    let named' = ap is_empty same_name ∙ named in
    rw (latest, got, named', is_revision_diff)
      (compare_old-raw cl cur read stored bytes has_raw decoded
        ∙ ap (λ (n : ℕ). (not (spec_eq cur.spec read.spec), n)) same_number)

module _ (sorter : Sorter revision_key) (limit : ℕ) where
  publish-create :
      (cl : Cluster) (name : GoString) (next : ℕ) (comp : Component)
      → (rest : List Call) × ((publish sorter limit cl name next comp).1
          ≡ create (new_revision name next (with_latest comp name next)) ∷ rest)
  unfolding publish
  publish-create cl name next comp =
      let comp' = with_latest comp name next in
      elim (Bool-cases (cl.create_ok (new_revision name next comp'))) [
        | inr refused ↦ ([], rw refused refl)
        | inl made ↦ elim (Bool-cases (cl.update_status_ok comp')) [
          | inr refused ↦ (update_status comp' ∷ [], rw (made, refused) refl)
          | inl done ↦ (
            update_status comp'
                ∷ (if ltb (signed_key limit) (signed_key next)
                    then (cleanup_controller_revision sorter limit cl comp').0
                    else []),
            rw (made, done) refl,
          )
        ]
      ]

  -- The run does nothing, as the spec is the one that was published, or begins with the creation of
  -- the next revision, as it is another.
  abbrev pub Reacts : Cluster → ObjectMeta → Component → ControllerRevision → ComponentSpec → Type 0
  Reacts cl mt cur rev published =
      ((cur.spec ≡ published) × (create_controller_revision sorter limit cl mt cur ≡ (false, [])))
      ⊎ ((¬ (cur.spec ≡ published))
          × (new : ControllerRevision) × (rest : List Call) × (held : Component)
          × ((create_controller_revision sorter limit cl mt cur).1 ≡ create new ∷ rest)
          × (new.revision ≡ (rev.revision + 1) % word)
          × (new.revision_data ≡ component held)
          × (held.spec ≡ cur.spec))

  diff-Reacts :
      (cl : Cluster) (mt : ObjectMeta) (cur : Component) (rev : ControllerRevision)
      (published : ComponentSpec)
      → is_revision_diff cl mt cur ≡ (not (spec_eq cur.spec published), rev.revision)
      → Reacts cl mt cur rev published
  unfolding create_controller_revision with_latest new_revision
  diff-Reacts cl mt cur rev published d = elim (Bool-cases (spec_eq cur.spec published)) [
    | inl e ↦ inl ((spec_eq_iff cur.spec published).0 e, rw (d, e, create_controller_revision) refl)
    | inr e ↦
        let next = (rev.revision + 1) % word in
        let name = construct_revision_name mt.name next in
        let (rest, calls) = publish-create cl name next cur in
        inr (
          (λ same. absurd (ground (arith, e, (spec_eq_iff cur.spec published).1 same))),
          new_revision name next (with_latest cur name next),
          rest,
          with_latest cur name next,
          rw (d, e, create_controller_revision) calls,
          refl,
          refl,
          refl,
        )
  ]

  -- Consider a run that created a revision and requested the component's new status, and a later
  -- run on the component with that status and any spec, where the API server returns the revision
  -- with its name and number and raw JSON, in which json.Unmarshal finds the spec that was
  -- published. If the spec is still that one, the later run makes no call; if it is another, it
  -- begins with the creation of a revision that has the number after and holds the new spec.
  pub create_controller_revision_stable :
      (cl cl' : Cluster) (mt : ObjectMeta) (comp c read : Component) (rev : ControllerRevision)
      (rest : List Call) (spec : ComponentSpec)
      → (create_controller_revision sorter limit cl mt comp).1 ≡ create rev ∷ update_status c ∷ rest
      → IsStored cl' mt rev read
      → read.spec ≡ comp.spec
      → Reacts cl' mt (record c { spec = spec }) rev comp.spec
  create_controller_revision_stable cl cl' mt comp c read rev rest spec run stored same =
      let (rev1, rest1, run1, no_more, made, (is_name, a, b, l, held, m, g, o, latest), follows) =
        create_controller_revision_order sorter limit cl mt comp c (rw run (inr (inl refl))) in
      let one = first_call (sym run1 ∙ run) in
      let d =
        is_revision_diff-stored cl' mt (record c { spec = spec }) read rev1
          (ap is_empty is_name ∙ construct_revision_name-ne mt.name rev1.revision) latest
          (subst (λ r. IsStored cl' mt r read) (sym one) stored) in
      subst (λ r. Reacts cl' mt (record c { spec = spec }) r comp.spec) one
        (subst (Reacts cl' mt (record c { spec = spec }) rev1) same
          (diff-Reacts cl' mt (record c { spec = spec }) rev1 read.spec d))
    where
      first_call :
          {x y : ControllerRevision} {xs ys : List Call} → create x ∷ xs ≡ create y ∷ ys → x ≡ y
      first_call e = cc
