-- ===== src/Scaler/Outcomes.antt =====
-- manualscalertrait_controller.go: when a trait is scaled, and what is reported where it is not.
use oam_kubernetes_runtime.Base.{
  ==_iff, Any, Option, some, ◌⊎◌, GoString, codes, Bool, true, false, Bool-cases, none, List, [],
  ◌∷◌, Result, ok, err, ok_inj, err-ne-ok, Result-cases, All, ◌≡◌, ◌≢◌, ◌↔◌, refl, sym, ap, ◌∙◌,
  subst, inl, inr,
}
use oam_kubernetes_runtime.Api.{reconcile_success, reconcile_error}
use oam_kubernetes_runtime.Scaler.Resources.{
  ManualScalerTrait, Resource, fetch_workload, fetch_workload_child_resources,
}
use oam_kubernetes_runtime.Scaler.{
  FieldSchema, primitive, composite, is_integer, Document, locate_replica_field, Client, Outcome,
  conditioned, fail, scale_resource, scale_loop, scale_resources, report, or_workload,
  reconcile_trait,
}

-- A resource of this kind has an integer at spec.replicas.
abbrev pub HasReplicas : Document → Resource → Type 0
HasReplicas document res =
    document res.object.api_version res.object.kind (codes "spec" ∷ codes "replicas" ∷ [])
    ≡ ok (some (primitive (codes "integer")))

is_integer_iff :
    (r : Result GoString (Option FieldSchema))
    → (is_integer r ≡ true) ↔ (r ≡ ok (some (primitive (codes "integer"))))
unfolding is_integer
is_integer_iff (err e) = (λ h. cc, λ h. cc)
is_integer_iff (ok none) = (λ h. cc, λ h. cc)
is_integer_iff (ok (some composite)) = (λ h. cc, λ h. cc)
is_integer_iff (ok (some (primitive t))) =
    let same = ==_iff t (codes "integer") in
    (λ h. ap (λ x. ok (some (primitive x))) (same.0 h), λ h. same.1 cc)

locate_replica_field-HasReplicas :
    (document : Document) (res : Resource)
    → (locate_replica_field document res ≡ true) ↔ HasReplicas document res
unfolding locate_replica_field
locate_replica_field-HasReplicas document res = is_integer_iff _

module _ {W : Type 0} (cl : Client W) where
  -- The resource was given the trait as an owner and the trait's number of replicas, and was patched.
  abbrev pub ScaledTo : ManualScalerTrait → Resource → W → W → Type 0
  ScaledTo tr res w w' =
      (res' : Resource) × (cl.set_replicas tr.replica_count (cl.add_owner tr.uid res) ≡ ok res')
      × (cl.patch tr.uid res' w ≡ ok w')

  -- Each resource that has replicas was scaled, in the order of the list, and nothing else was changed.
  abbrev pub AllScaled : ManualScalerTrait → Document → List Resource → W → W → Type 0
  AllScaled tr document [] w w' = w' ≡ w
  AllScaled tr document (res ∷ rest) w w' =
      (HasReplicas document res
        × (w₁ : W) × ScaledTo tr res w w₁
        × AllScaled tr document rest w₁ w')
      ⊎ ((¬ HasReplicas document res) × AllScaled tr document rest w w')

  scale_resource-ScaledTo :
      (tr : ManualScalerTrait) (res : Resource) (w w' : W)
      → (scale_resource cl tr res w ≡ ok w') ↔ ScaledTo tr res w w'
  unfolding scale_resource
  scale_resource-ScaledTo tr res w w' =
      elim (Result-cases (cl.set_replicas tr.replica_count (cl.add_owner tr.uid res))) [
        | inr (x, e) ↦
            (λ h. absurd (err-ne-ok _ w' (rw (e, scale_resource) at h)), λ (res', set, _). cc)
        | inl (res₁, e) ↦ elim (Result-cases (cl.patch tr.uid res₁ w)) [
          | inr (x, f) ↦ (
            λ h. absurd (err-ne-ok _ w' (rw (e, f, scale_resource) at h)),
            λ (res', set, patched).
                let same = ok_inj (sym e ∙ set) in
                let again = ap (λ y. cl.patch tr.uid y w) same ∙ patched in cc,
          )
          | inl (w₁, f) ↦ (
            λ h. (res₁, e, f ∙ rw (e, f, scale_resource) at h),
            λ (res', set, patched).
                let same = ok_inj (sym e ∙ set) in
                let again = ap (λ y. cl.patch tr.uid y w) same ∙ patched in
                rw (e, scale_resource) (rw f (sym f ∙ again)),
          )
        ]
      ]

  abbrev pub done : W → Outcome W
  done w = record { wait = false; failure = none; world = w }

  fail-wait : (tr : ManualScalerTrait) (e : GoString) (w : W) → (fail cl tr e w).wait ≡ true
  unfolding fail
  fail-wait tr e w = waits (cl.patch_condition tr (reconcile_error e) w)
    where
      waits : (r : Result GoString W) → (conditioned cl true w r).wait ≡ true
      waits (ok w') = refl
      waits (err x) = refl

  fail-ne-done : (tr : ManualScalerTrait) (e : GoString) (w w' : W) → fail cl tr e w ≢ done w'
  fail-ne-done tr e w w' h = true-ne-false (sym (fail-wait tr e w) ∙ ap (λ o. o.wait) h)
    where
      true-ne-false : true ≢ false
      true-ne-false p = cc

  abbrev Scaled : ManualScalerTrait → Document → Bool → List Resource → W → W → Type 0
  Scaled tr document located resources w w' =
      ((located ≡ true) ⊎ Any (HasReplicas document) resources)
      × AllScaled tr document resources w w'

  -- A resource without replicas leaves the rest to be scaled.
  skipped :
      (tr : ManualScalerTrait) (document : Document) (located : Bool) (res : Resource)
      (rest : List Resource) (w w' : W)
      → locate_replica_field document res ≡ false
      → (scale_loop cl tr document located rest w ≡ done w') ↔ Scaled tr document located rest w w'
      → (scale_loop cl tr document located (res ∷ rest) w ≡ done w')
        ↔ Scaled tr document located (res ∷ rest) w w'
  unfolding scale_loop
  skipped tr document located res rest w w' e ih = (
    λ h.
        let (some_has, all) = ih.0 (rw (e, scale_loop) at h) in
        (elim some_has [ inl l ↦ inl l | inr a ↦ inr (inr a) ], inr (none_here, all)),
    λ h.
        rw (e, scale_loop)
          (ih.1 (
            elim h.0 [
              | inl l ↦ inl l
              | inr (inl here) ↦ absurd (none_here here)
              | inr (inr a) ↦ inr a
            ],
            elim h.1 [ inl k ↦ absurd (none_here k.0) | inr k ↦ k.1 ],
          )),
  )
    where
      none_here : ¬ HasReplicas document res
      none_here h = let yes = (locate_replica_field-HasReplicas document res).1 h in cc (e, yes)

  scaled :
      (tr : ManualScalerTrait) (document : Document) (located : Bool) (res : Resource)
      (rest : List Resource) (w w₁ w' : W)
      → locate_replica_field document res ≡ true
      → scale_resource cl tr res w ≡ ok w₁
      → (scale_loop cl tr document true rest w₁ ≡ done w') ↔ Scaled tr document true rest w₁ w'
      → (scale_loop cl tr document located (res ∷ rest) w ≡ done w')
        ↔ Scaled tr document located (res ∷ rest) w w'
  unfolding scale_loop
  scaled tr document located res rest w w₁ w' e f ih =
      let has = (locate_replica_field-HasReplicas document res).0 e in
      (
        λ h. (
          inr (inl has),
          inl (
            has,
            w₁,
            (scale_resource-ScaledTo tr res w w₁).0 f,
            (ih.0 (rw (e, f, scale_loop) at h)).1,
          ),
        ),
        λ h. elim h.1 [
          | inl (_, w₂, one, all) ↦
              let same = ok_inj (sym ((scale_resource-ScaledTo tr res w w₂).1 one) ∙ f) in
              rw (e, scale_loop)
                (rw f (ih.1 (inl refl, subst (λ x. AllScaled tr document rest x w') same all)))
          | inr (missing, _) ↦ absurd (missing has)
        ],
      )

  scale_refused :
      (tr : ManualScalerTrait) (document : Document) (located : Bool) (res : Resource)
      (rest : List Resource) (w w' : W) (x : GoString)
      → locate_replica_field document res ≡ true
      → scale_resource cl tr res w ≡ err x
      → (scale_loop cl tr document located (res ∷ rest) w ≡ done w')
        ↔ Scaled tr document located (res ∷ rest) w w'
  unfolding scale_loop
  scale_refused tr document located res rest w w' x e f =
      let has = (locate_replica_field-HasReplicas document res).0 e in
      (
        λ h. absurd (fail-ne-done tr x w w' (rw (e, f, scale_loop) at h)),
        λ h. elim h.1 [
          | inl (_, w₂, one, _) ↦
              absurd (err-ne-ok x w₂ (sym f ∙ (scale_resource-ScaledTo tr res w w₂).1 one))
          | inr (missing, _) ↦ absurd (missing has)
        ],
      )

  scale_loop-done :
      (tr : ManualScalerTrait) (document : Document) (located : Bool) (resources : List Resource)
      (w w' : W)
      → (scale_loop cl tr document located resources w ≡ done w')
        ↔ Scaled tr document located resources w w'
  unfolding scale_loop
  scale_loop-done tr document true [] w w' = (λ h. (inl refl, cc), λ h. cc (h.1))
  scale_loop-done tr document false [] w w' = (
    λ h. absurd (fail-ne-done tr (codes "cannot scale the resource") w w' h),
    λ h. elim h.0 [ inl f ↦ cc | inr a ↦ absurd a ],
  )
  scale_loop-done tr document located (res ∷ rest) w w' =
      elim (Bool-cases (locate_replica_field document res)) [
        | inr e ↦
            skipped tr document located res rest w w' e
              (scale_loop-done tr document located rest w w')
        | inl e ↦ elim (Result-cases (scale_resource cl tr res w)) [
          | inl (w₁, f) ↦
              scaled tr document located res rest w w₁ w' e f
                (scale_loop-done tr document true rest w₁ w')
          | inr (x, f) ↦ scale_refused tr document located res rest w w' x e f
        ]
      ]

  scale_loop-unscaled :
      (tr : ManualScalerTrait) (document : Document) (resources : List Resource) (w : W)
      → All (λ r. locate_replica_field document r ≡ false) resources
      → scale_loop cl tr document false resources w
        ≡ fail cl tr (codes "cannot scale the resource") w
  unfolding scale_loop
  scale_loop-unscaled tr document [] w h = refl
  scale_loop-unscaled tr document (res ∷ rest) w h =
      rw (h.0, scale_loop) (scale_loop-unscaled tr document rest w h.1)

  -- Scaling ends well, with neither an error nor a wait, exactly if the API server's document can be
  -- read, the kind of some resource has an integer at spec.replicas, and each resource of such a kind, one
  -- after the other, got the trait as an owner and the trait's number of replicas and was patched
  -- without an error; then these are the changes of the cluster.
  pub scale_resources-done :
      (tr : ManualScalerTrait) (resources : List Resource) (w w' : W)
      → (scale_resources cl tr resources w ≡ done w') ↔ (
          (document : Document) × (cl.open_api w ≡ ok document)
          × Any (HasReplicas document) resources
          × AllScaled tr document resources w w')
  unfolding scale_resources
  scale_resources-done tr resources w w' = elim (Result-cases (cl.open_api w)) [
    | inl (document, e) ↦
        let loop = scale_loop-done tr document false resources w w' in
        (
          λ h.
              let (some_has, all) = loop.0 (rw e at h) in
              (document, e, elim some_has [ inl f ↦ absurd (cc f) | inr a ↦ a ], all),
          λ h.
              let same = ok_inj (sym h.1 ∙ e) in
              rw e (
                loop.1 (
                  subst
                    (λ (d : Document).
                      ((false ≡ true) ⊎ Any (HasReplicas d) resources)
                      × AllScaled tr d resources w w')
                    same (inr h.2, h.3))),
        )
    | inr (x, e) ↦ (λ h. absurd (fail-ne-done tr _ w w' (rw e at h)), λ h. cc (e, h.1))
  ]

  -- A trait none of whose resources has a field for replicas is reported as reconciled, with no error
  -- and no wait, although scaling has failed: where the API server grants that the condition of the
  -- error is written, that of success is written over it.
  pub reconcile_trait-unscaled :
      (tr : ManualScalerTrait) (workload : Resource) (children : List Resource)
      (document : Document) (w w₁ w₂ : W)
      → fetch_workload cl.resources tr w ≡ ok workload
      → fetch_workload_child_resources cl.resources workload w ≡ ok children
      → cl.open_api w ≡ ok document
      → All (λ r. locate_replica_field document r ≡ false) (or_workload cl workload children)
      → cl.patch_condition tr (reconcile_error (codes "cannot scale the resource")) w ≡ ok w₁
      → cl.patch_condition tr reconcile_success w₁ ≡ ok w₂
      → reconcile_trait cl tr w ≡ done w₂
  unfolding reconcile_trait conditioned
  reconcile_trait-unscaled tr workload children document w w₁ w₂ fetched listed opened none_has
        failure success =
      rw (fetched, listed, opened)
        (ap (report cl tr) (
            scale_loop-unscaled tr document (or_workload cl workload children) w none_has
            ∙ ap (conditioned cl true w) failure)
          ∙ ap (conditioned cl false w₁) success)
