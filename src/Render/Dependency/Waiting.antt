-- ===== src/Render/Dependency/Waiting.antt =====
-- render.go, handleDataInput and handleDependency: an object waits exactly if an input is not met.
use oam_kubernetes_runtime.Base.{
  true, false, is_nil, some, List, [], ◌∷◌, ◌++◌, All, lookup, if◌then◌else◌, ok, >>=-eq-ok, ok_inj,
  ◌≡◌, refl, ◌≢◌, sym, ◌∙◌, ap, inl, inr, arith, Option-cases,
}
use oam_kubernetes_runtime.Api.{
  TypedReference, DataOperation, DataInput, UnsatisfiedDependency,
  ApplicationConfigurationComponent,
}
use oam_kubernetes_runtime.Api.Value.{Value, Unstructured}
use oam_kubernetes_runtime.Api.Fieldpath.{Fieldpath, Reader}
use oam_kubernetes_runtime.Workload.{Workload}
use oam_kubernetes_runtime.Render.Conditions.{
  DagSource, DataInputResult, ready, waiting, failure, get_data_input,
}
use oam_kubernetes_runtime.Render.Dependency.{
  Dag, Stage, pass, unmet, broken, and_then, is_no_store, is_blank, store_source,
  handle_data_output_conds, handle_data_store_conds, check_input, named_stage, stored_stage,
  own_stage, handle_data_input, handle_data_output, traits_dependency, handle_dependency,
}

module _ (fp : Fieldpath) (client : Reader) (ac : Unstructured) (dag : Dag) where
  -- The source is ready with some value.
  abbrev pub SourceReady : DagSource → Type 0
  SourceReady s = (v : Value) × (get_data_input fp client s ac false ≡ ready v)

  -- What an input that is met asked for: the data output that it names exists and is ready, and
  -- every operation of the store that it names has a source that is ready.
  abbrev pub InputReady : DataInput → Type 0
  InputReady input =
      (is_blank input.value_from ≡ false
        → (s : DagSource) × (lookup input.value_from dag ≡ some s) × SourceReady s)
      × (is_no_store input.input_store ≡ false
          → All
              (λ oper. SourceReady (
                store_source fp client ac input.input_store.reference.api_version
                  input.input_store.reference.kind input.input_store.reference.name oper))
              input.input_store.operations)

  output_conds-pass :
      (input : DataInput) (obj obj' : Unstructured)
      → handle_data_output_conds fp client ac dag input obj ≡ pass obj'
      → (s : DagSource) × (lookup input.value_from dag ≡ some s) × SourceReady s
  unfolding handle_data_output_conds
  output_conds-pass input obj obj' h = elim (Option-cases (lookup input.value_from dag)) [
    | inl e ↦ absurd (ground (arith, e))
    | inr (s, e) ↦ (s, e, by_result s e (get_data_input fp client s ac false) refl)
  ]
    where
      by_result :
          (s : DagSource)
          → lookup input.value_from dag ≡ some s
          → (r : DataInputResult) → get_data_input fp client s ac false ≡ r
          → SourceReady s
      by_result s e (ready v) q = (v, q)
      by_result s e (waiting t) q = absurd (ground (arith, e, q))
      by_result s e (failure t) q = absurd (ground (arith, e, q))

  store_conds-pass :
      (store : TypedReference) (opers : List DataOperation) (obj obj' : Unstructured)
      → handle_data_store_conds fp client ac store opers obj ≡ pass obj'
      → All
          (λ oper.
            SourceReady (store_source fp client ac store.api_version store.kind store.name oper))
          opers
  unfolding handle_data_store_conds
  store_conds-pass store [] obj obj' h = tt
  store_conds-pass store (oper ∷ opers) obj obj' h =
      by_result
        (get_data_input fp client
          (store_source fp client ac store.api_version store.kind store.name oper) ac false)
        refl (store_conds-pass store opers obj obj')
    where
      by_result :
          (r : DataInputResult)
          → get_data_input fp client
              (store_source fp client ac store.api_version store.kind store.name oper)
              ac
              false
            ≡ r
          → (handle_data_store_conds fp client ac store opers obj ≡ pass obj'
              → All
                  (λ o.
                    SourceReady
                      (store_source fp client ac store.api_version store.kind store.name o))
                  opers)
          → All
              (λ o.
                SourceReady (store_source fp client ac store.api_version store.kind store.name o))
              (oper ∷ opers)
      by_result (ready v) q rest = ((v, q), rest (rw (q, handle_data_store_conds) at h))
      by_result (waiting t) q rest = absurd (ground (arith, q))
      by_result (failure t) q rest = absurd (ground (arith, q))

  and_then-pass :
      (s : Stage) (f : Unstructured → Stage) {obj : Unstructured}
      → and_then s f ≡ pass obj
      → (obj' : Unstructured) × (s ≡ pass obj') × (f obj' ≡ pass obj)
  and_then-pass (pass obj') f h = (obj', refl, h)
  and_then-pass (unmet obj' d) f h = absurd (cc)
  and_then-pass (broken e) f h = absurd (cc)

  check_input-pass :
      (input : DataInput) (obj obj' : Unstructured)
      → check_input fp client ac dag input obj ≡ pass obj'
      → InputReady input
  unfolding check_input
  check_input-pass input obj obj' h =
      let (obj₂, stored, _) =
        and_then-pass
          (and_then (named_stage fp client ac dag input obj) (stored_stage fp client ac input))
          (own_stage fp client ac dag input) h in
      let (obj₁, named, stored') =
        and_then-pass (named_stage fp client ac dag input obj) (stored_stage fp client ac input)
          stored in
      (
        λ e. output_conds-pass input obj obj₁ (rw e at named),
        λ e.
            store_conds-pass input.input_store.reference input.input_store.operations obj₁ obj₂
              (rw e at stored'),
      )

  -- If an object is left waiting for nothing, each of its inputs is met.
  handle_data_input-ready :
      (inputs : List DataInput) (obj obj' : Unstructured)
      → handle_data_input fp client ac dag inputs obj ≡ ok ([], obj')
      → All InputReady inputs
  unfolding handle_data_input
  handle_data_input-ready [] obj obj' h = tt
  handle_data_input-ready (input ∷ inputs) obj obj' h =
      by_stage (check_input fp client ac dag input obj) refl
        (λ o. handle_data_input-ready inputs o obj')
    where
      by_stage :
          (s : Stage)
          → check_input fp client ac dag input obj ≡ s
          → ((o : Unstructured)
              → handle_data_input fp client ac dag inputs o ≡ ok ([], obj')
              → All InputReady inputs)
          → All InputReady (input ∷ inputs)
      by_stage (pass o) q rest =
          (check_input-pass input obj o q, rest o (rw (q, handle_data_input) at h))
      by_stage (unmet o d) q rest = absurd (ground (arith, q))
      by_stage (broken e) q rest = absurd (ground (arith, q))

  dependency_split :
      (w w' : Workload) (acc : ApplicationConfigurationComponent) (uds : List UnsatisfiedDependency)
      → handle_dependency fp client ac w acc dag ≡ ok (uds, w')
      → (in_uds : List UnsatisfiedDependency) × (obj : Unstructured) × (out_uds trait_uds : List
          UnsatisfiedDependency)
        × (handle_data_input fp client ac dag acc.data_inputs w.workload ≡ ok (in_uds, obj))
        × (uds ≡ out_uds ++ (in_uds ++ trait_uds))
        × (w'.has_dep ≡ (if is_nil in_uds then w.has_dep else true))
        × (w'.data_inputs ≡ (if is_nil in_uds then acc.data_inputs else w.data_inputs))
  unfolding handle_dependency
  dependency_split w w' acc uds h =
      let (p, e, h') =
        >>=-eq-ok (handle_data_input fp client ac dag acc.data_inputs w.workload) _ h in
      let (t, e', h'') = >>=-eq-ok (traits_dependency fp client ac dag acc.traits w.traits) _ h' in
      let same = ok_inj h'' in
      (
        p.0,
        p.1,
        (handle_data_output fp client ac dag acc.data_outputs []).0,
        t.0,
        e,
        ap (λ r. r.0) (sym same),
        ap (λ r. r.1.has_dep) (sym same),
        ap (λ r. r.1.data_inputs) (sym same),
      )

  append-ne :
      (xs : List UnsatisfiedDependency) (d : UnsatisfiedDependency)
      (ys : List UnsatisfiedDependency)
      → xs ++ (d ∷ ys) ≢ []
  append-ne [] d ys e = cc
  append-ne (x ∷ xs) d ys e = cc

  -- A workload that was not waiting waits after its dependencies were handled only if something is
  -- reported as unsatisfied; if it does not wait, then every data output that its inputs name
  -- exists and is ready, so is every source of a store that they name, and its inputs are recorded
  -- to be applied.
  pub handle_dependency-has_dep :
      (w w' : Workload) (acc : ApplicationConfigurationComponent) (uds : List UnsatisfiedDependency)
      → w.has_dep ≡ false
      → handle_dependency fp client ac w acc dag ≡ ok (uds, w')
      → (w'.has_dep ≡ true → uds ≢ [])
        × (w'.has_dep ≡ false → All InputReady acc.data_inputs × (w'.data_inputs ≡ acc.data_inputs))
  handle_dependency-has_dep w w' acc uds fresh h =
      let (in_uds, obj, out_uds, trait_uds, e, all_uds, waits, inputs) =
        dependency_split w w' acc uds h in
      by_inputs in_uds obj out_uds trait_uds e all_uds waits inputs
    where
      by_inputs :
          (in_uds : List UnsatisfiedDependency) (obj : Unstructured)
          (out_uds trait_uds : List UnsatisfiedDependency)
          → handle_data_input fp client ac dag acc.data_inputs w.workload ≡ ok (in_uds, obj)
          → uds ≡ out_uds ++ (in_uds ++ trait_uds)
          → w'.has_dep ≡ (if is_nil in_uds then w.has_dep else true)
          → w'.data_inputs ≡ (if is_nil in_uds then acc.data_inputs else w.data_inputs)
          → (w'.has_dep ≡ true → uds ≢ [])
            × (w'.has_dep ≡ false
                → All InputReady acc.data_inputs × (w'.data_inputs ≡ acc.data_inputs))
      by_inputs [] obj out_uds trait_uds e all_uds waits inputs = (
        λ t. absurd (cc (fresh, waits, t)),
        λ _. (handle_data_input-ready acc.data_inputs w.workload obj e, inputs),
      )
      by_inputs (d ∷ ds) obj out_uds trait_uds e all_uds waits inputs = (
        λ _ none_left. append-ne out_uds d (ds ++ trait_uds) (sym all_uds ∙ none_left),
        λ f. absurd (cc (waits, f)),
      )
