-- ===== src/Render/Components/Workloads.antt =====
-- render.go, renderWorkload: the labels of a rendered workload before it has a name.
use oam_kubernetes_runtime.Base.{
  GoString, List, [], ◌∷◌, Result, ok, err, >>=-eq-ok, ok_inj, ◌≡◌, refl, subst,
}
use oam_kubernetes_runtime.Api.{IntOrString, int_val, str_val, Component, ApplicationConfiguration}
use oam_kubernetes_runtime.Api.Value.{Unstructured}
use oam_kubernetes_runtime.Util.{resource_type_workload}
use oam_kubernetes_runtime.Util.Merge.{IsMap?}
use oam_kubernetes_runtime.Render.Params.{Parameter}
use oam_kubernetes_runtime.Render.Components.{
  Renderer, RenderError, set_param, unmarshal_workload_error, lift, set_path, set_field_paths,
  set_parameters, render_workload, comp_info_labels, with_origin, base_workload,
}
use oam_kubernetes_runtime.Render.Components.Labelled.{Documented, HasOrigin, with_origin-HasOrigin}

pub lift-ok :
    {E A : Type 0} (f : E → RenderError) (q : Result E A) (a : A) → lift f q ≡ ok a → q ≡ ok a
unfolding lift
lift-ok f (ok x) a h = cc
lift-ok f (err e) a h = cc

module _ (r : Renderer) (documented : Documented r) where
  field_paths-IsMap :
      (p : Parameter) (paths : List GoString) (w w' : Unstructured)
      → IsMap? w.labels
      → set_field_paths r p paths w ≡ ok w'
      → IsMap? w'.labels
  unfolding set_field_paths
  field_paths-IsMap p [] w w' m h = subst (λ (u : Unstructured). IsMap? u.labels) (ok_inj h) m
  field_paths-IsMap p (path ∷ paths) w w' m h =
      let (w₁, set, later) =
        >>=-eq-ok (lift (λ _. set_param p.name) (set_path r p.value w path)) _ h in
      field_paths-IsMap p paths w₁ w'
        (at_path p.value w₁ (lift-ok _ (set_path r p.value w path) w₁ set)) later
    where
      at_path :
          (v : IntOrString) (w₁ : Unstructured) → set_path r v w path ≡ ok w₁ → IsMap? w₁.labels
      at_path (str_val s) w₁ e = documented.set_string-IsMap w w₁ path s m e
      at_path (int_val n) w₁ e = documented.set_number-IsMap w w₁ path n m e

  parameters-IsMap :
      (ps : List Parameter) (w w' : Unstructured)
      → IsMap? w.labels
      → set_parameters r ps w ≡ ok w'
      → IsMap? w'.labels
  unfolding set_parameters
  parameters-IsMap [] w w' m h = subst (λ (u : Unstructured). IsMap? u.labels) (ok_inj h) m
  parameters-IsMap (p ∷ ps) w w' m h =
      let (w₁, set, later) = >>=-eq-ok (set_field_paths r p p.field_paths w) _ h in
      parameters-IsMap ps w₁ w' (field_paths-IsMap p p.field_paths w w₁ m set) later

  render_workload-IsMap :
      (raw : GoString) (ps : List Parameter) (w : Unstructured)
      → render_workload r raw ps ≡ ok w
      → IsMap? w.labels
  unfolding render_workload
  render_workload-IsMap raw ps w h =
      let (u, parsed, later) =
        >>=-eq-ok (lift unmarshal_workload_error (r.unmarshal_object raw)) _ h in
      parameters-IsMap ps u w
        (documented.unmarshal-IsMap raw u (lift-ok _ (r.unmarshal_object raw) u parsed)) later

  module _ (ac : ApplicationConfiguration) (distinct : IsMap? ac.metadata.labels) where
    pub base_workload-HasOrigin :
        (component revision : GoString) (c : Component) (ps : List Parameter) (w : Unstructured)
        → base_workload r ac component revision c ps ≡ ok w
        → HasOrigin ac component revision resource_type_workload w
    unfolding base_workload
    base_workload-HasOrigin component revision c ps w h =
        let (u, made, same) = >>=-eq-ok (render_workload r c.spec.workload ps) _ h in
        let labels = comp_info_labels r ac component revision resource_type_workload in
        subst (HasOrigin ac component revision resource_type_workload) (ok_inj same) (
          with_origin-HasOrigin r ac component revision resource_type_workload u distinct
            (render_workload-IsMap c.spec.workload ps u made)
            (record (r.set_owner ac (with_origin r ac labels u)) {
              namespace = ac.metadata.namespace;
            })
            (documented.labels-set_owner ac (with_origin r ac labels u)) refl)
