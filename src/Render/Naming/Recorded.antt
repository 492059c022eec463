-- ===== src/Render/Naming/Recorded.antt =====
-- render.go, getTraitName: the name of a trait that the status of its component has.
use oam_kubernetes_runtime.Base.{
  GoString, ==_iff, ◌==◌, ◌&&◌, ◌++◌, All, false, List, [], ◌∷◌, ◌≡◌, ◌≢◌, refl, ◌∙◌, arith,
}
use oam_kubernetes_runtime.Api.{ApplicationConfiguration, WorkloadTrait, WorkloadStatus}
use oam_kubernetes_runtime.Render.Naming.{recorded_of, recorded_name}

-- The recorded trait is not of that type.
abbrev pub IsOther : GoString → GoString → WorkloadTrait → Type 0
IsOther api_version kind tr =
    ¬ ((tr.reference.api_version ≡ api_version) × (tr.reference.kind ≡ kind))

IsOther-false :
    (api_version kind : GoString) (tr : WorkloadTrait)
    → IsOther api_version kind tr
    → (tr.reference.api_version == api_version && tr.reference.kind == kind) ≡ false
IsOther-false api_version kind tr other =
    ground
      (arith, other, ==_iff tr.reference.api_version api_version, ==_iff tr.reference.kind kind)

recorded_of-IsOther :
    (name api_version kind : GoString) (trs : List WorkloadTrait)
    → All (IsOther api_version kind) trs
    → recorded_of name trs api_version kind ≡ name
unfolding recorded_of
recorded_of-IsOther name api_version kind [] h = refl
recorded_of-IsOther name api_version kind (tr ∷ trs) h =
    rw (IsOther-false api_version kind tr h.0) (recorded_of-IsOther name api_version kind trs h.1)

-- The last trait of a type counts.
recorded_of-last :
    (api_version kind : GoString) (before : List WorkloadTrait) (name : GoString)
    (tr : WorkloadTrait) (after : List WorkloadTrait)
    → tr.reference.api_version ≡ api_version
    → tr.reference.kind ≡ kind
    → All (IsOther api_version kind) after
    → recorded_of name (before ++ tr ∷ after) api_version kind ≡ tr.reference.name
unfolding recorded_of
recorded_of-last api_version kind [] name tr after v k h =
    rw
      (
        (==_iff tr.reference.api_version api_version).1 v,
        (==_iff tr.reference.kind kind).1 k,
        recorded_of,
      )
      (recorded_of-IsOther tr.reference.name api_version kind after h)
recorded_of-last api_version kind (b ∷ before) name tr after v k h =
    recorded_of-last api_version kind before _ tr after v k h

recorded_name-IsOther :
    (name component api_version kind : GoString) (sts : List WorkloadStatus)
    → All (λ st. st.component_name ≢ component) sts
    → recorded_name name sts component api_version kind ≡ name
unfolding recorded_name
recorded_name-IsOther name component api_version kind [] h = refl
recorded_name-IsOther name component api_version kind (st ∷ sts) h =
    rw other (recorded_name-IsOther name component api_version kind sts h.1)
  where
    other : (st.component_name == component) ≡ false
    other = ground (arith, h.0, ==_iff st.component_name component)

-- The last status of a component counts.
recorded_name-last :
    (component api_version kind : GoString) (before : List WorkloadStatus) (name : GoString)
    (st : WorkloadStatus) (after : List WorkloadStatus) (found : GoString)
    → st.component_name ≡ component
    → All (λ s. s.component_name ≢ component) after
    → ((n : GoString) → recorded_of n st.traits api_version kind ≡ found)
    → recorded_name name (before ++ st ∷ after) component api_version kind ≡ found
unfolding recorded_name
recorded_name-last component api_version kind [] name st after found c h is_found =
    rw ((==_iff st.component_name component).1 c, is_found name, recorded_name)
      (recorded_name-IsOther found component api_version kind after h)
recorded_name-last component api_version kind (b ∷ before) name st after found c h is_found =
    recorded_name-last component api_version kind before _ st after found c h is_found

-- The last entry of a type in a component's status: it stands in the last status of the component, and
-- no later trait there is of that type.
pub record IsRecorded (ac : ApplicationConfiguration) (component api_version kind name : GoString)
    : Type 0 where
  pub before : List WorkloadStatus
  pub after : List WorkloadStatus
  pub at : WorkloadStatus
  pub earlier : List WorkloadTrait
  pub later : List WorkloadTrait
  pub entry : WorkloadTrait
  pub statuses : ac.status.workloads ≡ before ++ at ∷ after
  pub traits : at.traits ≡ earlier ++ entry ∷ later
  pub named : at.component_name ≡ component
  pub last_status : All (λ s. s.component_name ≢ component) after
  pub last_entry : All (IsOther api_version kind) later
  pub version_is : entry.reference.api_version ≡ api_version
  pub kind_is : entry.reference.kind ≡ kind
  pub name_is : entry.reference.name ≡ name

pub IsRecorded-name :
    (ac : ApplicationConfiguration) (component api_version kind name : GoString)
    → IsRecorded ac component api_version kind name
    → recorded_name [] ac.status.workloads component api_version kind ≡ name
IsRecorded-name ac component api_version kind name r = rw r.statuses (
    recorded_name-last component api_version kind r.before [] r.at r.after name r.named
      r.last_status
      (λ n. rw r.traits (
        recorded_of-last api_version kind r.earlier n r.entry r.later r.version_is r.kind_is
          r.last_entry
        ∙ r.name_is)))
