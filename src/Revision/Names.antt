-- ===== src/Revision/Names.antt =====
-- component.go, ConstructRevisionName and ExtractComponentName: the names of revisions.
use oam_kubernetes_runtime.Base.{
  ℕ, ◌<◌, GoString, codes, split-append, join-split, drop_last-snoc, print_int64, print_int64-Free,
  sign_bit, ◌≡◌, inl, arith, ◌++◌, split, join,
}
use oam_kubernetes_runtime.Revision.{construct_revision_name, extract_component_name}

-- The component's name is read back from the name of each of its revisions that is not negative,
-- whatever bytes, dashes included, the component's name has.
pub extract_component_name-construct_revision_name :
    (component_name : GoString) (revision : ℕ)
    → revision < sign_bit
    → extract_component_name (construct_revision_name component_name revision) ≡ component_name
unfolding extract_component_name construct_revision_name join
extract_component_name-construct_revision_name c r h =
    rw
      (split-append b'-' c (codes "v" ++ print_int64 r)
        (omega arith, print_int64-Free r b'-' h (inl (omega arith))))
      (rw (drop_last-snoc (split b'-' c) (codes "v" ++ print_int64 r)) (join-split b'-' c))
