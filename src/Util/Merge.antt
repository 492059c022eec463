-- ===== src/Util/Merge.antt =====
-- helper.go, MergeMapOverrideWithDst: which value a key has in the merged map.
use oam_kubernetes_runtime.Base.{
  GoString, ==_iff, Option, none, some, [], ◌∷◌, Map, lookup, insert, lookup-insert, has_key, ◌≡◌,
  refl, arith, ◌∙◌, ◌==◌, Bool-cases, inl, inr, ap, sym,
}
use oam_kubernetes_runtime.Util.{merge_map_override_with_dst, copy_all, copy_missing}

-- A Go map has each key once: no later entry has the key of an earlier one.
abbrev pub IsMap : Map GoString → Type 0
IsMap [] = Unit
IsMap ((k, v) ∷ m) = (lookup k m ≡ none) × IsMap m

abbrev pub IsMap? : Option (Map GoString) → Type 0
IsMap? none = Unit
IsMap? (some m) = IsMap m

abbrev pub first_of : Option GoString → Option GoString → Option GoString
first_of none b = b
first_of (some a) b = some a

abbrev pub lookup? : GoString → Option (Map GoString) → Option GoString
lookup? k none = none
lookup? k (some m) = lookup k m

lookup-copy_all :
    (k : GoString) (m r : Map GoString)
    → IsMap m
    → lookup k (copy_all m r) ≡ first_of (lookup k m) (lookup k r)
unfolding copy_all lookup
lookup-copy_all k [] r h = refl
lookup-copy_all k ((j, v) ∷ m) r h =
    lookup-copy_all k m (insert j v r) h.1 ∙ ground (arith, lookup-insert j k v r, ==_iff j k, h.0)

lookup-copy_missing :
    (k : GoString) (m r : Map GoString)
    → IsMap m
    → lookup k (copy_missing m r) ≡ first_of (lookup k r) (lookup k m)
unfolding copy_missing lookup has_key
lookup-copy_missing k [] r h = ground arith
lookup-copy_missing k ((j, v) ∷ m) r h =
    lookup-copy_missing k m _ h.1 ∙ ground (arith, lookup-insert j k v r, ==_iff j k, h.0)

merged :
    (s d : Map GoString) (k : GoString)
    → IsMap s
    → IsMap d
    → lookup k (copy_missing s (copy_all d [])) ≡ first_of (lookup k d) (lookup k s)
unfolding lookup
merged s d k hs hd =
    lookup-copy_missing k s (copy_all d []) hs ∙ ground (arith, lookup-copy_all k d [] hd)

-- In the merged map a key has the value of the destination, or else that of the source; a nil map
-- counts as empty.
pub lookup-merge_map_override_with_dst :
    (src dst : Option (Map GoString)) (k : GoString)
    → IsMap? src
    → IsMap? dst
    → lookup? k (merge_map_override_with_dst src dst) ≡ first_of (lookup? k dst) (lookup? k src)
unfolding merge_map_override_with_dst lookup
lookup-merge_map_override_with_dst none none k hs hd = refl
lookup-merge_map_override_with_dst none (some d) k hs hd = merged [] d k tt hd
lookup-merge_map_override_with_dst (some s) none k hs hd = merged s [] k hs tt
lookup-merge_map_override_with_dst (some s) (some d) k hs hd = merged s d k hs hd

IsMap-insert : (k v : GoString) (m : Map GoString) → IsMap m → IsMap (insert k v m)
unfolding insert lookup
IsMap-insert k v [] h = (refl, tt)
IsMap-insert k v ((i, w) ∷ m) h = elim (Bool-cases (i == k)) [
  | inl e ↦ rw e (ap (λ j. lookup j m) (sym ((==_iff i k).0 e)) ∙ h.0, h.1)
  | inr e ↦
      rw e (
        lookup-insert k i v m ∙ ground (arith, ==_iff k i, ==_iff i k, h.0),
        IsMap-insert k v m h.1,
      )
]

IsMap-copy_all : (m r : Map GoString) → IsMap r → IsMap (copy_all m r)
unfolding copy_all
IsMap-copy_all [] r h = h
IsMap-copy_all ((k, v) ∷ m) r h = IsMap-copy_all m (insert k v r) (IsMap-insert k v r h)

IsMap-copy_missing : (m r : Map GoString) → IsMap r → IsMap (copy_missing m r)
unfolding copy_missing
IsMap-copy_missing [] r h = h
IsMap-copy_missing ((k, v) ∷ m) r h = elim (Bool-cases (has_key k r)) [
  | inl e ↦ rw e (IsMap-copy_missing m r h)
  | inr e ↦ rw e (IsMap-copy_missing m (insert k v r) (IsMap-insert k v r h))
]

-- The merged map has each key once.
pub IsMap-merge :
    (src dst : Option (Map GoString))
    → IsMap? src
    → IsMap? dst
    → IsMap? (merge_map_override_with_dst src dst)
unfolding merge_map_override_with_dst
IsMap-merge none none hs hd = tt
IsMap-merge none (some d) hs hd = IsMap-copy_missing [] (copy_all d []) (IsMap-copy_all d [] tt)
IsMap-merge (some s) none hs hd = IsMap-copy_missing s (copy_all [] []) (IsMap-copy_all [] [] tt)
IsMap-merge (some s) (some d) hs hd = IsMap-copy_missing s (copy_all d []) (IsMap-copy_all d [] tt)
