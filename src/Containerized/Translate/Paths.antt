-- ===== src/Containerized/Translate/Paths.antt =====
-- The names of config files: path.Split, the hash fnv.New32a of hash/fnv, and generateConfigMapName.
use Prim.Native.Nat.{bit_xor}
use oam_kubernetes_runtime.Base.{
  ℕ, ◌*◌, ◌%◌, ◌^◌, GoString, codes, nat_eq, if◌then◌else◌, [], ◌∷◌, ◌++◌, print_int64, ◌≡◌, refl,
  Bool-cases, inl, inr, ap, ◌∙◌,
}
use oam_kubernetes_runtime.Containerized.Types.{ContainerConfigFile}

-- A byte before a text that is split: only where no slash follows it may belong to the file.
split_step : ℕ → GoString → GoString → GoString × GoString
split_step x [] file = if nat_eq x b'/' then (x ∷ [], file) else ([], x ∷ file)
split_step x (d ∷ dir) file = (x ∷ d ∷ dir, file)

-- path.Split: the text up to its last slash with it, and the text after it.
unfoldable pub path_split : GoString → GoString × GoString
unfolding split_step
path_split [] = ([], [])
path_split (x ∷ s) = split_step x (path_split s).0 (path_split s).1

append-split_step :
    (x : ℕ) (dir file : GoString)
    → (split_step x dir file).0 ++ (split_step x dir file).1 ≡ x ∷ (dir ++ file)
unfolding split_step
append-split_step x [] file = elim (Bool-cases (nat_eq x b'/')) [
  | inl h ↦ rw h refl
  | inr h ↦ rw h refl
]
append-split_step x (d ∷ dir) file = refl

-- The two parts of a path make up the path.
pub append-path_split : (s : GoString) → (path_split s).0 ++ (path_split s).1 ≡ s
unfolding path_split
append-path_split [] = refl
append-path_split (x ∷ s) =
    append-split_step x (path_split s).0 (path_split s).1 ∙ ap (◌∷◌ x) (append-path_split s)

-- One round of FNV-1a on 32 bits: an exclusive or, and a product by the prime that wraps.
fnv_step : ℕ → ℕ → ℕ
fnv_step h b = (bit_xor h b * 16777619) % 2 ^ 32

-- h := fnv.New32a(); h.Write(s); h.Sum32(). Writing to it never fails.
unfoldable pub fnv_sum32 : ℕ → GoString → ℕ
unfolding fnv_step
fnv_sum32 h [] = h
fnv_sum32 h (b ∷ s) = fnv_sum32 (fnv_step h b) s

-- generateConfigMapName
unfoldable pub generate_config_map_name : ContainerConfigFile → GoString → GoString → GoString
generate_config_map_name cf wl_name container_name =
    wl_name
    ++ (codes "-" ++ (container_name ++ (codes "-" ++ print_int64 (fnv_sum32 2166136261 cf.path))))
