-- ===== src/Revision/Live.antt =====
-- component.go, sortedControllerRevision: the names that application configurations pin.
use oam_kubernetes_runtime.Base.{
  suc, length, GoString, ==_iff, is_empty, Bool, true, Bool-cases, List, [], ◌∷◌, map, Any, Mem,
  Map, insert, has_key, has_key-insert, lookup, if◌then◌else◌, ◌≡◌, ◌↔◌, ◌⊎◌, inl, inr, refl, sym,
  subst, ap, ◌∙◌, arith, ◌==◌,
}
use oam_kubernetes_runtime.Api.{ApplicationConfiguration, ApplicationConfigurationComponent}
use oam_kubernetes_runtime.Revision.{live_hashes, live_of}

-- A component of the configuration names that revision, which is not the empty name.
abbrev pub Pins : List ApplicationConfiguration → GoString → Type 0
Pins configs name =
    (¬ (name ≡ [])) × Any (λ a. Any (λ c. c.revision_name ≡ name) a.components) configs

abbrev pub Distinct : List GoString → Type 0
Distinct [] = Unit
Distinct (k ∷ ks) = (¬ Mem k ks) × Distinct ks

abbrev pub keys : Map Bool → List GoString
keys m = map (λ p. p.0) m

pub has_key-Mem : (k : GoString) (m : Map Bool) → (has_key k m ≡ true) ↔ Mem k (keys m)
unfolding has_key lookup
has_key-Mem k [] = (λ h. cc, λ h. absurd h)
has_key-Mem k ((i, w) ∷ m) = elim (Bool-cases (i == k)) [
  | inl e ↦ (λ h. inl (sym ((==_iff i k).0 e)), λ h. rw (e, has_key) refl)
  | inr e ↦ (
    λ h. inr ((has_key-Mem k m).0 (rw (e, has_key) at h)),
    λ h. elim h [
      | inl same ↦ absurd (ground (arith, e, (==_iff i k).1 (sym same)))
      | inr m' ↦ rw (e, has_key) ((has_key-Mem k m).1 m')
    ],
  )
]

insert-Distinct :
    (k : GoString) (v : Bool) (m : Map Bool) → Distinct (keys m) → Distinct (keys (insert k v m))
unfolding insert
insert-Distinct k v [] d = ((λ h. h), tt)
insert-Distinct k v ((i, w) ∷ m) d = elim (Bool-cases (i == k)) [
  | inl e ↦ rw e (subst (λ j. ¬ Mem j (keys m)) ((==_iff i k).0 e) d.0, d.1)
  | inr e ↦ rw e (
    (λ h. d.0 (
        (has_key-Mem i m).0 (
          ground (
            arith,
            e,
            ==_iff i k,
            ==_iff k i,
            has_key-insert k i v m,
            (has_key-Mem i (insert k v m)).1 h,
          )))),
    insert-Distinct k v m d.1,
  )
]

-- live, with the name of one more component.
abbrev marked : GoString → Map Bool → Map Bool
marked name live = if is_empty name then live else insert name true live

marked-Mem :
    (k name : GoString) (live : Map Bool)
    → (has_key k (marked name live) ≡ true)
      ↔ ((has_key k live ≡ true) ⊎ ((¬ (k ≡ [])) × (name ≡ k)))
marked-Mem k [] live =
    (λ h. inl h, λ h. elim h [ inl old ↦ old | inr (ne, e) ↦ absurd (ne (sym e)) ])
marked-Mem k (x ∷ name) live = (
  λ h. elim (Bool-cases ((x ∷ name) == k)) [
    | inl e ↦
        inr ((λ empty. cons_ne ((==_iff (x ∷ name) k).0 e ∙ empty)), (==_iff (x ∷ name) k).0 e)
    | inr e ↦ inl (ground (arith, e, h, has_key-insert (x ∷ name) k true live))
  ],
  λ h. elim h [
    | inl old ↦ ground (arith, old, has_key-insert (x ∷ name) k true live)
    | inr (ne, e) ↦ ground (arith, (==_iff (x ∷ name) k).1 e, has_key-insert (x ∷ name) k true live)
  ],
)
  where
    cons_ne : ¬ (◌≡◌ {A = GoString} (x ∷ name) [])
    cons_ne h = cc

marked-Distinct :
    (name : GoString) (live : Map Bool) → Distinct (keys live) → Distinct (keys (marked name live))
marked-Distinct [] live d = d
marked-Distinct (x ∷ name) live d = insert-Distinct (x ∷ name) true live d

live_of-Mem :
    (k : GoString) (cs : List ApplicationConfigurationComponent) (live : Map Bool)
    → (has_key k (live_of live cs) ≡ true)
      ↔ ((has_key k live ≡ true) ⊎ ((¬ (k ≡ [])) × Any (λ c. c.revision_name ≡ k) cs))
unfolding live_of
live_of-Mem k [] live = (λ h. inl h, λ h. elim h [ inl old ↦ old | inr (ne, e) ↦ absurd e ])
live_of-Mem k (c ∷ cs) live = (
  λ h. elim ((live_of-Mem k cs (marked c.revision_name live)).0 h) [
    | inr (ne, there) ↦ inr (ne, inr there)
    | inl now ↦ elim ((marked-Mem k c.revision_name live).0 now) [
      | inl old ↦ inl old
      | inr (ne, e) ↦ inr (ne, inl e)
    ]
  ],
  λ h. (live_of-Mem k cs (marked c.revision_name live)).1 (elim h [
    | inl old ↦ inl ((marked-Mem k c.revision_name live).1 (inl old))
    | inr (ne, inl e) ↦ inl ((marked-Mem k c.revision_name live).1 (inr (ne, e)))
    | inr (ne, inr there) ↦ inr (ne, there)
  ]),
)

live_of-Distinct :
    (cs : List ApplicationConfigurationComponent) (live : Map Bool)
    → Distinct (keys live)
    → Distinct (keys (live_of live cs))
unfolding live_of
live_of-Distinct [] live d = d
live_of-Distinct (c ∷ cs) live d = live_of-Distinct cs _ (marked-Distinct c.revision_name live d)

pub live_hashes-Mem :
    (k : GoString) (configs : List ApplicationConfiguration) (live : Map Bool)
    → (has_key k (live_hashes live configs) ≡ true) ↔ ((has_key k live ≡ true) ⊎ Pins configs k)
unfolding live_hashes
live_hashes-Mem k [] live = (λ h. inl h, λ h. elim h [ inl old ↦ old | inr (ne, e) ↦ absurd e ])
live_hashes-Mem k (a ∷ configs) live = (
  λ h. elim ((live_hashes-Mem k configs (live_of live a.components)).0 h) [
    | inr (ne, there) ↦ inr (ne, inr there)
    | inl now ↦ elim ((live_of-Mem k a.components live).0 now) [
      | inl old ↦ inl old
      | inr (ne, e) ↦ inr (ne, inl e)
    ]
  ],
  λ h. (live_hashes-Mem k configs (live_of live a.components)).1 (elim h [
    | inl old ↦ inl ((live_of-Mem k a.components live).1 (inl old))
    | inr (ne, inl e) ↦ inl ((live_of-Mem k a.components live).1 (inr (ne, e)))
    | inr (ne, inr there) ↦ inr (ne, there)
  ]),
)

pub live_hashes-Distinct :
    (configs : List ApplicationConfiguration) (live : Map Bool)
    → Distinct (keys live)
    → Distinct (keys (live_hashes live configs))
unfolding live_hashes
live_hashes-Distinct [] live d = d
live_hashes-Distinct (a ∷ configs) live d =
    live_hashes-Distinct configs _ (live_of-Distinct a.components live d)

pub length-keys : (m : Map Bool) → length (keys m) ≡ length m
length-keys [] = refl
length-keys (p ∷ m) = ap suc (length-keys m)
