-- ===== src/Base/Lists.antt =====
-- Lists measured by native numbers, Boolean and propositional quantifiers, slices of a list.
use Prim.Native.Nat.{ℕ, zero, suc, ◌+◌, ◌≤◌}
use mathlib.Core.Path.{◌≡◌, refl, sym, ap, ap₂, subst}
use mathlib.Core.Logic.{◌↔◌, ◌⊎◌, inl, inr}
use mathlib.Core.Bool.{Bool, true, false, ◌&&◌, ◌||◌}
use mathlib.Core.List.{List, [], ◌∷◌, ◌++◌, map}
use native.Mathlib.Omega.{arith}
use oam_kubernetes_runtime.Base.Tests.{if◌then◌else◌, Bool-cases}

module _ {ℓ} {A : Type ℓ} where
  abbrev pub length : List A → ℕ
  length [] = 0
  length (x ∷ xs) = suc (length xs)

  abbrev pub is_nil : List A → Bool
  is_nil [] = true
  is_nil (x ∷ xs) = false

  pub length-append : (xs ys : List A) → length (xs ++ ys) ≡ length xs + length ys
  length-append [] ys = omega arith
  length-append (x ∷ xs) ys = omega (arith, length-append xs ys)

  unfoldable pub all : (A → Bool) → List A → Bool
  all p [] = true
  all p (x ∷ xs) = p x && all p xs

  unfoldable pub any : (A → Bool) → List A → Bool
  any p [] = false
  any p (x ∷ xs) = p x || any p xs

  abbrev pub All {κ} : (A → Type κ) → List A → Type κ
  All P [] = Unit
  All P (x ∷ xs) = P x × All P xs

module _ {A : Type 0} where
  abbrev pub Any : (A → Type 0) → List A → Type 0
  Any P [] = ⊥
  Any P (x ∷ xs) = P x ⊎ Any P xs

  pub all_iff : (p : A → Bool) (xs : List A) → (all p xs ≡ true) ↔ All (λ x. p x ≡ true) xs
  unfolding all
  all_iff p [] = (λ _. tt, λ _. refl)
  all_iff p (x ∷ xs) =
      (λ h. ground (arith, (all_iff p xs).0), λ h. ground (arith, (all_iff p xs).1 h.1))

  pub any_iff : (p : A → Bool) (xs : List A) → (any p xs ≡ true) ↔ Any (λ x. p x ≡ true) xs
  unfolding any
  any_iff p [] = (λ h. cc, λ h. absurd h)
  any_iff p (x ∷ xs) =
      (λ h. ground (arith, (any_iff p xs).0), λ h. ground (arith, (any_iff p xs).1))

  abbrev pub Mem : A → List A → Type 0
  Mem a [] = ⊥
  Mem a (x ∷ xs) = (a ≡ x) ⊎ Mem a xs

  pub All-of_Mem : (P : A → Type 0) (xs : List A) → ((x : A) → Mem x xs → P x) → All P xs
  All-of_Mem P [] h = tt
  All-of_Mem P (x ∷ xs) h = (h x (inl refl), All-of_Mem P xs (λ y m. h y (inr m)))

  pub Mem_of_All : (P : A → Type 0) (x : A) (xs : List A) → All P xs → Mem x xs → P x
  Mem_of_All P x [] h m = absurd m
  Mem_of_All P x (y ∷ xs) h (inl e) = subst P (sym e) h.0
  Mem_of_All P x (y ∷ xs) h (inr m) = Mem_of_All P x xs h.1 m

  pub All-append : (P : A → Type 0) (xs ys : List A) → All P xs → All P ys → All P (xs ++ ys)
  All-append P [] ys h k = k
  All-append P (x ∷ xs) ys h k = (h.0, All-append P xs ys h.1 k)

  pub Any-append : (P : A → Type 0) (xs ys : List A) → Any P (xs ++ ys) ↔ (Any P xs ⊎ Any P ys)
  Any-append P [] ys = (inr, λ h. elim h [ inl a ↦ absurd a | inr b ↦ b ])
  Any-append P (x ∷ xs) ys = (to (Any-append P xs ys).0, from (Any-append P xs ys).1)
    where
      to :
          (Any P (xs ++ ys) → Any P xs ⊎ Any P ys)
          → Any P ((x ∷ xs) ++ ys)
          → Any P (x ∷ xs) ⊎ Any P ys
      to ih (inl p) = inl (inl p)
      to ih (inr q) = elim (ih q) [ inl a ↦ inl (inr a) | inr b ↦ inr b ]

      from :
          (Any P xs ⊎ Any P ys → Any P (xs ++ ys))
          → Any P (x ∷ xs) ⊎ Any P ys
          → Any P ((x ∷ xs) ++ ys)
      from ih (inl (inl p)) = inl p
      from ih (inl (inr a)) = inr (ih (inl a))
      from ih (inr b) = inr (ih (inr b))

  -- The elements that pass a test, in order: a loop that appends under an `if`.
  unfoldable pub keep : (A → Bool) → List A → List A
  keep p [] = []
  keep p (x ∷ xs) = let rest = keep p xs in if p x then x ∷ rest else rest

  pub keep-append : (p : A → Bool) (xs ys : List A) → keep p (xs ++ ys) ≡ keep p xs ++ keep p ys
  unfolding keep
  keep-append p [] ys = refl
  keep-append p (x ∷ xs) ys = ground (arith, keep-append p xs ys)

  -- `xs[0 : len(xs) - 1]` of a list that is not empty.
  unfoldable pub drop_last : List A → List A
  drop_last [] = []
  drop_last (x ∷ []) = []
  drop_last (x ∷ y ∷ xs) = x ∷ drop_last (y ∷ xs)

  pub drop_last-snoc : (xs : List A) (x : A) → drop_last (xs ++ x ∷ []) ≡ xs
  unfolding drop_last
  drop_last-snoc [] x = refl
  drop_last-snoc (y ∷ []) x = refl
  drop_last-snoc (y ∷ z ∷ xs) x = ap (◌∷◌ y) (drop_last-snoc (z ∷ xs) x)

  -- `xs[len(xs) - 1]`, or a default for the empty list.
  unfoldable pub last_or : List A → A → A
  last_or [] d = d
  last_or (x ∷ xs) d = last_or xs x

  pub last_or-snoc : (xs : List A) (x d : A) → last_or (xs ++ x ∷ []) d ≡ x
  unfolding last_or
  last_or-snoc [] x d = refl
  last_or-snoc (y ∷ xs) x d = last_or-snoc xs x y

module _ {A : Type 0} where
  abbrev pub take : ℕ → List A → List A
  take zero xs = []
  take (suc n) [] = []
  take (suc n) (x ∷ xs) = x ∷ take n xs

  abbrev pub drop : ℕ → List A → List A
  drop zero xs = xs
  drop (suc n) [] = []
  drop (suc n) (x ∷ xs) = drop n xs

  pub length-take-le : (n : ℕ) (xs : List A) → length (take n xs) ≤ n
  length-take-le zero xs = omega arith
  length-take-le (suc n) [] = omega arith
  length-take-le (suc n) (x ∷ xs) = omega (arith, length-take-le n xs)

  pub All-drop : (P : A → Type 0) (n : ℕ) (xs : List A) → All P xs → All P (drop n xs)
  All-drop P zero xs h = h
  All-drop P (suc n) [] h = tt
  All-drop P (suc n) (x ∷ xs) h = All-drop P n xs h.1

  pub All-keep : (P : A → Type 0) (p : A → Bool) (xs : List A) → All P xs → All P (keep p xs)
  unfolding keep
  All-keep P p [] h = tt
  All-keep P p (x ∷ xs) h = elim (Bool-cases (p x)) [
    | inl e ↦ rw e (h.0, All-keep P p xs h.1)
    | inr e ↦ rw e (All-keep P p xs h.1)
  ]

  pub All-map :
      {B : Type 0} (f : A → B) (P : B → Type 0) (xs : List A)
      → All (λ x. P (f x)) xs
      → All P (map f xs)
  All-map f P [] h = tt
  All-map f P (x ∷ xs) h = (h.0, All-map f P xs h.1)

module _ {A : Type 0} where
  pub all_congr : (p q : A → Bool) → ((x : A) → p x ≡ q x) → (xs : List A) → all p xs ≡ all q xs
  unfolding all
  all_congr p q h [] = refl
  all_congr p q h (x ∷ xs) = ground (arith, h x, all_congr p q h xs)

  -- What is kept passes the test.
  pub All-keep_test : (p : A → Bool) (xs : List A) → All (λ x. p x ≡ true) (keep p xs)
  unfolding keep
  All-keep_test p [] = tt
  All-keep_test p (x ∷ xs) = elim (Bool-cases (p x)) [
    | inl e ↦ rw e (e, All-keep_test p xs)
    | inr e ↦ rw e (All-keep_test p xs)
  ]

  pub keep_none : (p : A → Bool) (xs : List A) → All (λ x. p x ≡ false) xs → keep p xs ≡ []
  unfolding keep
  keep_none p [] h = refl
  keep_none p (x ∷ xs) h = rw h.0 (keep_none p xs h.1)

  pub All-zip :
      (P Q R : A → Type 0)
      → ((x : A) → P x → Q x → R x)
      → (xs : List A) → All P xs
      → All Q xs
      → All R xs
  All-zip P Q R f [] h k = tt
  All-zip P Q R f (x ∷ xs) h k = (f x h.0 k.0, All-zip P Q R f xs h.1 k.1)

  pub All-imp : (P Q : A → Type 0) → ((x : A) → P x → Q x) → (xs : List A) → All P xs → All Q xs
  All-imp P Q f [] h = tt
  All-imp P Q f (x ∷ xs) h = (f x h.0, All-imp P Q f xs h.1)

  pub Mem-append_left : (x : A) (xs ys : List A) → Mem x xs → Mem x (xs ++ ys)
  Mem-append_left x [] ys m = absurd m
  Mem-append_left x (y ∷ xs) ys (inl e) = inl e
  Mem-append_left x (y ∷ xs) ys (inr m) = inr (Mem-append_left x xs ys m)

  pub Mem-append_right : (x : A) (xs ys : List A) → Mem x ys → Mem x (xs ++ ys)
  Mem-append_right x [] ys m = m
  Mem-append_right x (y ∷ xs) ys m = inr (Mem-append_right x xs ys m)

  pub map-map_self :
      {B : Type 0} (f : B → A) (g : A → B) (xs : List A)
      → ((x : A) → Mem x xs → f (g x) ≡ x)
      → map f (map g xs) ≡ xs
  map-map_self f g [] h = refl
  map-map_self f g (x ∷ xs) h =
      ap₂ (λ y ys. y ∷ ys) (h x (inl refl)) (map-map_self f g xs (λ y m. h y (inr m)))

  pub map_congr :
      {B : Type 0} (f g : A → B) → ((x : A) → f x ≡ g x) → (xs : List A) → map f xs ≡ map g xs
  map_congr f g h [] = refl
  map_congr f g h (x ∷ xs) = ap₂ (λ y ys. y ∷ ys) (h x) (map_congr f g h xs)
