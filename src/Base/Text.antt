-- ===== src/Base/Text.antt =====
-- Go strings as byte lists, with the functions of package strings that the program calls.
use Prim.Native.Char.{code}
use Prim.Native.String.{String}
use Prim.Native.Nat.{ℕ, ◌+◌}
use mathlib.Core.Path.{◌≡◌, refl, sym, ap, ◌∙◌}
use mathlib.Core.Logic.{◌↔◌, ◌≢◌, inl, inr}
use mathlib.Core.Bool.{Bool, true, false, ◌&&◌, ◌||◌}
use mathlib.Core.List.{List, [], ◌∷◌, ◌++◌, map}
use native.Mathlib.Omega.{arith}
use oam_kubernetes_runtime.Base.Tests.{nat_eq, nat_eq_iff, leb, if◌then◌else◌, Bool-cases}
use oam_kubernetes_runtime.Base.Lists.{last_or, last_or-snoc}

abbrev pub GoString : Type 0
GoString = List ℕ

-- The bytes of an ASCII literal.
abbrev pub codes : String → GoString
codes String.[] = []
codes (String.◌∷◌ c s) = code c ∷ codes s

infix 50 ◌==◌
unfoldable pub ◌==◌ : GoString → GoString → Bool
◌==◌ [] [] = true
◌==◌ [] (y ∷ ys) = false
◌==◌ (x ∷ xs) [] = false
◌==◌ (x ∷ xs) (y ∷ ys) = nat_eq x y && (xs == ys)

pub eq_of_== : (s t : GoString) → (s == t) ≡ true → s ≡ t
unfolding ◌==◌
eq_of_== [] [] h = refl
eq_of_== [] (y ∷ ys) h = cc
eq_of_== (x ∷ xs) [] h = cc
eq_of_== (x ∷ xs) (y ∷ ys) h = ground (arith, eq_of_== xs ys)

pub ==_refl : (s : GoString) → (s == s) ≡ true
unfolding ◌==◌
==_refl [] = refl
==_refl (x ∷ xs) = ground (arith, ==_refl xs)

pub ==_iff : (s t : GoString) → ((s == t) ≡ true) ↔ (s ≡ t)
==_iff s t = (eq_of_== s t, λ e. rw e (==_refl t))

-- `s == ""` and `len(s) == 0`
abbrev pub is_empty : GoString → Bool
is_empty [] = true
is_empty (x ∷ xs) = false

-- strings.HasPrefix(s, p)
unfoldable pub has_prefix : GoString → GoString → Bool
has_prefix s [] = true
has_prefix [] (y ∷ p) = false
has_prefix (x ∷ s) (y ∷ p) = nat_eq x y && has_prefix s p

pub has_prefix-append : (p s : GoString) → has_prefix (p ++ s) p ≡ true
unfolding has_prefix
has_prefix-append [] s = refl
has_prefix-append (x ∷ p) s = ground (arith, has_prefix-append p s)

-- strings.Contains(s, t)
unfoldable pub contains : GoString → GoString → Bool
contains [] t = has_prefix [] t
contains (x ∷ s) t = has_prefix (x ∷ s) t || contains s t

unfoldable pub onto_head : ℕ → List GoString → List GoString
onto_head x [] = (x ∷ []) ∷ []
onto_head x (s ∷ ss) = (x ∷ s) ∷ ss

-- strings.Split(s, sep) at a separator of one byte: never the empty list.
unfoldable pub split : ℕ → GoString → List GoString
split c [] = [] ∷ []
split c (x ∷ s) = let rest = split c s in if nat_eq x c then [] ∷ rest else onto_head x rest

-- strings.Join
unfoldable pub join : GoString → List GoString → GoString
join sep [] = []
join sep (s ∷ []) = s
join sep (s ∷ t ∷ ss) = s ++ (sep ++ join sep (t ∷ ss))

-- No byte of the text is `c`.
abbrev pub Free : ℕ → GoString → Type 0
Free c [] = Unit
Free c (x ∷ s) = (x ≢ c) × Free c s

split-Free : (c : ℕ) (s : GoString) → Free c s → split c s ≡ s ∷ []
unfolding split onto_head
split-Free c [] h = refl
split-Free c (x ∷ s) h = ground (arith, split-Free c s h.1)

split-ne : (c : ℕ) (s : GoString) → split c s ≢ []
unfolding split onto_head
split-ne c [] = λ e. cc
split-ne c (x ∷ s) = ground arith

onto_head-append :
    (x : ℕ) (ss : List GoString) (t : GoString)
    → ss ≢ []
    → onto_head x (ss ++ t ∷ []) ≡ onto_head x ss ++ t ∷ []
unfolding onto_head
onto_head-append x [] t h = absurd (h refl)
onto_head-append x (s ∷ ss) t h = refl

-- The last separator of the text cuts off its last part.
pub split-append : (c : ℕ) (s t : GoString) → Free c t → split c (s ++ c ∷ t) ≡ split c s ++ t ∷ []
unfolding split onto_head
split-append c [] t h = ground (arith, split-Free c t h)
split-append c (x ∷ s) t h =
    rw (split-append c s t h) (ground (arith, onto_head-append x (split c s) t (split-ne c s)))

join-onto_head :
    (c x : ℕ) (ss : List GoString) → join (c ∷ []) (onto_head x ss) ≡ x ∷ join (c ∷ []) ss
unfolding join onto_head
join-onto_head c x [] = refl
join-onto_head c x (s ∷ []) = refl
join-onto_head c x (s ∷ t ∷ ss) = refl

join_empty_head :
    (c x : ℕ) (ss : List GoString)
    → ss ≢ []
    → x ≡ c
    → join (c ∷ []) ([] ∷ ss) ≡ x ∷ join (c ∷ []) ss
unfolding join
join_empty_head c x [] h e = absurd (h refl)
join_empty_head c x (s ∷ ss) h e = ap (λ y. y ∷ join (c ∷ []) (s ∷ ss)) (sym e)

-- Joining by the separator undoes the split.
pub join-split : (c : ℕ) (s : GoString) → join (c ∷ []) (split c s) ≡ s
unfolding split
join-split c [] = unfold join in refl
join-split c (x ∷ s) = elim (Bool-cases (nat_eq x c)) [
  | inl e ↦ rw e (
      join_empty_head c x (split c s) (split-ne c s) ((nat_eq_iff x c).0 e)
      ∙ ap (◌∷◌ x) (join-split c s))
  | inr e ↦ rw e (join-onto_head c x (split c s) ∙ ap (◌∷◌ x) (join-split c s))
]

-- The text after its last `c`, or the whole text: s[strings.LastIndex(s, c)+1:].
unfoldable pub after_last : ℕ → GoString → GoString
after_last c s = last_or (split c s) s

pub after_last-append : (c : ℕ) (s t : GoString) → Free c t → after_last c (s ++ c ∷ t) ≡ t
unfolding after_last
after_last-append c s t h = rw (split-append c s t h) (last_or-snoc (split c s) t (s ++ c ∷ t))

-- strings.ToLower on ASCII bytes.
unfoldable pub to_lower : GoString → GoString
to_lower s = map (λ c. if leb b'A' c && leb c b'Z' then c + 32 else c) s
