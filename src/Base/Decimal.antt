-- ===== src/Base/Decimal.antt =====
-- Decimal numbers: fmt's %d on an int64 and strconv.ParseInt with base 10 and 64 bits.
-- An int64 is its bit pattern, a number below 2 ^ 64.
use Prim.Native.Nat.{ℕ, zero, suc, ◌+◌, ◌-◌, ◌*◌, ◌/◌, ◌%◌, ◌^◌, ◌<◌}
use mathlib.Core.Path.{◌≡◌, refl, ◌∙◌, ap}
use mathlib.Core.Bool.{◌&&◌}
use mathlib.Core.Logic.{inl, inr, ◌⊎◌, ◌≢◌}
use mathlib.Core.List.{[], ◌∷◌}
use native.Mathlib.Omega.{arith}
use native.Mathlib.Nat.{pow-suc}
use oam_kubernetes_runtime.Base.Tests.{ltb, lt→ltb, leb, nat_eq, if◌then◌else◌, Bool-cases}
use oam_kubernetes_runtime.Base.Text.{GoString, Free}

abbrev pub sign_bit : ℕ
sign_bit = 9223372036854775808

abbrev pub word : ℕ
word = 18446744073709551616

-- The order of int64 as an order of numbers.
abbrev pub signed_key : ℕ → ℕ
signed_key a = (a + sign_bit) % word

-- The digits of n before acc: the loop of strconv's formatBits, whose buffer bounds the rounds.
print_digits : ℕ → ℕ → GoString → GoString
print_digits zero n acc = acc
print_digits (suc fuel) n acc =
    let rest = print_digits fuel (n / 10) ((b'0' + n % 10) ∷ acc) in
    if nat_eq (n / 10) 0 then (b'0' + n % 10) ∷ acc else rest

-- fmt.Sprintf("%d", n); twenty digits are enough for a 64-bit magnitude.
unfoldable pub print_int64 : ℕ → GoString
unfolding print_digits
print_int64 n =
    if ltb n sign_bit then print_digits 20 n [] else b'-' ∷ print_digits 20 (word - n) []

pub data Parsed : Type 0 where
  value : ℕ → Parsed
  range_error syntax_error : Parsed

-- The loop of strconv.ParseUint: it stops at the first byte that is no digit, or at an overflow.
parse_digits : ℕ → GoString → Parsed
parse_digits acc [] = value acc
parse_digits acc (c ∷ s) =
    let rest = parse_digits (acc * 10 + (c - b'0')) s in
    if leb b'0' c && leb c b'9'
    then (if leb word (acc * 10 + (c - b'0')) then range_error else rest)
    else syntax_error

unfoldable pub parse_uint : GoString → Parsed
unfolding parse_digits
parse_uint [] = syntax_error
parse_uint (c ∷ s) = parse_digits 0 (c ∷ s)

-- The value that strconv.ParseInt returns beside its error.
clamp_positive : Parsed → ℕ
clamp_positive (value n) = if leb sign_bit n then sign_bit - 1 else n
clamp_positive range_error = sign_bit - 1
clamp_positive syntax_error = 0

clamp_negative : Parsed → ℕ
clamp_negative (value n) = if ltb sign_bit n then sign_bit else (word - n) % word
clamp_negative range_error = sign_bit
clamp_negative syntax_error = 0

unfoldable pub parse_int64 : GoString → ℕ
unfolding parse_uint clamp_positive clamp_negative
parse_int64 [] = 0
parse_int64 (c ∷ s) =
    if nat_eq c b'-'
    then clamp_negative (parse_uint s)
    else if nat_eq c b'+'
    then clamp_positive (parse_uint s)
    else clamp_positive (parse_uint (c ∷ s))

print_digits-Free :
    (fuel n c : ℕ) (acc : GoString)
    → (c < b'0') ⊎ (b'9' < c)
    → Free c acc
    → Free c (print_digits fuel n acc)
unfolding print_digits
print_digits-Free zero n c acc h k = k
print_digits-Free (suc fuel) n c acc h k = elim (Bool-cases (nat_eq (n / 10) 0)) [
  | inl e ↦ rw e (ground arith, k)
  | inr e ↦ rw e (print_digits-Free fuel (n / 10) c _ h (ground arith, k))
]

-- A number that is not negative prints as digits only.
pub print_int64-Free : (n c : ℕ) → n < sign_bit → (c < b'0') ⊎ (b'9' < c) → Free c (print_int64 n)
unfolding print_int64
print_int64-Free n c h d = rw (lt→ltb n sign_bit h) (print_digits-Free 20 n c [] d tt)

parse_digit :
    (a n : ℕ) (s : GoString)
    → a ≡ n / 10
    → n < word
    → parse_digits a ((b'0' + n % 10) ∷ s) ≡ parse_digits n s
unfolding parse_digits
parse_digit a n s e h = ground (arith, ap (λ (m : ℕ). parse_digits m s) same)
  where
    same : a * 10 + (b'0' + n % 10 - b'0') ≡ n
    same = omega arith

parse_digits-print_digits :
    (fuel n : ℕ) (s : GoString)
    → n < 10 ^ fuel
    → n < word
    → parse_digits 0 (print_digits fuel n s) ≡ parse_digits n s
unfolding print_digits
parse_digits-print_digits zero n s h w = ap (λ (m : ℕ). parse_digits m s) (omega arith)
parse_digits-print_digits (suc fuel) n s h w = elim (Bool-cases (nat_eq (n / 10) 0)) [
  | inl e ↦ rw e (parse_digit 0 n s (ground arith) w)
  | inr e ↦ rw e (
      parse_digits-print_digits fuel (n / 10) ((b'0' + n % 10) ∷ s) (omega (arith, pow-suc 10 fuel))
        (omega arith)
      ∙ parse_digit (n / 10) n s refl w)
]

print_digits-ne : (fuel n x : ℕ) (acc : GoString) → print_digits fuel n (x ∷ acc) ≢ []
unfolding print_digits
print_digits-ne zero n x acc = λ e. cc
print_digits-ne (suc fuel) n x acc = elim (Bool-cases (nat_eq (n / 10) 0)) [
  | inl e ↦ rw e (λ h. cc)
  | inr e ↦ rw e (print_digits-ne fuel (n / 10) _ (x ∷ acc))
]

parse_int64_of_digits :
    (s : GoString) (n : ℕ)
    → Free b'-' s
    → Free b'+' s
    → s ≢ []
    → parse_digits 0 s ≡ value n
    → n < sign_bit
    → parse_int64 s ≡ n
unfolding parse_int64
parse_int64_of_digits [] n d p h e l = absurd (h refl)
parse_int64_of_digits (c ∷ s) n d p h e l = ground arith

print_int64-ne : (n : ℕ) → n < sign_bit → print_int64 n ≢ []
unfolding print_int64 print_digits
print_int64-ne n h = rw (lt→ltb n sign_bit h) (elim (Bool-cases (nat_eq (n / 10) 0)) [
  | inl e ↦ rw e (λ k. cc)
  | inr e ↦ rw e (print_digits-ne 19 (n / 10) _ [])
])

print_int64-digits : (n : ℕ) → n < sign_bit → parse_digits 0 (print_int64 n) ≡ value n
unfolding print_int64 parse_digits
print_int64-digits n h =
    rw (lt→ltb n sign_bit h) (parse_digits-print_digits 20 n [] (omega arith) (omega arith))

-- Reading a printed number that is not negative gives it back.
pub parse_int64-print_int64 : (n : ℕ) → n < sign_bit → parse_int64 (print_int64 n) ≡ n
parse_int64-print_int64 n h =
    parse_int64_of_digits (print_int64 n) n (print_int64-Free n b'-' h (inl (omega arith)))
      (print_int64-Free n b'+' h (inl (omega arith))) (print_int64-ne n h) (print_int64-digits n h)
      h
