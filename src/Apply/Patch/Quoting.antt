-- ===== src/Apply/Patch/Quoting.antt =====
-- apply.go, jsonOperation: the quoting of a value.
use oam_kubernetes_runtime.Base.{
  ℕ, GoString, true, false, ◌||◌, Bool-cases, Option, none, some, [], ◌∷◌, ◌++◌, nat_eq, nat_eq_iff,
  if◌then◌else◌, ◌≡◌, refl, sym, subst, arith, inl, inr,
}
use oam_kubernetes_runtime.Apply.Patch.{escape, quote}

cons? : ℕ → Option GoString → Option GoString
cons? x none = none
cons? x (some s) = some (x ∷ s)

-- What a JSON parser reads up to the closing quote, which must be the last byte.
read_rest : GoString → Option GoString
unfolding cons?
read_rest [] = none
read_rest (x ∷ []) = if nat_eq x b'"' then some [] else none
read_rest (x ∷ y ∷ s) =
    let escaped = cons? y (read_rest s) in
    let plain = cons? x (read_rest (y ∷ s)) in
    if nat_eq x b'"'
    then none
    else if nat_eq x b'\\'
    then (if nat_eq y b'"' || nat_eq y b'\\' then escaped else none)
    else plain

pub read_string : GoString → Option GoString
unfolding read_rest
read_string [] = none
read_string (x ∷ s) = if nat_eq x b'"' then read_rest s else none

closed : GoString → GoString
closed s = escape b'"' (escape b'\\' s) ++ (b'"' ∷ [])

read_rest-plain :
    (x : ℕ) (s t : GoString)
    → nat_eq x b'"' ≡ false
    → nat_eq x b'\\' ≡ false
    → read_rest t ≡ some s
    → read_rest (x ∷ t) ≡ some (x ∷ s)
unfolding read_rest cons?
read_rest-plain x s [] a b e = absurd (ground (arith, e))
read_rest-plain x s (y ∷ t) a b e = rw (a, b, e) refl

closed-backslash : (s : GoString) → closed (b'\\' ∷ s) ≡ b'\\' ∷ b'\\' ∷ closed s
unfolding closed escape
closed-backslash s = refl

closed-quotes : (s : GoString) → closed (b'"' ∷ s) ≡ b'\\' ∷ b'"' ∷ closed s
unfolding closed escape
closed-quotes s = refl

closed-plain :
    (x : ℕ) (s : GoString)
    → nat_eq x b'"' ≡ false
    → nat_eq x b'\\' ≡ false
    → closed (x ∷ s) ≡ x ∷ closed s
unfolding closed escape
closed-plain x s a b = rw (b, a) refl

read_rest-escaped :
    (y : ℕ) (s t : GoString)
    → (nat_eq y b'"' || nat_eq y b'\\') ≡ true
    → read_rest t ≡ some s
    → read_rest (b'\\' ∷ y ∷ t) ≡ some (y ∷ s)
unfolding read_rest cons?
read_rest-escaped y s t e h = rw (e, h) refl

read_rest-closed_nil : read_rest (closed []) ≡ some []
unfolding read_rest closed escape
read_rest-closed_nil = refl

read_rest-closed : (s : GoString) → read_rest (closed s) ≡ some s
read_rest-closed [] = read_rest-closed_nil
read_rest-closed (x ∷ s) = elim (Bool-cases (nat_eq x b'\\')) [
  | inl slash ↦
      subst (λ y. read_rest (closed (y ∷ s)) ≡ some (y ∷ s)) (sym ((nat_eq_iff x b'\\').0 slash))
        (rw (closed-backslash s) (read_rest-escaped b'\\' s (closed s) refl (read_rest-closed s)))
  | inr other ↦ elim (Bool-cases (nat_eq x b'"')) [
    | inl quotes ↦
        subst (λ y. read_rest (closed (y ∷ s)) ≡ some (y ∷ s)) (sym ((nat_eq_iff x b'"').0 quotes))
          (rw (closed-quotes s) (read_rest-escaped b'"' s (closed s) refl (read_rest-closed s)))
    | inr plain ↦
        rw (closed-plain x s plain other)
          (read_rest-plain x s (closed s) plain other (read_rest-closed s))
  ]
]

-- A quoted value is a JSON string that a parser reads back as the value: no byte of it ends the
-- string early.
pub read_string-quote : (s : GoString) → read_string (quote s) ≡ some s
unfolding read_string quote closed
read_string-quote s = read_rest-closed s
