-- ===== src/Base/Errors.antt =====
-- A value or an error, with the binding of `do` blocks.
use mathlib.Core.Path.{◌≡◌, refl, ap, ◌∙◌}
use mathlib.Core.Logic.{◌⊎◌, inl, inr}
use mathlib.Core.Bool.{Bool, true, false}

pub data Result (E A : Type 0) : Type 0 where
  ok : A → Result E A
  err : E → Result E A

infixl 5 ◌>>=◌ ◌>>◌
abbrev pub ◌>>=◌ : {E A B : Type 0} → Result E A → (A → Result E B) → Result E B
ok a >>= f = f a
err e >>= f = err e

abbrev pub ◌>>◌ : {E B : Type 0} → Result E (Unit {0}) → Result E B → Result E B
m >> k = m >>= λ _. k

-- Inversion of a bind that succeeds.
pub >>=-eq-ok :
    {E A B : Type 0} (r : Result E A) (next : A → Result E B) {y : B}
    → (r >>= next) ≡ ok y
    → (x : A) × (r ≡ ok x) × (next x ≡ ok y)
>>=-eq-ok (ok x) next eq = (x, refl, eq)
>>=-eq-ok (err _) next eq = cc

abbrev pub IsOk : {E A : Type 0} → Result E A → Type 0
IsOk {A = A} r = (a : A) × (r ≡ ok a)

pub err-ne-ok : {E A : Type 0} (e : E) (a : A) → ¬ (◌≡◌ {A = Result E A} (err e) (ok a))
err-ne-ok e a h = cc

pub ok_inj : {E A : Type 0} {a b : A} → ◌≡◌ {A = Result E A} (ok a) (ok b) → a ≡ b
ok_inj h = cc

pub err_inj : {E A : Type 0} {e e' : E} → ◌≡◌ {A = Result E A} (err e) (err e') → e ≡ e'
err_inj h = cc

abbrev pub is_ok : {E A : Type 0} → Result E A → Bool
is_ok (ok a) = true
is_ok (err e) = false

pub >>=_congr :
    {E A B : Type 0} {r r' : Result E A} {f g : A → Result E B}
    → r ≡ r'
    → ((a : A) → f a ≡ g a)
    → (r >>= f) ≡ (r' >>= g)
>>=_congr {r = ok a} {f = f} {g} e h = h a ∙ ap (λ q. q >>= g) e
>>=_congr {r = err x} {f = f} {g} e h = ap (λ q. q >>= g) e

pub Result-cases :
    {E A : Type 0} (r : Result E A) → ((a : A) × (r ≡ ok a)) ⊎ ((e : E) × (r ≡ err e))
Result-cases (ok a) = inl (a, refl)
Result-cases (err e) = inr (e, refl)

-- Inversion of a bind that fails.
pub >>=-eq-err :
    {E A B : Type 0} (r : Result E A) (next : A → Result E B) {e : E}
    → (r >>= next) ≡ err e
    → (r ≡ err e) ⊎ ((a : A) × (r ≡ ok a) × (next a ≡ err e))
>>=-eq-err (ok a) next h = inr (a, refl, h)
>>=-eq-err (err x) next h = inl (cc)
