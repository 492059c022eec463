-- ===== src/Apply/Scopes/Index.antt =====
-- apply.go: the search for a reference in the list of a scope.
use oam_kubernetes_runtime.Base.{
  ℕ, suc, ◌==◌, ==_refl, true, false, All, Bool-cases, Option, none, some, List, [], ◌∷◌, ◌++◌,
  Result, ok, >>=-eq-ok, ok_inj, ◌≡◌, refl, sym, ap, subst, ◌∙◌, inl, inr,
}
use oam_kubernetes_runtime.Api.{TypedReference}
use oam_kubernetes_runtime.Api.Value.{Value, Fields}
use oam_kubernetes_runtime.Apply.Scopes.{
  ScopeError, as_map, field_is, is_ref, ref_index, ref_value, set_at,
}

-- A reference to that object, as an entry of the list.
pub IsRefTo : TypedReference → Value → Type 0
IsRefTo r v = (o : Fields) × (as_map v ≡ ok o) × (is_ref r o ≡ true)

-- The index n points at the first reference to the object.
unfoldable pub Split : TypedReference → List Value → ℕ → Type 0
unfolding set_at
Split r vs n =
    (before : List Value) × (v : Value) × (after : List Value) × (vs ≡ before ++ v ∷ after)
    × IsRefTo r v
    × ((x : Value) → set_at n x vs ≡ before ++ x ∷ after)

pub none_ne_some : {A : Type 0} {a : A} → ¬ (◌≡◌ {A = Option A} none (some a))
none_ne_some h = cc

pub some_inj : {A : Type 0} {a b : A} → ◌≡◌ {A = Option A} (some a) (some b) → a ≡ b
some_inj h = cc

Split-first : (r : TypedReference) (v : Value) (vs : List Value) → IsRefTo r v → Split r (v ∷ vs) 0
unfolding Split set_at
Split-first r v vs is = ([], v, vs, refl, is, λ x. refl)

not_later :
    (i : Option ℕ)
    → ◌≡◌ {A = Result ScopeError (Option ℕ)}
        (ok (elim i [ none ↦ none | some k ↦ some (suc k) ]))
        (ok none)
    → i ≡ none
not_later none e = refl
not_later (some k) e = absurd (none_ne_some (sym (ok_inj e)))

Split-cons :
    (r : TypedReference) (v : Value) (vs : List Value) (n : ℕ)
    → Split r vs n
    → Split r (v ∷ vs) (suc n)
unfolding Split set_at
Split-cons r v vs n (before, w, after, e, is, set) =
    (v ∷ before, w, after, ap (◌∷◌ v) e, is, λ x. ap (◌∷◌ v) (set x))

Split-later :
    (r : TypedReference) (v : Value) (vs : List Value) (n : ℕ) (i : Option ℕ)
    → ((k : ℕ) → i ≡ some k → Split r vs k)
    → ◌≡◌ {A = Result ScopeError (Option ℕ)}
        (ok (elim i [ none ↦ none | some k ↦ some (suc k) ]))
        (ok (some n))
    → Split r (v ∷ vs) n
Split-later r v vs n none later e = absurd (none_ne_some (ok_inj e))
Split-later r v vs n (some k) later e =
    subst (Split r (v ∷ vs)) (some_inj (ok_inj e)) (Split-cons r v vs k (later k refl))

pub ref_index-Split :
    (r : TypedReference) (vs : List Value) (n : ℕ) → ref_index r vs ≡ ok (some n) → Split r vs n
unfolding ref_index IsRefTo
ref_index-Split r [] n e = absurd (none_ne_some (ok_inj e))
ref_index-Split r (v ∷ vs) n e =
    let (o, is_map, e') = >>=-eq-ok (as_map v) _ e in
    elim (Bool-cases (is_ref r o)) [
      | inl same ↦
          subst (Split r (v ∷ vs)) (some_inj (ok_inj (rw same at e')))
            (Split-first r v vs (o, is_map, same))
      | inr other ↦
          let (i, at, e'') = >>=-eq-ok (ref_index r vs) _ (rw other at e') in
          Split-later r v vs n i (λ k f. ref_index-Split r vs k (at ∙ ap ok f)) e''
    ]

pub ref_value-IsRefTo : (r : TypedReference) → IsRefTo r (ref_value r)
unfolding IsRefTo as_map is_ref field_is ◌==◌
ref_value-IsRefTo r = (_, refl, rw (==_refl r.api_version, ==_refl r.kind, ==_refl r.name) refl)

ref_index-at_IsRefTo :
    (r : TypedReference) (v : Value) (vs : List Value)
    → IsRefTo r v
    → ref_index r (v ∷ vs) ≡ ok (some 0)
unfolding ref_index IsRefTo
ref_index-at_IsRefTo r v vs (o, is_map, same) = rw (is_map, same) refl

pub ref_index-snoc :
    (r : TypedReference) (vs : List Value)
    → ref_index r vs ≡ ok none
    → (n : ℕ) × (ref_index r (vs ++ (ref_value r ∷ [])) ≡ ok (some n))
unfolding ref_index IsRefTo
ref_index-snoc r [] e = (0, ref_index-at_IsRefTo r (ref_value r) [] (ref_value-IsRefTo r))
ref_index-snoc r (v ∷ vs) e =
    let (o, is_map, e') = >>=-eq-ok (as_map v) _ e in
    elim (Bool-cases (is_ref r o)) [
      | inl same ↦ absurd (none_ne_some (sym (ok_inj (rw same at e'))))
      | inr other ↦
          let (i, at, e'') = >>=-eq-ok (ref_index r vs) _ (rw other at e') in
          let (n, found) = ref_index-snoc r vs (at ∙ ap ok (not_later i e'')) in
          (suc n, rw (is_map, other, found) refl)
    ]

pub ref_index-none :
    (r : TypedReference) (vs : List Value) → ref_index r vs ≡ ok none → All (λ v. ¬ IsRefTo r v) vs
unfolding ref_index IsRefTo
ref_index-none r [] e = tt
ref_index-none r (v ∷ vs) e =
    let (o, is_map, e') = >>=-eq-ok (as_map v) _ e in
    elim (Bool-cases (is_ref r o)) [
      | inl same ↦ absurd (none_ne_some (sym (ok_inj (rw same at e'))))
      | inr other ↦
          let (i, at, e'') = >>=-eq-ok (ref_index r vs) _ (rw other at e') in
          (
            (λ (p, p_map, same).
                true_ne_false (sym same ∙ ap (is_ref r) (ok_inj (sym p_map ∙ is_map)) ∙ other)),
            ref_index-none r vs (at ∙ ap ok (not_later i e'')),
          )
    ]
  where
    true_ne_false : ¬ (true ≡ false)
    true_ne_false h = cc
