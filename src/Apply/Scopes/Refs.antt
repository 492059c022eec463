-- ===== src/Apply/Scopes/Refs.antt =====
-- apply.go, the lists of references of applyScope and applyScopeRemoval.
use oam_kubernetes_runtime.Base.{
  ℕ, Option, none, some, List, [], ◌∷◌, ◌++◌, drop_last, drop_last-snoc, Result, ok, >>=-eq-ok,
  ok_inj, ◌≡◌, refl, sym, ap, subst, ◌∙◌, inl, inr, ◌⊎◌, append_assoc,
}
use mathlib.Core.List.{Permᴰ}
use mathlib.Core.List.Permᴰ
use oam_kubernetes_runtime.Api.{TypedReference}
use oam_kubernetes_runtime.Api.Value.{Value, null}
use oam_kubernetes_runtime.Apply.Scopes.{
  ScopeError, ref_index, ref_value, add_ref, set_at, last_value, swap_remove, remove_ref,
}
use oam_kubernetes_runtime.Apply.Scopes.Index.{
  IsRefTo, Split, none_ne_some, some_inj, ref_index-Split, ref_value-IsRefTo, ref_index-snoc,
}

added :
    (r : TypedReference) (refs refs' : List Value) (i : Option ℕ)
    → ref_index r refs ≡ ok i
    → ◌≡◌ {A = Result ScopeError (Option (List Value))}
        (ok (elim i [ none ↦ some (refs ++ (ref_value r ∷ [])) | some _ ↦ none ]))
        (ok (some refs'))
    → (refs' ≡ refs ++ (ref_value r ∷ [])) × IsRefTo r (ref_value r) × (add_ref r refs' ≡ ok none)
unfolding add_ref
added r refs refs' none at e =
    let same = some_inj (ok_inj e) in
    (
      sym same,
      ref_value-IsRefTo r,
      subst (λ us. add_ref r us ≡ ok none) same (rw (ref_index-snoc r refs at).1 refl),
    )
added r refs refs' (some n) at e = absurd (none_ne_some (ok_inj e))

-- Adding a reference that was not in the list makes one that is: the entry is new at the end, and
-- adding it again changes nothing.
pub add_ref_again :
    (r : TypedReference) (refs refs' : List Value)
    → add_ref r refs ≡ ok (some refs')
    → (refs' ≡ refs ++ (ref_value r ∷ [])) × IsRefTo r (ref_value r) × (add_ref r refs' ≡ ok none)
unfolding add_ref
add_ref_again r refs refs' e =
    let (i, at, e') = >>=-eq-ok (ref_index r refs) _ e in added r refs refs' i at e'

last_value-snoc : (x v : Value) (vs : List Value) → last_value x (vs ++ v ∷ []) ≡ v
unfolding last_value
last_value-snoc x v [] = refl
last_value-snoc x v (w ∷ vs) = last_value-snoc w v vs

Snoc : List Value → Type 0
Snoc vs = (vs ≡ []) ⊎ ((front : List Value) × (v : Value) × (vs ≡ front ++ v ∷ []))

Snoc-view : (vs : List Value) → Snoc vs
unfolding Snoc
Snoc-view [] = inl refl
Snoc-view (v ∷ vs) = elim (Snoc-view vs) [
  | inl e ↦ inr ([], v, ap (◌∷◌ v) e)
  | inr (front, w, e) ↦ inr (v ∷ front, w, ap (◌∷◌ v) e)
]

-- The two shapes of what swapping with the last and dropping it leaves.
swapped_last-perm : (v : Value) (before : List Value) → Permᴰ (before ++ v ∷ []) (v ∷ before)
swapped_last-perm v before =
    Permᴰ.trans (Permᴰ.middle v before []) (Permᴰ.cons refl (Permᴰ.append-nil before))

swapped_inner-perm :
    (v z : Value) (before front : List Value)
    → Permᴰ (before ++ v ∷ (front ++ z ∷ [])) (v ∷ (before ++ z ∷ front))
swapped_inner-perm v z before front =
    Permᴰ.trans (Permᴰ.middle v before (front ++ z ∷ []))
      (Permᴰ.cons refl (Permᴰ.append_left before (swapped_last-perm z front)))

swap_remove-eq_last :
    (n : ℕ) (v : Value) (before : List Value)
    → ((x : Value) → set_at n x (before ++ v ∷ []) ≡ before ++ x ∷ [])
    → swap_remove n (before ++ v ∷ []) ≡ before
unfolding swap_remove
swap_remove-eq_last n v before set =
    ap drop_last (set _ ∙ ap (λ x. before ++ x ∷ []) (last_value-snoc null v before))
    ∙ drop_last-snoc before v

swap_remove-eq_inner :
    (n : ℕ) (v z : Value) (before front : List Value)
    → ((x : Value) → set_at n x (before ++ v ∷ (front ++ z ∷ [])) ≡ before ++ x ∷ (front ++ z ∷ []))
    → swap_remove n (before ++ v ∷ (front ++ z ∷ [])) ≡ before ++ z ∷ front
unfolding swap_remove
swap_remove-eq_inner n v z before front set =
    ap drop_last (
      set _
      ∙ ap (λ x. before ++ x ∷ (front ++ z ∷ []))
          (ap (last_value null) (sym (append_assoc before (v ∷ front) (z ∷ [])))
            ∙ last_value-snoc null z (before ++ v ∷ front))
      ∙ sym (append_assoc before (z ∷ front) (z ∷ [])))
    ∙ drop_last-snoc (before ++ z ∷ front) z

swap_remove-perm :
    (n : ℕ) (before : List Value) (v : Value) (after : List Value)
    → Snoc after
    → ((x : Value) → set_at n x (before ++ v ∷ after) ≡ before ++ x ∷ after)
    → Permᴰ (before ++ v ∷ after) (v ∷ swap_remove n (before ++ v ∷ after))
unfolding Snoc
swap_remove-perm n before v after (inl e) =
    subst
      (λ after.
        ((x : Value) → set_at n x (before ++ v ∷ after) ≡ before ++ x ∷ after)
        → Permᴰ (before ++ v ∷ after) (v ∷ swap_remove n (before ++ v ∷ after)))
      (sym e) (λ set. rw (swap_remove-eq_last n v before set) (swapped_last-perm v before))
swap_remove-perm n before v after (inr (front, z, e)) =
    subst
      (λ after.
        ((x : Value) → set_at n x (before ++ v ∷ after) ≡ before ++ x ∷ after)
        → Permᴰ (before ++ v ∷ after) (v ∷ swap_remove n (before ++ v ∷ after)))
      (sym e)
      (λ set.
        rw (swap_remove-eq_inner n v z before front set) (swapped_inner-perm v z before front))

Split-perm :
    (r : TypedReference) (vs : List Value) (n : ℕ)
    → Split r vs n
    → (v : Value) × IsRefTo r v × Permᴰ vs (v ∷ swap_remove n vs)
unfolding Split
Split-perm r vs n (before, v, after, e, is, set) = (
  v,
  is,
  subst
      (λ us. ((x : Value) → set_at n x us ≡ before ++ x ∷ after) → Permᴰ us (v ∷ swap_remove n us))
      (sym e) (swap_remove-perm n before v after (Snoc-view after)) set,
)

removed :
    (r : TypedReference) (refs refs' : List Value) (i : Option ℕ)
    → ref_index r refs ≡ ok i
    → ◌≡◌ {A = Result ScopeError (Option (List Value))}
        (ok (elim i [ none ↦ none | some n ↦ some (swap_remove n refs) ]))
        (ok (some refs'))
    → (v : Value) × IsRefTo r v × Permᴰ refs (v ∷ refs')
removed r refs refs' none at e = absurd (none_ne_some (ok_inj e))
removed r refs refs' (some n) at e =
    subst (λ us. (v : Value) × IsRefTo r v × Permᴰ refs (v ∷ us)) (some_inj (ok_inj e))
      (Split-perm r refs n (ref_index-Split r refs n at))

-- Removing a reference takes one entry, a reference to that object, and keeps the others, in
-- whatever order.
pub remove_ref-perm :
    (r : TypedReference) (refs refs' : List Value)
    → remove_ref r refs ≡ ok (some refs')
    → (v : Value) × IsRefTo r v × Permᴰ refs (v ∷ refs')
unfolding remove_ref
remove_ref-perm r refs refs' e =
    let (i, at, e') = >>=-eq-ok (ref_index r refs) _ e in removed r refs refs' i at e'
