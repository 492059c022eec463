-- ===== src/HealthScope/Controller/Probing.antt =====
-- healthscope_controller.go, Reconcile: whether a scope is checked again.
use oam_kubernetes_runtime.Base.{
  ℕ, ◌+◌, ◌-◌, ◌*◌, ◌%◌, ◌<◌, GoString, true, Bool-cases, Option, none, some, List, ltb, Result, ok,
  err, IsOk, word, sign_bit, ◌≡◌, ◌↔◌, refl, ap, ◌∙◌, inl, inr, arith,
}
use oam_kubernetes_runtime.Api.Fieldpath.{found}
use oam_kubernetes_runtime.HealthScope.{WorkloadHealthCondition}
use oam_kubernetes_runtime.HealthScope.Controller.{
  HealthScope, ScopeClient, long_wait, is_positive, interval_of, observed, written, remaining,
  reconcile, reconcile_got,
}

long_wait-is_positive : is_positive long_wait ≡ true
long_wait-is_positive = refl

interval_of-is_positive : (seconds : Option ℕ) → is_positive (interval_of seconds) ≡ true
unfolding interval_of
interval_of-is_positive none = long_wait-is_positive
interval_of-is_positive (some seconds) =
    elim (Bool-cases (is_positive ((seconds * 1000000000) % word))) [
      | inl e ↦ rw e e
      | inr e ↦ rw e long_wait-is_positive
    ]

remaining-is_positive :
    (interval elapsed : ℕ)
    → is_positive interval ≡ true
    → interval < word
    → elapsed < sign_bit
    → is_positive ((interval + (word - elapsed)) % word) ≡ ltb elapsed interval
remaining-is_positive interval elapsed positive small past = ground arith

interval_of_bound : (seconds : Option ℕ) → interval_of seconds < word
unfolding interval_of
interval_of_bound none = omega arith
interval_of_bound (some seconds) = elim (Bool-cases (is_positive ((seconds * 1000000000) % word))) [
  | inl e ↦ rw e (omega arith)
  | inr e ↦ rw e (omega arith)
]

module _ {W : Type 0} (cl : ScopeClient W) where
  written-requeue_after :
      (n : ℕ) (w : W) (r : Result GoString W) → (written cl n w r).requeue_after ≡ n
  unfolding written
  written-requeue_after n w (ok w') = refl
  written-requeue_after n w (err e) = refl

  written-failure :
      (n : ℕ) (w : W) (r : Result GoString W) → ((written cl n w r).failure ≡ none) ↔ IsOk r
  unfolding written
  written-failure n w (ok w') = (λ h. (w', refl), λ h. refl)
  written-failure n w (err e) = (λ h. absurd cc, λ h. let (w', g) = h in cc)

  -- The reconciliation of a scope that exists asks for another one, which it does by a time above 0, exactly
  -- if the check of the workloads took less time than the interval, which is above 0 always. It
  -- returns no error exactly if the API server grants that the conditions which the check received are
  -- written. The time that the check took is not negative.
  pub reconcile-requeue_after :
      (namespace name : GoString) (received : List WorkloadHealthCondition) (elapsed : ℕ) (w : W)
      (hs : HealthScope)
      → cl.get namespace name w ≡ found hs
      → elapsed < sign_bit
      → let o = reconcile cl namespace name received elapsed w in
        (is_positive o.requeue_after ≡ ltb elapsed (interval_of hs.probe_interval))
        × (is_positive (interval_of hs.probe_interval) ≡ true)
        × ((o.failure ≡ none) ↔ IsOk (cl.update_status (observed hs received) w))
  unfolding reconcile reconcile_got
  reconcile-requeue_after namespace name received elapsed w hs exists past =
      let interval = interval_of hs.probe_interval in
      let update = cl.update_status (observed hs received) w in
      let positive = interval_of-is_positive hs.probe_interval in
      rw exists (
        ap is_positive (written-requeue_after (remaining cl interval elapsed) w update)
            ∙ remaining-is_positive interval elapsed positive (interval_of_bound hs.probe_interval)
                past,
        positive,
        written-failure (remaining cl interval elapsed) w update,
      )
