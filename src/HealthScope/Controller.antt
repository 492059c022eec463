-- ===== src/HealthScope/Controller.antt =====
-- healthscope_controller.go, Reconcile: a scope is checked, its status written, and a time set for the
-- next check. Logs, events and timeouts are left out. A time.Duration is an int64 of nanoseconds.
pub mod Probing
use oam_kubernetes_runtime.Base.{
  ℕ, ◌+◌, ◌-◌, ◌*◌, ◌%◌, GoString, codes, ◌++◌, Bool, Option, none, some, List, if◌then◌else◌, ltb,
  Result, ok, err, word, sign_bit, signed_key,
}
use oam_kubernetes_runtime.Api.{TypedReference}
use oam_kubernetes_runtime.Api.Fieldpath.{Got, found, missing, failed}
use oam_kubernetes_runtime.HealthScope.{WorkloadHealthCondition, ScopeHealthCondition}
use oam_kubernetes_runtime.HealthScope.Summary.{scope_condition}

-- apis/core/v1alpha2/core_scope_types.go, HealthScope with its metadata. An *int32 is the bit pattern
-- of its value as an int64.
pub record HealthScope : Type 0 where
  pub name : GoString
  pub namespace : GoString
  pub probe_interval : Option ℕ
  pub workload_references : List TypedReference
  pub scope_health_condition : ScopeHealthCondition
  pub workload_health_conditions : List WorkloadHealthCondition

-- The client: a scope by namespace and name, and Status().Update.
pub record ScopeClient (W : Type 0) : Type 0 where
  pub get : GoString → GoString → W → Got HealthScope
  pub update_status : HealthScope → W → Result GoString W

-- What Reconcile returns: the time after which to repeat, and the error.
pub record Outcome (W : Type 0) : Type 0 where
  pub requeue_after : ℕ
  pub failure : Option GoString
  pub world : W

abbrev second : ℕ
second = 1000000000

abbrev pub long_wait : ℕ
long_wait = 10000000000

-- An int64 above 0
abbrev pub is_positive : ℕ → Bool
is_positive d = ltb sign_bit (signed_key d)

-- The time from one check to the next.
unfoldable pub interval_of : Option ℕ → ℕ
interval_of none = long_wait
interval_of (some seconds) =
    let interval = (seconds * second) % word in if is_positive interval then interval else long_wait

-- The scope with the conditions that were received.
abbrev pub observed : HealthScope → List WorkloadHealthCondition → HealthScope
observed hs received = record hs {
  scope_health_condition = scope_condition hs.workload_references received;
  workload_health_conditions = received;
}

module _ {W : Type 0} (cl : ScopeClient W) where
  written : ℕ → W → Result GoString W → Outcome W
  written requeue_after w (ok w') = record {
    requeue_after = requeue_after;
    failure = none;
    world = w';
  }
  written requeue_after w (err e) = record {
    requeue_after = requeue_after;
    failure = some (codes "cannot update health scope status: " ++ e);
    world = w;
  }

  -- interval - elapsed
  abbrev pub remaining : ℕ → ℕ → ℕ
  remaining interval elapsed = (interval + (word - elapsed)) % word

  reconcile_got : List WorkloadHealthCondition → ℕ → W → Got HealthScope → Outcome W
  unfolding written
  reconcile_got received elapsed w (found hs) =
      written (remaining (interval_of hs.probe_interval) elapsed) w
        (cl.update_status (observed hs received) w)
  reconcile_got received elapsed w missing = record { requeue_after = 0; failure = none; world = w }
  reconcile_got received elapsed w (failed e) = record {
    requeue_after = 0;
    failure = some (codes "cannot get health scope: " ++ e);
    world = w;
  }

  -- Reconcile, where the check of the scope has received these conditions and took this time.
  unfoldable pub reconcile : GoString → GoString → List WorkloadHealthCondition → ℕ → W → Outcome W
  unfolding reconcile_got
  reconcile namespace name received elapsed w =
      reconcile_got received elapsed w (cl.get namespace name w)
