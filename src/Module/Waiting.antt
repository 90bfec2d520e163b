-- ===== src/Module/Waiting.antt =====
-- Which threads wait on which handles.
pub mod Refine
use book_filer_module_ssh.Prelude.{
  ℕ, zero, suc, String, List, [], ◌∷◌, ◌++◌, str_eq, eq_iff, ◌≡◌, refl, inl, inr, arith, Bool-cases,
  if◌then◌else◌,
}
use book_filer_module_ssh.Module.{
  Thread, ConditionVariables, Module, waiters, add_waiter, wake, notify_one, wait, notify,
}

add_waiter-waiters :
    (t : Thread) (handle other : String) (v : ConditionVariables)
    → waiters other (add_waiter t handle v)
      ≡ (if str_eq handle other then waiters other v ++ t ∷ [] else waiters other v)
unfolding waiters add_waiter
add_waiter-waiters t handle other [] = refl
add_waiter-waiters t handle other ((h, ts) ∷ rest) = elim (Bool-cases (str_eq h handle)) [
  | inl hit ↦ ground (arith, (eq_iff h handle).0 hit)
  | inr miss ↦ ground (
    arith,
    add_waiter-waiters t handle other rest,
    eq_iff h other,
    eq_iff handle other,
    eq_iff h handle,
  )
]

notify_one-waiters :
    (i : ℕ) (handle other : String) (v : ConditionVariables)
    → waiters other (notify_one i handle v)
      ≡ (if str_eq handle other then wake i (waiters other v) else waiters other v)
unfolding waiters notify_one wake
notify_one-waiters i handle other [] = ground arith
notify_one-waiters i handle other ((h, ts) ∷ rest) = elim (Bool-cases (str_eq h handle)) [
  | inl hit ↦ ground (arith, (eq_iff h handle).0 hit)
  | inr miss ↦ ground (
    arith,
    notify_one-waiters i handle other rest,
    eq_iff h other,
    eq_iff handle other,
    eq_iff h handle,
  )
]

-- The threads that wait on a handle.
abbrev pub waiting_on : String → Module → List Thread
waiting_on handle m = waiters handle m.condition_variable_map

pub waiting_on-wait :
    (t : Thread) (handle other : String) (m : Module)
    → waiting_on other (wait t handle m)
      ≡ (if str_eq handle other then waiting_on other m ++ t ∷ [] else waiting_on other m)
unfolding wait
waiting_on-wait t handle other m = add_waiter-waiters t handle other m.condition_variable_map

pub waiting_on-notify :
    (i : ℕ) (handle other : String) (m : Module)
    → waiting_on other (notify i handle m)
      ≡ (if str_eq handle other then wake i (waiting_on other m) else waiting_on other m)
unfolding notify
waiting_on-notify i handle other m = notify_one-waiters i handle other m.condition_variable_map

wake-single : (i : ℕ) (t : Thread) → wake i (t ∷ []) ≡ []
unfolding wake
wake-single zero t = refl
wake-single (suc i) t = refl

wake-nil : (i : ℕ) → wake i [] ≡ []
unfolding wake
wake-nil zero = refl
wake-nil (suc i) = refl

-- Where no thread waits on a handle, a thread waits on it and then the handle is notified,
-- whichever thread the notification chooses: afterwards the same threads wait on every handle as
-- before.
pub notify-wait :
    (t : Thread) (i : ℕ) (handle other : String) (m : Module)
    → waiting_on handle m ≡ []
    → waiting_on other (notify i handle (wait t handle m)) ≡ waiting_on other m
notify-wait t i handle other m e = ground (
  arith,
  waiting_on-notify i handle other (wait t handle m),
  waiting_on-wait t handle other m,
  wake-single i t,
  eq_iff handle other,
)

-- Where no thread waits on a handle, the handle is notified, and then a thread waits on it: that
-- thread waits, though the notification was given.
pub early_notification_lost :
    (t : Thread) (i : ℕ) (handle : String) (m : Module)
    → waiting_on handle m ≡ []
    → waiting_on handle (wait t handle (notify i handle m)) ≡ t ∷ []
early_notification_lost t i handle m e = ground (
  arith,
  waiting_on-wait t handle handle (notify i handle m),
  waiting_on-notify i handle handle m,
  wake-nil i,
  eq_iff handle handle,
)
