-- ===== src/Queue.antt =====
-- The task queues of hikyuu/utilities/thread: ThreadSafeQueue.h, WorkStealQueue.h and MQStealQueue.h. Each
-- operation holds the queue's mutex, so several threads interleave as sequences of operations. A
-- FuncWrapper is `none` for the null task.
pub mod Order
use hku_utils.Base.{ℕ, List, [], ◌∷◌, ◌++◌, Option, none, some, Bool, true, false, length}
use mathlib.Core.List.{get_last?, drop_last}

abbrev pub FuncWrapper {ℓ} : Type ℓ → Type ℓ
FuncWrapper T = Option T

module _ {ℓ} {T : Type ℓ} where
  -- `isNullTask`.
  unfoldable pub is_null_task : FuncWrapper T → Bool
  is_null_task none = true
  is_null_task (some t) = false

module _ {ℓ} {A : Type ℓ} where
  -- `push` of ThreadSafeQueue and MQStealQueue, `push_back` of WorkStealQueue.
  unfoldable pub push : A → List A → List A
  push item queue = queue ++ item ∷ []

  unfoldable pub push_front : A → List A → List A
  push_front item queue = item ∷ queue

  -- `none`: the thread goes on waiting.
  unfoldable pub wait_and_pop : List A → Option (A × List A)
  wait_and_pop [] = none
  wait_and_pop (item ∷ queue) = some (item, queue)

  unfoldable pub try_pop : List A → Option A × List A
  try_pop [] = (none, [])
  try_pop (item ∷ queue) = (some item, queue)

  unfoldable pub empty : List A → Bool
  empty [] = true
  empty (item ∷ queue) = false

  unfoldable pub size : List A → ℕ
  size queue = length queue

  unfoldable pub clear : List A → List A
  clear queue = []

module _ {ℓ} {T : Type ℓ} where
  unfoldable pub try_steal : List (FuncWrapper T) → Option (FuncWrapper T) × List (FuncWrapper T)
  try_steal queue = elim (get_last? queue) [
    | none ↦ (none, queue)
    | some none ↦ (none, queue)
    | some (some t) ↦ (some (some t), drop_last queue)
  ]
