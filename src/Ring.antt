-- ===== src/Ring.antt =====
-- The circular queues of tr069_control.h (tr069_sample/libtr069/tr069/tr069_control.h):
-- `tr069_task_queue` and `tr069_request_queue` have one layout, and the put, pick and clear
-- functions of tr069_control.c handle both the same way. One slot always stays free.
pub mod Fifo
pub mod Run
use tr.Base.{ℕ, ◌+◌, ◌%◌, Option, none, some, ◌==◌, if◌then◌else◌}

-- TR069_MAX_TASK_NUM and TR069_MAX_REQUEST_NUM
abbrev pub max_num : ℕ
max_num = 16

-- The array is a function of the index; `Fifo` shows that every index used is below `max_num`.
pub record Ring (A : Type 0) : Type 0 where
  pub queue : ℕ → A
  pub head : ℕ
  pub tail : ℕ

-- `queue[i] = v`
abbrev pub update : {A : Type 0} → (ℕ → A) → ℕ → A → ℕ → A
update f i v j = if i == j then v else f j

module _ {A : Type 0} where
  -- `none` is "queue full".
  unfoldable pub put : Ring A → A → Option (Ring A)
  put r x =
      if (r.tail + 1) % max_num == r.head
      then none
      else some (record r { queue = update r.queue r.tail x; tail = (r.tail + 1) % max_num })

  -- `none` is "queue empty".
  unfoldable pub pick : Ring A → Option (A × Ring A)
  pick r =
      if r.tail == r.head
      then none
      else some (r.queue r.head, record r { head = (r.head + 1) % max_num })

  -- memset of the whole structure; `z` is the value whose bytes are 0.
  unfoldable pub cleared : A → Ring A
  cleared z = record { queue = λ i. z; head = 0; tail = 0 }
