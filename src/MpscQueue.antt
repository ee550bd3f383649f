-- ===== src/MpscQueue.antt =====
-- The lock-free queue of netpoll/util/lockfree_queue.h, for many producers and one consumer. A node
-- is named by its address, and no address is used twice. Each function here is one atomic access:
-- what happens between two of them is up to the other threads.
pub mod Chain
pub mod Runs
mod Tests
use netpoll_cpp.Base.{Bool, Option, false, none, set_at, some, suc, true, ℕ, ◌>>=◌}

-- `head_`, `tail_`, the next address that `new` gives, and the fields `next_` and `dataPtr_` of each
-- node.
pub record MpscQueue {ℓ} (A : Type ℓ) : Type ℓ where
  pub head : ℕ
  pub tail : ℕ
  pub fresh : ℕ
  pub next : ℕ → Option ℕ
  pub datum : ℕ → Option A

module _ {ℓ} {A : Type ℓ} where
  -- The constructor makes one node, without an item.
  unfoldable pub new_queue : MpscQueue A
  new_queue = record { head = 0; tail = 0; fresh = 1; next = λ n. none; datum = λ n. none }

  -- `enqueue` up to `head_.exchange`: the node made is `fresh`, and the previous head is returned.
  unfoldable pub swap_head : A → MpscQueue A → ℕ × MpscQueue A
  swap_head v q = (
    q.head,
    record q {
      head = q.fresh;
      fresh = suc q.fresh;
      next = set_at q.fresh none q.next;
      datum = set_at q.fresh (some v) q.datum;
    },
  )

  -- The end of `enqueue`: `prevhead->next_.store(node)`.
  unfoldable pub link : ℕ → ℕ → MpscQueue A → MpscQueue A
  link prev node q = record q { next = set_at prev (some node) q.next }

  unfoldable pub is_empty : MpscQueue A → Bool
  is_empty q = elim (q.next q.tail) [ none ↦ true | some n ↦ false ]

  -- `dequeue`: the item, if there is one. The outer `none` is a read through the `dataPtr_` of a node
  -- that has no item.
  unfoldable pub dequeue : MpscQueue A → Option (Option A × MpscQueue A)
  dequeue q = elim (q.next q.tail) [
    | none ↦ some (none, q)
    | some n ↦ q.datum n >>= λ v. some (some v, record q { tail = n })
  ]
