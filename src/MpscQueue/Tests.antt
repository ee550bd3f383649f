-- ===== src/MpscQueue/Tests.antt =====
-- The queue at a concrete interleaving of two producers and the consumer.
use netpoll_cpp.Base.{List, none, refl, ℕ, ◌++◌, ◌≡◌, ◌≢◌}
use netpoll_cpp.MpscQueue.{dequeue, link, new_queue, swap_head}
use netpoll_cpp.MpscQueue.Runs.{
  Reach, Run, dequeue_in_order, later, linked, links, new_run, start, swapped, swaps, takes, took,
}

-- Item 7 and then item 8 are exchanged in, and only the second one is linked.
abbrev gap : Run ℕ
unfolding swap_head link new_queue
gap = linked 2 1 (swapped 8 (swapped 7 new_run))

gap-Reach : Reach gap
unfolding gap
gap-Reach = later (later (later start (swaps 7)) (swaps 8)) (links 2 1 refl)

dequeue_in_order_example :
    (dequeue gap.queue ≢ none) × ((rest : List ℕ) × (gap.queued ≡ gap.taken ++ rest))
dequeue_in_order_example = dequeue_in_order gap-Reach

-- Item 7 is queued, linked and taken.
abbrev finished : Run ℕ
unfolding swap_head link new_queue
finished = let c = linked 1 0 (swapped 7 new_run) in took 7 (record c.queue { tail = 1 }) c

finished-Reach : Reach finished
unfolding finished dequeue
finished-Reach =
    later (later (later start (swaps 7)) (links 1 0 refl)) (takes 7 finished.queue refl)
