-- ===== src/Poller/Polls/Ready.antt =====
-- What `poll` and `fillActiveChannels` of a `PollPoller` report.
use netpoll_cpp.Base.{
  Bool-cases, List, [], ap, arith, if◌then◌else◌, inl, inr, length, ltb, nil_of_length, refl, suc,
  sym, ℕ, ◌+◌, ◌<◌, ◌==◌, ◌∷◌, ◌≡◌,
}
use netpoll_cpp.Channel.{Flags, is_none_event}
use netpoll_cpp.Poller.Polls.{PollFd, fill_active_channels, owner, poll}

-- Every entry whose `revents` has a bit.
pub ready_entries : List (PollFd × Flags) → List (ℕ × Flags)
ready_entries [] = []
ready_entries (x ∷ xs) =
    let rest = ready_entries xs in if is_none_event x.1 then rest else (owner x.0, x.1) ∷ rest

fill_all :
    (processed num : ℕ) (xs : List (PollFd × Flags))
    → num ≡ processed + length (ready_entries xs)
    → processed < num
    → fill_active_channels processed num xs ≡ ready_entries xs
unfolding fill_active_channels ready_entries
fill_all processed num [] h l = refl
fill_all processed num (x ∷ xs) h l = elim (Bool-cases (is_none_event x.1)) [
  | inl nothing ↦ rw nothing (fill_all processed num xs (rw nothing at h) l)
  | inr something ↦
      let h' : num ≡ processed + suc (length (ready_entries xs)) = rw something at h in
      rw something (
        ap (λ r. (owner x.0, x.1) ∷ r)
          (elim (Bool-cases (suc processed == num)) [
            | inl last ↦
                let none_left : length (ready_entries xs) ≡ 0 = ground (arith, last, h') in
                rw last (sym (nil_of_length (ready_entries xs) none_left))
            | inr more ↦
                rw more
                  (fill_all (suc processed) num xs (omega (arith, h')) (ground (arith, more, l)))
          ]))
]

-- If `poll` answers how many entries have events, as it is documented to, then all of these are
-- reported, in the order of the array, though the search stops at the last of them.
pub poll-ready_entries :
    (xs : List (PollFd × Flags)) → poll (length (ready_entries xs)) xs ≡ ready_entries xs
unfolding poll ready_entries
poll-ready_entries xs = elim (Bool-cases (ltb 0 (length (ready_entries xs)))) [
  | inl some_ready ↦
      rw some_ready
        (fill_all 0 (length (ready_entries xs)) xs (omega arith) (ground (arith, some_ready)))
  | inr none_ready ↦
      let nothing : length (ready_entries xs) ≡ 0 = ground (arith, none_ready) in
      rw none_ready (sym (nil_of_length (ready_entries xs) nothing))
]
