-- ===== src/Connection/Senders.antt =====
-- `send` of TcpConnectionImpl from any thread (netpoll/net/inner/tcp_connection_impl.cc): `m_sendNum`
-- and the functors queued in the loop decide when `sendInLoop` is called for each message. Threads and
-- messages are numbers; thread 0 is the loop's own.
pub mod Order
use netpoll_cpp.Base.{
  Bool, List, [], false, if◌then◌else◌, set_at, suc, true, ℕ, ◌++◌, ◌==◌, ◌∷◌, ◌≡◌, ◌≢◌,
}

-- `m_sendNum`; the messages whose thread has counted them and is to queue them; those in the loop's
-- queue; whether the functor of one has sent it and is to count down; those given to `sendInLoop`, and
-- those that each thread has given to `send`, in order.
pub record Senders : Type 0 where
  pub send_num : ℕ
  pub counted : List (ℕ × ℕ)
  pub queued : List (ℕ × ℕ)
  pub sending : Bool
  pub sent : List (ℕ × ℕ)
  pub given : ℕ → List ℕ

abbrev pub new_senders : Senders
new_senders = record {
  send_num = 0;
  counted = [];
  queued = [];
  sending = false;
  sent = [];
  given = λ t. [];
}

-- The messages of one thread.
unfoldable pub of_thread : ℕ → List (ℕ × ℕ) → List ℕ
of_thread t [] = []
of_thread t (x ∷ xs) = let rest = of_thread t xs in if x.0 == t then x.1 ∷ rest else rest

abbrev pub give : ℕ → ℕ → Senders → Senders
give t m s = record s { given = set_at t (s.given t ++ (m ∷ [])) s.given }

-- `plusSendNumByGuard`.
abbrev pub plus_send_num : ℕ → ℕ → Senders → Senders
plus_send_num t m s = record (give t m s) {
  send_num = suc s.send_num;
  counted = s.counted ++ ((t, m) ∷ []);
}

-- `send` in the loop's thread sends at once if `m_sendNum` is 0. Otherwise, and in any other thread, it
-- counts the message and then queues it; the overloads that hold the mutex meanwhile do the same
-- without a step of another thread between the two.
pub data Step (s : Senders) : Senders → Type 0 where
  sends_now :
      (m : ℕ) → s.send_num ≡ 0 → Step s (record (give 0 m s) { sent = s.sent ++ ((0, m) ∷ []) })
  counts_own : (m : ℕ) → s.send_num ≢ 0 → of_thread 0 s.counted ≡ [] → Step s (plus_send_num 0 m s)
  counts : (t m : ℕ) → t ≢ 0 → of_thread t s.counted ≡ [] → Step s (plus_send_num t m s)
  queues :
      (before after : List (ℕ × ℕ)) (t m : ℕ)
      → s.counted ≡ before ++ ((t, m) ∷ after)
      → Step s (record s { counted = before ++ after; queued = s.queued ++ ((t, m) ∷ []) })
  runs :
      (t m : ℕ) (rest : List (ℕ × ℕ))
      → s.sending ≡ false
      → s.queued ≡ (t, m) ∷ rest
      → Step s (record s { queued = rest; sending = true; sent = s.sent ++ ((t, m) ∷ []) })
  counts_down :
      (n : ℕ)
      → s.sending ≡ true
      → s.send_num ≡ suc n
      → Step s (record s { send_num = n; sending = false })

pub data Reach : Senders → Type 0 where
  start : Reach new_senders
  later : {s t : Senders} → Reach s → Step s t → Reach t
