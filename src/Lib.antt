-- ===== src/Lib.antt =====
-- netpoll-cpp, a non-blocking TCP library with one event loop per thread: its byte buffer,
-- channels, the pollers, the event loop and its lock-free queue, timers, connections, the
-- connector, the acceptor, the client and the server, the task queue and the resolver, modelled
-- from netpoll/util and netpoll/net as they are built on Linux (and the pollers of other
-- systems).
--
-- A connection reads into and writes from buffers; it asks for events by its channel's mask,
-- which the poller hands to the kernel; the loop calls the channel back, and the channel calls
-- the connection. The timer queue has a channel of its own for its timer descriptor. Other
-- threads hand functors to the loop through the lock-free queue, and wake it by its event
-- descriptor.
--
-- Buffer is MessageBuffer (netpoll/util/message_buffer.h and .cc): the record MessageBuffer has
-- the fields m_head, m_tail, m_initCap and m_buffer, and each method is the function of its
-- name in snake case. A method that changes the object returns the new record. `size_t` sums
-- and differences are taken modulo 2^64. ensureWritableBytes and pushBack call each other in
-- the source; `ensure_fuel` bounds the depth by 2, and on a valid buffer that is enough, since
-- a new buffer has the room that it was made for. std::copy runs from the first byte to the
-- last. Allocation failure is not modelled, and a failing assert is a hypothesis of the
-- theorems.
--
-- Channel is Channel (netpoll/net/channel.h and .cc): an event mask is a record of its bits,
-- and handleEvent returns the callbacks that it makes, in order. The calls of update() and
-- remove() are those of the poller.
--
-- Poller (netpoll/net/inner/poller.h) has what the three pollers promise, as a record of
-- operations and laws; Poller/Client has the calls that an event loop makes, on any of them,
-- and Poller/Instances and Poller/Refinement the three as such records. Poller/Epoll is
-- EpollPoller (netpoll/net/inner/poller/epoll_poller.cc): the states kNew, kAdded and kDeleted
-- of each descriptor's channel, the calls of epoll_ctl in order, and the growth of the event
-- list. Poller/Polls is PollPoller (poll_poller.cc): the array for poll() and each channel's
-- index in it. A new Channel object for a descriptor is an operation of each (Poller/Made).
-- Poller/Kqueue is KQueue (kqueue.cc): the changes handed to kevent. What the kernel watches is
-- computed from the calls by their documented effect. Kqueue/Active is poll(), which makes the
-- answer of kevent the active channels, and Kqueue/Fork is resetAfterFork().
--
-- MpscQueue is MpscQueue (netpoll/util/lockfree_queue.h): the nodes by address, and one function
-- for each atomic access. MpscQueue/Runs interleaves the producers and the consumer at these
-- accesses, with sequential consistency; addresses are not used again, so that a deleted node is
-- one behind the tail.
--
-- EventLoop is EventLoop (netpoll/net/eventloop.cc) from the start of loop() on, as a step
-- relation: loop() with doRunInLoopFuncs, and any number of other threads in queueInLoop and
-- quit. The events of poll() are not told apart: it may return at any time. Exceptions and
-- runOnQuit are left out. EventLoop/Threads is the constructor, moveToCurrentThread and the
-- destructor, and TimerQueue/Calls the functions that make timers.
--
-- TimerQueue is TimerQueue and Timer (netpoll/net/inner/timer_queue.cc, timer.cc): the heap of
-- timers is a list ordered by time, the timer descriptor is the time for which it was last set,
-- and a callback is a function that changes the queue. TimerQueue/Clock is how the descriptor
-- is set, and TimerQueue/Arming has reset() after a fork.
--
-- Connection is TcpConnectionImpl (netpoll/net/inner/tcp_connection_impl.cc) in the thread of
-- its loop. Each operation takes the kernel's answer to its one call of write, sendfile or
-- readv. The bytes that the kernel took and the callbacks made are kept in the record, in
-- order; a callback is recorded, and what the user's code does in it is a later step.
-- Connection/Reachable has these steps as a relation. Connection/Senders is about send() in any
-- thread, and the order in which the messages reach sendInLoop. Connection/Stream is
-- sendStream, on its own, and Connection/Again what sendFile does to a connection that has
-- closed.
--
-- Connector is Connector (netpoll/net/inner/connector.cc): the status, the socket, the channel
-- and the retry interval; what it does outside (close, the callbacks, runAfter, the channel's
-- remove) is kept as effects, in order. A timer that retry() sets is a later step.
--
-- TimingWheel is TimingWheel (netpoll/net/inner/timing_wheel.cc): a pointer that is inserted is
-- a number, and is dropped when no bucket holds it any more, which is when its destructor runs.
-- The float division of the constructor is an argument, exact for numbers up to 2^24. The
-- number of queues is found on fuel 64, enough for any timeout whose products do not wrap.
-- Single is about wheels of one queue, as TcpServer makes for idle timeouts below 500 seconds.
-- Kickoff has the idle timeout of a connection, in such a wheel
-- (netpoll/net/inner/tcp_connection_impl.h).
--
-- TcpServer is TcpServer (netpoll/net/tcp_server.cc) with EventLoopThreadPool
-- (netpoll/net/eventloop_threadpool.cc): the set of connections, and the calls of
-- handleCloseInLoop and connectDestroyed that are queued in the loops. Its steps are run by the
-- loops in any order. TcpServer/Wheels is start() with the timing wheels of the loops, and
-- TcpServer/Stopping is stop().
--
-- Acceptor is Acceptor (netpoll/net/inner/acceptor.cc): what it opens, accepts, closes and
-- hands over, in order. TcpClient is TcpClient (netpoll/net/tcp_client.cc) on the connector of
-- Connector.
--
-- TaskQueue is ConcurrentTaskQueue (netpoll/util/concurrent_task_queue.cc) as a step relation:
-- the workers in queueFunc, the threads in runTask and the one in stop(), at each access of
-- m_stop, the mutex and the condition variable. A wait may end for no reason, and notify_one may
-- pick any thread that waits.
--
-- EventLoopThread is EventLoopThread (netpoll/net/eventloop_thread.cc) as a step relation: the
-- owner, the thread with the loop, and others that call quit() of the loop. The loop is reduced
-- to m_quit and the function that run() waits for.
--
-- Resolver is ResolverImpl (netpoll/net/inner/resolver_impl.cc): the shared cache, and the
-- lookups that its one worker runs, in any sequence. The answers of getaddrinfo and the clock
-- are arguments. A host name is a view and the string at its data(), which may be longer. The
-- tests on the cache are one step each, since they hold the mutex.
--
-- InetAddress is InetAddress (netpoll/net/inet_address.h and .cc), with the union of the two
-- address structures laid out as on Linux, on hosts of both byte orders, and InetAddress/Socket
-- what Socket (netpoll/net/inner/socket.cc) makes of addresses. inet_pton and inet_ntop are
-- arguments.
--
-- Timestamp is Timestamp (netpoll/util/time_stamp.h and .cc), a signed number of microseconds,
-- without the bounds of int64_t. Funcs is splitString
-- (netpoll/util/funcs.h), whose loop has fuel for one round more than the string has characters.
--
-- Not modelled: toFormatString of Timestamp; the wrappers, SignalTask, TaskPerThreadQueue and
-- the conversions of encode_util, which nothing stated here needs; the logging library and
-- wepoll, which are third-party code.
pub mod Base
pub mod Acceptor
pub mod Buffer
pub mod Channel
pub mod Connection
pub mod Connector
pub mod EventLoop
pub mod EventLoopThread
pub mod Funcs
pub mod InetAddress
pub mod MpscQueue
pub mod Poller
pub mod Resolver
pub mod TaskQueue
pub mod TcpClient
pub mod TcpServer
pub mod TimerQueue
pub mod Timestamp
pub mod TimingWheel
