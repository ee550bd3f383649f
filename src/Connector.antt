-- ===== src/Connector.antt =====
-- The connector: netpoll/net/inner/connector.h and connector.cc, as built on Linux, in the thread of
-- its loop. The kernel's answers are arguments: the descriptor of the new socket, the `errno` of
-- `connect`, SO_ERROR, and whether a socket is connected to itself.
pub mod Interval
pub mod Sockets
pub mod Destruction
pub mod Steps
mod Tests
use netpoll_cpp.Base.{
  Bool, List, Option, [], false, if◌then◌else◌, ltb, none, not, some, true, ℕ, ◌*◌, ◌++◌, ◌==◌,
  ◌||◌, ◌∷◌,
}
use netpoll_cpp.Channel.{Channel, enable_writing, new_channel}

pub data Status : Type 0 where
  disconnected connecting connected : Status

-- What the connector makes happen outside: `close`, the callbacks, `runAfter` in milliseconds, and
-- the channel's `remove`.
pub data Effect : Type 0 where
  closes hands_over run_after removes : ℕ → Effect
  reports_error : Effect

pub record Connector : Type 0 where
  pub status : Status
  pub started : Bool
  pub retries : Bool
  pub retry_interval : ℕ
  pub max_retry_interval : ℕ
  pub channel : Option Channel
  pub socket_handed : Bool
  pub socket : Option ℕ
  pub error_set : Bool
  pub effects : List Effect

abbrev pub max_retry_delay : ℕ
max_retry_delay = 30 * 1000

abbrev pub init_retry_delay : ℕ
init_retry_delay = 500

abbrev pub new_connector : Bool → Connector
new_connector retries = record {
  status = disconnected;
  started = false;
  retries = retries;
  retry_interval = init_retry_delay;
  max_retry_interval = max_retry_delay;
  channel = none;
  socket_handed = false;
  socket = none;
  error_set = false;
  effects = [];
}

abbrev pub effect : Effect → Connector → Connector
effect e c = record c { effects = c.effects ++ (e ∷ []) }

abbrev pub report_error : Connector → Connector
report_error c = if c.error_set then effect reports_error c else c

-- `retry`, once `m_status` is set: the timer, and the doubled interval.
pub schedule : Connector → Connector
schedule c =
    if c.started
    then (let doubled = c.retry_interval * 2 in
        record (effect (run_after c.retry_interval) c) {
          retry_interval =
              if ltb c.max_retry_interval doubled then c.max_retry_interval else doubled;
        })
    else c

pub retry : ℕ → Connector → Connector
unfolding schedule
retry fd c = schedule (record (effect (closes fd) c) { status = disconnected })

pub connecting_on : ℕ → Connector → Connector
connecting_on fd c = record c {
  status = connecting;
  channel = some (
      enable_writing
        (record (new_channel fd) { write_set = true; error_set = true; close_set = true }));
}

-- The first cases of the switch on `errno`: 0, EINPROGRESS, EINTR and EISCONN.
abbrev pub goes_on : ℕ → Bool
goes_on e = e == 0 || e == 115 || e == 4 || e == 106

-- EAGAIN, EADDRINUSE, EADDRNOTAVAIL, ECONNREFUSED and ENETUNREACH.
abbrev pub comes_again : ℕ → Bool
comes_again e = e == 11 || e == 98 || e == 99 || e == 111 || e == 101

-- `connect`, which makes the socket `fd`.
pub connect : ℕ → ℕ → Connector → Connector
unfolding connecting_on retry
connect fd e c =
    let d : Connector = record c { socket_handed = false; socket = some fd } in
    if goes_on e
    then connecting_on fd d
    else if comes_again e
    then (if d.retries then retry fd d else d)
    else report_error (effect (closes fd) (record d { socket_handed = true }))

-- The assertion that the status is `Disconnected`, which a build may leave out, is not part of it.
pub start_in_loop : ℕ → ℕ → Connector → Connector
unfolding connect
start_in_loop fd e c = if c.started then connect fd e c else c

pub start : ℕ → ℕ → Connector → Connector
unfolding start_in_loop
start fd e c = start_in_loop fd e (record c { started = true })

-- The descriptor, and the connector without its channel.
pub remove_and_reset_channel : Connector → Option ℕ × Connector
remove_and_reset_channel c = elim c.channel [
  | none ↦ (none, c)
  | some k ↦ (some k.fd, record (effect (removes k.fd) c) { channel = none })
]

pub stop : Connector → Connector
unfolding remove_and_reset_channel
stop c = (remove_and_reset_channel (record c { started = false; status = disconnected })).1

pub restart : ℕ → ℕ → Connector → Connector
unfolding stop start
restart fd e c = start fd e (stop c)

-- `handleWrite`, with the socket that is taken from the channel.
pub settle : ℕ → ℕ → Bool → Connector → Connector
unfolding retry
settle fd so_error self_connect c =
    if not (so_error == 0) || self_connect
    then report_error
        (if c.retries then retry fd c else effect (closes fd) (record c { socket_handed = true }))
    else if c.started
    then effect (hands_over fd) (record c { status = connected })
    else effect (closes fd) (record c { status = connected; socket_handed = true })

-- The source reads SO_ERROR of descriptor -1 if there is no channel; a connector that is connecting
-- has one.
pub handle_write : ℕ → Bool → Connector → Connector
unfolding remove_and_reset_channel settle
handle_write so_error self_connect c =
    let d : Connector = record c { socket_handed = true } in
    elim d.status [
      | connecting ↦ elim (remove_and_reset_channel d).0 [
        | none ↦ d
        | some fd ↦ settle fd so_error self_connect (remove_and_reset_channel d).1
      ]
      | disconnected ↦ d
      | connected ↦ d
    ]

pub handle_error : Connector → Connector
unfolding remove_and_reset_channel retry
handle_error c =
    let d : Connector = record c { socket_handed = true } in
    elim d.status [
      | connecting ↦
          let r = remove_and_reset_channel (record d { status = disconnected }) in
          elim r.0 [
            | none ↦ r.1
            | some fd ↦ report_error (if r.1.retries then retry fd r.1 else effect (closes fd) r.1)
          ]
      | disconnected ↦ d
      | connected ↦ d
    ]

-- The destructor.
pub destroy : Connector → Connector
destroy c = elim c.socket [
  | none ↦ c
  | some fd ↦ if c.socket_handed then c else effect (closes fd) c
]
