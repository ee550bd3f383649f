-- ===== src/InetAddress/Socket.antt =====
-- Socket (netpoll/net/inner/socket.cc): what it makes of the addresses and answers of the system
-- calls, which are arguments.
use netpoll_cpp.Base.{
  Bool, Option, ap, arith, false, if◌then◌else◌, inl, inr, none, refl, some, true, ℕ, ◌&&◌, ◌<◌,
  ◌==◌, ◌↔◌, ◌≡◌,
}
use netpoll_cpp.Buffer.Words.{hton, hton-zero}
use netpoll_cpp.InetAddress.{
  In6Addr, InetAddress, SockaddrIn6, af_inet, af_inet6, in6_any, in_private, inaddr_loopback,
  ip6_net_endian, is_in6_loopback, is_intranet_ip, is_loopback_ip, is_mapped, loopback6,
  of_sockaddr_in6, set_sock_addr_inet6, zeroed,
}
use netpoll_cpp.InetAddress.Kinds.{IsTagged}

-- What `getsockname`, `getpeername` and `accept` fill in, in network order, or that they failed.
pub data SockName : Type 0 where
  name4 : (port ip : ℕ) → SockName
  name6 : (port flow : ℕ) (a : In6Addr) (scope : ℕ) → SockName
  unnamed : SockName

-- `getLocalAddr` and `getPeerAddr`: a structure that `memset` cleared, as the call filled it.
unfoldable pub get_name : SockName → SockaddrIn6
get_name (name4 port ip) = record zeroed { sin_family = af_inet; sin_port = port; sin_addr = ip }
get_name (name6 port flow a scope) = record {
  sin_family = af_inet6;
  sin_port = port;
  sin_addr = flow;
  sin6_addr = a;
  sin6_scope_id = scope;
}
get_name unnamed = zeroed

-- `memcmp` on two `sin6_addr`.
abbrev pub same_in6 : In6Addr → In6Addr → Bool
same_in6 a b =
    (a.word0 == b.word0) && (a.word1 == b.word1) && (a.word2 == b.word2) && (a.word3 == b.word3)

unfoldable pub is_self_connect : (localname peername : SockName) → Bool
unfolding get_name
is_self_connect localname peername =
    let l = get_name localname in
    let p = get_name peername in
    if l.sin_family == af_inet
    then (l.sin_port == p.sin_port) && (l.sin_addr == p.sin_addr)
    else (if l.sin_family == af_inet6
        then (l.sin_port == p.sin_port) && same_in6 l.sin6_addr p.sin6_addr
        else false)

-- The size that `connect` and `bindAddress` pass with the address.
unfoldable pub addr_len : InetAddress → ℕ
addr_len i = if i.is_ipv6 then 28 else 16

-- `accept`: the descriptor, with the peer's name, or -1, which is `none`.
unfoldable pub accept : Option (ℕ × SockName) → InetAddress → Option ℕ × InetAddress
unfolding get_name set_sock_addr_inet6
accept none peeraddr = (none, peeraddr)
accept (some (fd, name)) peeraddr = (some fd, set_sock_addr_inet6 (get_name name) peeraddr)

-- `getSocketError`: what `getsockopt` gave, or `errno` when it failed.
unfoldable pub get_socket_error : Option ℕ → (errno : ℕ) → ℕ
get_socket_error none errno = errno
get_socket_error (some optval) errno = optval

-- The two ends of a connection, where the peer may not be connected yet.
abbrev pub IsPeerOf : SockName → SockName → Type 0
IsPeerOf (name4 p ip) (name4 q jp) = Unit {0}
IsPeerOf (name6 p f a s) (name6 q g b t) = Unit {0}
IsPeerOf (name4 p ip) unnamed = 0 < p
IsPeerOf (name6 p f a s) unnamed = 0 < p
IsPeerOf unnamed r = Unit {0}
IsPeerOf l r = ⊥

abbrev pub SameEnd : SockName → SockName → Type 0
SameEnd (name4 p ip) (name4 q jp) = (p ≡ q) × (ip ≡ jp)
SameEnd (name6 p f a s) (name6 q g b t) = (p ≡ q) × (a ≡ b)
SameEnd l r = ⊥

same_in6_refl : (a : In6Addr) → same_in6 a a ≡ true
same_in6_refl a = ground arith

in6_eq : (a b : In6Addr) → same_in6 a b ≡ true → a ≡ b
in6_eq a b h =
    let eta : (c : In6Addr)
        → record { word0 = c.word0; word1 = c.word1; word2 = c.word2; word3 = c.word3 } ≡ c =
      λ c. refl in
    let e : a.word0 ≡ b.word0 = ground (arith, h) in
    let f : a.word1 ≡ b.word1 = ground (arith, h) in
    let g : a.word2 ≡ b.word2 = ground (arith, h) in
    let k : a.word3 ≡ b.word3 = ground (arith, h) in cc

-- A connection is taken for one of a socket to itself exactly when both ends have the same address
-- and port; not when the peer is unknown.
pub is_self_connect_lem :
    (l r : SockName) → IsPeerOf l r → (is_self_connect l r ≡ true) ↔ SameEnd l r
unfolding is_self_connect get_name
is_self_connect_lem (name4 p ip) (name4 q jp) k =
    (λ h. (ground (arith, h), ground (arith, h)), λ e. ground (arith, e))
is_self_connect_lem (name4 p ip) (name6 q g b t) k = absurd k
is_self_connect_lem (name4 p ip) unnamed k = (λ h. absurd (ground (arith, h, k)), λ e. absurd e)
is_self_connect_lem (name6 p f a s) (name4 q jp) k = absurd k
is_self_connect_lem (name6 p f a s) (name6 q g b t) k = (
  λ h. (ground (arith, h), in6_eq a b (ground (arith, h))),
  λ e. ground (arith, e.0, same_in6_refl b, ap (λ c. same_in6 c b) e.1),
)
is_self_connect_lem (name6 p f a s) unnamed k = (λ h. absurd (ground (arith, h, k)), λ e. absurd e)
is_self_connect_lem unnamed r k = (λ h. absurd (ground (arith, h)), λ e. absurd e)

local_words : (little : Bool) → loopback6 little in6_any ≡ false
unfolding loopback6 is_in6_loopback is_mapped
local_words little = ground (arith, hton-zero little)

-- The local address of an IPv4 connection, as `newConnection`, the acceptor and the client make it.
-- It is marked as IPv6, so that `isLoopbackIp` reads words that hold no address and is false at
-- 127.0.0.1 too, and `connect` would pass the size of the other structure; an address that was copied in as
-- `accept` does it is read right.
pub local_addr_not_loopback :
    (little : Bool) (port ip : ℕ) (i : InetAddress)
    → hton little 4 ip ≡ inaddr_loopback
    → let wrong = of_sockaddr_in6 (get_name (name4 port ip)) in
      let right = set_sock_addr_inet6 (get_name (name4 port ip)) i in
      (is_loopback_ip little wrong ≡ false)
      × (is_intranet_ip little wrong ≡ true)
      × (addr_len wrong ≡ 28)
      × (is_loopback_ip little right ≡ true)
      × (is_intranet_ip little right ≡ true)
      × (addr_len right ≡ 16)
unfolding of_sockaddr_in6 set_sock_addr_inet6 get_name is_loopback_ip is_intranet_ip addr_len
    ip6_net_endian in_private
local_addr_not_loopback little port ip i h =
    let both : in_private (hton little 4 ip) ≡ true = ap in_private h in
    (local_words little, both, refl, rw h refl, both, refl)

abbrev pub IsNamed : SockName → Type 0
IsNamed (name4 p ip) = Unit {0}
IsNamed (name6 p f a s) = Unit {0}
IsNamed unnamed = ⊥

-- The address of an accepted connection is of the kind that it says.
pub accept-IsTagged :
    (fd : ℕ) (name : SockName) (i : InetAddress)
    → IsNamed name
    → IsTagged (accept (some (fd, name)) i).1
unfolding accept set_sock_addr_inet6 get_name
accept-IsTagged fd (name4 p ip) i k = record { known = inl refl; tag = refl }
accept-IsTagged fd (name6 p f a s) i k = record { known = inr refl; tag = refl }
accept-IsTagged fd unnamed i k = absurd k
