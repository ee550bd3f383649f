-- ===== src/InetAddress.antt =====
-- InetAddress (netpoll/net/inet_address.h and .cc). `little` is the host's byte order, which
-- `htons`, `htonl` and their inverses depend on.
pub mod Kinds
pub mod Ports
pub mod Socket
mod Tests
use netpoll_cpp.Base.{
  Bool, List, Option, false, if◌then◌else◌, leb, none, not, some, true, ℕ, ◌&&◌, ◌*◌, ◌++◌, ◌/◌,
  ◌==◌, ◌>>=◌, ◌^◌, ◌||◌, ◌∷◌,
}
use netpoll_cpp.Buffer.Words.{hton}

abbrev pub af_inet : ℕ
af_inet = 2

abbrev pub af_inet6 : ℕ
af_inet6 = 10

-- The four words of a `sin6_addr`, as they stand in memory.
pub record In6Addr : Type 0 where
  pub word0 : ℕ
  pub word1 : ℕ
  pub word2 : ℕ
  pub word3 : ℕ

-- The union of `m_addr` and `m_addr6`: the family and the port stand at the same place in both,
-- `sin_addr` where `sin6_flowinfo` is, and `sin_zero` where the first half of `sin6_addr` is.
pub record SockaddrIn6 : Type 0 where
  pub sin_family : ℕ
  pub sin_port : ℕ
  pub sin_addr : ℕ
  pub sin6_addr : In6Addr
  pub sin6_scope_id : ℕ

pub record InetAddress : Type 0 where
  pub addr : SockaddrIn6
  pub is_ipv6 : Bool
  pub is_unspecified : Bool

abbrev pub in6_any : In6Addr
in6_any = record { word0 = 0; word1 = 0; word2 = 0; word3 = 0 }

-- What `memset` leaves.
abbrev pub zeroed : SockaddrIn6
zeroed = record {
  sin_family = 0;
  sin_port = 0;
  sin_addr = 0;
  sin6_addr = in6_any;
  sin6_scope_id = 0;
}

unfoldable pub in6_loopback : Bool → In6Addr
unfolding hton
in6_loopback little = record in6_any { word3 = hton little 4 1 }

-- `kInaddrLoopback`, 127.0.0.1.
abbrev pub inaddr_loopback : ℕ
inaddr_loopback = 2130706433

-- The constructor from a port.
unfoldable pub of_port : Bool → (port : ℕ) → (loopback_only ipv6 : Bool) → InetAddress
unfolding hton in6_loopback
of_port little port loopback_only true = record {
  addr = record zeroed {
    sin_family = af_inet6;
    sin6_addr = if loopback_only then in6_loopback little else in6_any;
    sin_port = hton little 2 port;
  };
  is_ipv6 = true;
  is_unspecified = false;
}
of_port little port loopback_only false = record {
  addr = record zeroed {
    sin_family = af_inet;
    sin_addr = hton little 4 (if loopback_only then inaddr_loopback else 0);
    sin_port = hton little 2 port;
  };
  is_ipv6 = false;
  is_unspecified = false;
}

-- The constructor from a text. `pton4` and `pton6` are `inet_pton`, which leaves its target as it
-- is when the text is not an address: `none` here.
unfoldable pub of_ip :
    (pton4 : List ℕ → Option ℕ) (pton6 : List ℕ → Option In6Addr)
    → Bool
    → (ip : List ℕ) → (port : ℕ) → (ipv6 : Bool) → InetAddress
unfolding hton
of_ip pton4 pton6 little ip port true = elim (pton6 ip) [
  | none ↦ record {
    addr = record zeroed { sin_family = af_inet6; sin_port = hton little 2 port };
    is_ipv6 = true;
    is_unspecified = true;
  }
  | some a ↦ record {
    addr = record zeroed { sin_family = af_inet6; sin_port = hton little 2 port; sin6_addr = a };
    is_ipv6 = true;
    is_unspecified = false;
  }
]
of_ip pton4 pton6 little ip port false = elim (pton4 ip) [
  | none ↦ record {
    addr = record zeroed { sin_family = af_inet; sin_port = hton little 2 port };
    is_ipv6 = false;
    is_unspecified = true;
  }
  | some a ↦ record {
    addr = record zeroed { sin_family = af_inet; sin_port = hton little 2 port; sin_addr = a };
    is_ipv6 = false;
    is_unspecified = false;
  }
]

-- The constructors from the two structures; `a` holds what a `sockaddr_in` does not fill as it
-- happens to be.
unfoldable pub of_sockaddr_in : SockaddrIn6 → InetAddress
of_sockaddr_in a = record { addr = a; is_ipv6 = false; is_unspecified = false }

unfoldable pub of_sockaddr_in6 : SockaddrIn6 → InetAddress
of_sockaddr_in6 a = record { addr = a; is_ipv6 = true; is_unspecified = false }

unfoldable pub set_sock_addr_inet6 : SockaddrIn6 → InetAddress → InetAddress
set_sock_addr_inet6 a i = record {
  addr = a;
  is_ipv6 = a.sin_family == af_inet6;
  is_unspecified = false;
}

unfoldable pub set_port_net_endian : ℕ → InetAddress → InetAddress
set_port_net_endian port i = record i { addr = record i.addr { sin_port = port } }

unfoldable pub family : InetAddress → ℕ
family i = i.addr.sin_family

unfoldable pub port_net_endian : InetAddress → ℕ
port_net_endian i = i.addr.sin_port

unfoldable pub ip_net_endian : InetAddress → ℕ
ip_net_endian i = i.addr.sin_addr

unfoldable pub ip6_net_endian : InetAddress → In6Addr
ip6_net_endian i = i.addr.sin6_addr

unfoldable pub to_port : Bool → InetAddress → ℕ
unfolding hton port_net_endian
to_port little i = hton little 2 (port_net_endian i)

-- `toIp` and `toIpPort`; `ntop4`, `ntop6` and `decimal` are `inet_ntop` and the `%u` of `snprintf`.
-- With another family the buffer is returned as it was found: `none`.
module _ (ntop4 : ℕ → List ℕ) (ntop6 : In6Addr → List ℕ) (decimal : ℕ → List ℕ) where
  unfoldable pub to_ip : InetAddress → Option (List ℕ)
  to_ip i =
      if i.addr.sin_family == af_inet
      then some (ntop4 i.addr.sin_addr)
      else (if i.addr.sin_family == af_inet6 then some (ntop6 i.addr.sin6_addr) else none)

  unfoldable pub to_ip_port : Bool → InetAddress → Option (List ℕ)
  unfolding to_ip hton
  to_ip_port little i =
      to_ip i >>= (λ ip. some (ip ++ (58 ∷ decimal (hton little 2 i.addr.sin_port))))

-- The test on the three private ranges and on 127.0.0.1.
unfoldable pub in_private : ℕ → Bool
in_private ip =
    (leb 167772160 ip && leb ip 184549375)
    || (leb 2886729728 ip && leb ip 2887778303)
    || (leb 3232235520 ip && leb ip 3232301055)
    || (ip == inaddr_loopback)

-- `::1`, and `::ffff:a.b.c.d`.
unfoldable pub is_in6_loopback : Bool → In6Addr → Bool
unfolding hton
is_in6_loopback little a =
    (a.word0 == 0) && (a.word1 == 0) && (a.word2 == 0) && (hton little 4 a.word3 == 1)

unfoldable pub is_mapped : Bool → In6Addr → Bool
unfolding hton
is_mapped little a = (a.word0 == 0) && (a.word1 == 0) && (hton little 4 a.word2 == 65535)

-- `ntohl(*addrP) & 0xffc00000`: the ten highest bits of a word.
abbrev pub high_ten : ℕ → ℕ
high_ten n = (n / 2 ^ 22) * 2 ^ 22

unfoldable pub is_site_or_link_local : Bool → In6Addr → Bool
unfolding hton
is_site_or_link_local little a =
    (high_ten (hton little 4 a.word0) == 4273995776)
    || (high_ten (hton little 4 a.word0) == 4269801472)

-- The branches of the two tests for an IPv6 address.
unfoldable pub intranet6 : Bool → In6Addr → Bool
unfolding hton in_private is_in6_loopback is_mapped is_site_or_link_local
intranet6 little a =
    if is_in6_loopback little a
    then true
    else (if is_site_or_link_local little a
        then true
        else (if is_mapped little a then in_private (hton little 4 a.word3) else false))

unfoldable pub loopback6 : Bool → In6Addr → Bool
unfolding hton is_in6_loopback is_mapped
loopback6 little a =
    if is_in6_loopback little a
    then true
    else (is_mapped little a && (hton little 4 a.word3 == inaddr_loopback))

unfoldable pub is_intranet_ip : Bool → InetAddress → Bool
unfolding hton in_private intranet6 ip6_net_endian
is_intranet_ip little i =
    if i.addr.sin_family == af_inet
    then in_private (hton little 4 i.addr.sin_addr)
    else intranet6 little (ip6_net_endian i)

unfoldable pub is_loopback_ip : Bool → InetAddress → Bool
unfolding hton loopback6 ip6_net_endian
is_loopback_ip little i =
    if not i.is_ipv6
    then hton little 4 i.addr.sin_addr == inaddr_loopback
    else loopback6 little (ip6_net_endian i)
