-- ===== src/InetAddress/Tests.antt =====
-- Addresses of a big-endian host.

use netpoll_cpp.Base.{false, inr, refl, true, ◌≡◌}
use netpoll_cpp.Buffer.Words.{hton}
use netpoll_cpp.InetAddress.{
  InetAddress, af_inet6, is_intranet_ip, is_loopback_ip, of_port, of_sockaddr_in6,
  set_sock_addr_inet6,
}
use netpoll_cpp.InetAddress.Kinds.{mapped_kinds, of_port-IsTagged}
use netpoll_cpp.InetAddress.Socket.{addr_len, get_name, local_addr_not_loopback, name4}

abbrev home : InetAddress
home = of_port false 80 true false

abbrev home_mapped : InetAddress
home_mapped = record {
  addr = record {
    sin_family = af_inet6;
    sin_port = 80;
    sin_addr = 0;
    sin6_addr = record { word0 = 0; word1 = 0; word2 = 65535; word3 = 2130706433 };
    sin6_scope_id = 0;
  };
  is_ipv6 = true;
  is_unspecified = false;
}

mapped_kinds_example :
    (is_intranet_ip false home_mapped ≡ is_intranet_ip false home)
    × (is_loopback_ip false home_mapped ≡ is_loopback_ip false home)
unfolding of_port hton
mapped_kinds_example =
    mapped_kinds false (of_port-IsTagged false 80 true false)
      (record { known = inr refl; tag = refl })
      (record { four = refl; six = refl; first = refl; second = refl; third = refl; last = refl })

local_addr_not_loopback_example :
    let wrong = of_sockaddr_in6 (get_name (name4 80 2130706433)) in
    let right = set_sock_addr_inet6 (get_name (name4 80 2130706433)) home in
    (is_loopback_ip false wrong ≡ false)
    × (is_intranet_ip false wrong ≡ true)
    × (addr_len wrong ≡ 28)
    × (is_loopback_ip false right ≡ true)
    × (is_intranet_ip false right ≡ true)
    × (addr_len right ≡ 16)
unfolding hton
local_addr_not_loopback_example = local_addr_not_loopback false 80 2130706433 home refl
