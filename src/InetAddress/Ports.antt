-- ===== src/InetAddress/Ports.antt =====
-- Ports, and whether an address was given.
use netpoll_cpp.Base.{
  Bool, List, Option, Option-cases, false, inl, inr, none, not, refl, some, true, ℕ, ◌<◌, ◌^◌, ◌≡◌,
}
use netpoll_cpp.Buffer.Words.{hton-hton}
use netpoll_cpp.InetAddress.{In6Addr, of_ip, of_port, port_net_endian, to_port}

-- The port that an address was made with, or that was stored in network order since, is the one
-- that `toPort` gives.
pub to_port-of_port :
    (little : Bool) (port : ℕ) (loopback_only ipv6 : Bool)
    → port < 256 ^ 2
    → to_port little (of_port little port loopback_only ipv6) ≡ port
unfolding to_port of_port port_net_endian
to_port-of_port little port loopback_only true h = hton-hton little 2 port h
to_port-of_port little port loopback_only false h = hton-hton little 2 port h

module _ (pton4 : List ℕ → Option ℕ) (pton6 : List ℕ → Option In6Addr) where
  pub to_port-of_ip :
      (little : Bool) (ip : List ℕ) (port : ℕ) (ipv6 : Bool)
      → port < 256 ^ 2
      → to_port little (of_ip pton4 pton6 little ip port ipv6) ≡ port
  unfolding to_port of_ip port_net_endian
  to_port-of_ip little ip port true h = elim (Option-cases (pton6 ip)) [
    | inl e ↦ rw (e, to_port, of_ip) (hton-hton little 2 port h)
    | inr (a, e) ↦ rw (e, to_port, of_ip) (hton-hton little 2 port h)
  ]
  to_port-of_ip little ip port false h = elim (Option-cases (pton4 ip)) [
    | inl e ↦ rw (e, to_port, of_ip) (hton-hton little 2 port h)
    | inr (a, e) ↦ rw (e, to_port, of_ip) (hton-hton little 2 port h)
  ]

  -- What the text is read as.
  abbrev pub read_as : List ℕ → Bool → Bool
  read_as ip true = elim (pton6 ip) [ none ↦ false | some a ↦ true ]
  read_as ip false = elim (pton4 ip) [ none ↦ false | some a ↦ true ]

  -- An address made from a text is marked as unspecified exactly when the text is not an address.
  pub of_ip-is_unspecified :
      (little : Bool) (ip : List ℕ) (port : ℕ) (ipv6 : Bool)
      → (of_ip pton4 pton6 little ip port ipv6).is_unspecified ≡ not (read_as ip ipv6)
  unfolding of_ip
  of_ip-is_unspecified little ip port true = elim (Option-cases (pton6 ip)) [
    | inl e ↦ rw (e, of_ip, read_as) refl
    | inr (a, e) ↦ rw (e, of_ip, read_as) refl
  ]
  of_ip-is_unspecified little ip port false = elim (Option-cases (pton4 ip)) [
    | inl e ↦ rw (e, of_ip, read_as) refl
    | inr (a, e) ↦ rw (e, of_ip, read_as) refl
  ]
