-- ===== src/InetAddress/Kinds.antt =====
-- The kind of an address: which member of the union is in use, and what the tests on it say.
use netpoll_cpp.Base.{
  Bool, List, Option, Option-cases, [], ap, arith, false, inl, inr, refl, sym, true, ℕ, ◌==◌, ◌∙◌,
  ◌∷◌, ◌≡◌, ◌⊎◌,
}
use netpoll_cpp.Buffer.Words.{hton, hton-zero}
use netpoll_cpp.InetAddress.{
  In6Addr, InetAddress, SockaddrIn6, af_inet, af_inet6, in_private, inaddr_loopback, intranet6,
  ip6_net_endian, is_in6_loopback, is_intranet_ip, is_loopback_ip, is_mapped, is_site_or_link_local,
  loopback6, of_ip, of_port, set_port_net_endian, set_sock_addr_inet6,
}

-- Which member is in use is what `m_isIpv6` says.
pub record IsTagged (i : InetAddress) : Type 0 where
  pub known : (i.addr.sin_family ≡ af_inet) ⊎ (i.addr.sin_family ≡ af_inet6)
  pub tag : i.is_ipv6 ≡ (i.addr.sin_family == af_inet6)

-- What a program does with an address of its own.
pub data AddressChange : Type 0 where
  sets_sock_addr : SockaddrIn6 → AddressChange
  sets_port : ℕ → AddressChange

unfoldable pub change : AddressChange → InetAddress → InetAddress
unfolding set_sock_addr_inet6 set_port_net_endian
change (sets_sock_addr a) i = set_sock_addr_inet6 a i
change (sets_port p) i = set_port_net_endian p i

unfoldable pub changes : List AddressChange → InetAddress → InetAddress
unfolding change
changes [] i = i
changes (c ∷ cs) i = changes cs (change c i)

-- The structures that are copied in are of one of the two families.
abbrev pub AllKnown : List AddressChange → Type 0
AllKnown [] = Unit {0}
AllKnown (sets_sock_addr a ∷ cs) =
    ((a.sin_family ≡ af_inet) ⊎ (a.sin_family ≡ af_inet6)) × AllKnown cs
AllKnown (sets_port p ∷ cs) = AllKnown cs

pub changes-IsTagged :
    (cs : List AddressChange) {i : InetAddress} → AllKnown cs → IsTagged i → IsTagged (changes cs i)
unfolding changes change set_sock_addr_inet6 set_port_net_endian
changes-IsTagged [] k t = t
changes-IsTagged (sets_sock_addr a ∷ cs) k t =
    changes-IsTagged cs k.1 (record { known = k.0; tag = refl })
changes-IsTagged (sets_port p ∷ cs) k t =
    changes-IsTagged cs k (record { known = t.known; tag = t.tag })

pub of_port-IsTagged :
    (little : Bool) (port : ℕ) (loopback_only ipv6 : Bool)
    → IsTagged (of_port little port loopback_only ipv6)
unfolding of_port
of_port-IsTagged little port loopback_only true = record { known = inr refl; tag = refl }
of_port-IsTagged little port loopback_only false = record { known = inl refl; tag = refl }

pub of_ip-IsTagged :
    (pton4 : List ℕ → Option ℕ) (pton6 : List ℕ → Option In6Addr) (little : Bool) (ip : List ℕ)
    → (port : ℕ) (ipv6 : Bool) → IsTagged (of_ip pton4 pton6 little ip port ipv6)
unfolding of_ip
of_ip-IsTagged pton4 pton6 little ip port true = elim (Option-cases (pton6 ip)) [
  | inl e ↦ rw (e, of_ip) (record { known = inr refl; tag = refl })
  | inr (a, e) ↦ rw (e, of_ip) (record { known = inr refl; tag = refl })
]
of_ip-IsTagged pton4 pton6 little ip port false = elim (Option-cases (pton4 ip)) [
  | inl e ↦ rw (e, of_ip) (record { known = inl refl; tag = refl })
  | inr (a, e) ↦ rw (e, of_ip) (record { known = inl refl; tag = refl })
]

in_private-loopback : (n : ℕ) → (n == inaddr_loopback) ≡ true → in_private n ≡ true
unfolding in_private
in_private-loopback n h = ground (arith, h)

-- Which tests an address of each family gets.
pub kinds4 :
    (little : Bool) {i : InetAddress}
    → IsTagged i
    → i.addr.sin_family ≡ af_inet
    → (is_intranet_ip little i ≡ in_private (hton little 4 i.addr.sin_addr))
      × (is_loopback_ip little i ≡ (hton little 4 i.addr.sin_addr == inaddr_loopback))
unfolding is_intranet_ip is_loopback_ip
kinds4 little {i} t four =
    let f : (i.addr.sin_family == af_inet) ≡ true = ground (arith, four) in
    let g : i.is_ipv6 ≡ false = ground (arith, four, t.tag) in (rw f refl, rw g refl)

pub kinds6 :
    (little : Bool) {i : InetAddress}
    → IsTagged i
    → i.addr.sin_family ≡ af_inet6
    → (is_intranet_ip little i ≡ intranet6 little i.addr.sin6_addr)
      × (is_loopback_ip little i ≡ loopback6 little i.addr.sin6_addr)
unfolding is_intranet_ip is_loopback_ip ip6_net_endian
kinds6 little {i} t six =
    let f : (i.addr.sin_family == af_inet) ≡ false = ground (arith, six) in
    let g : i.is_ipv6 ≡ true = ground (arith, six, t.tag) in (rw f refl, rw g refl)

intranet6-loopback6 :
    (little : Bool) (a : In6Addr) → loopback6 little a ≡ true → intranet6 little a ≡ true
unfolding intranet6 loopback6
intranet6-loopback6 little a h = ground (arith, h, in_private-loopback (hton little 4 a.word3))

-- An address that `isLoopbackIp` accepts is one that `isIntranetIp` accepts too.
pub is_intranet_ip-loopback :
    (little : Bool) {i : InetAddress}
    → IsTagged i
    → is_loopback_ip little i ≡ true
    → is_intranet_ip little i ≡ true
is_intranet_ip-loopback little {i} t h = elim t.known [
  | inl four ↦
      let (e, f) = kinds4 little t four in
      e ∙ in_private-loopback (hton little 4 i.addr.sin_addr) (sym f ∙ h)
  | inr six ↦
      let (e, f) = kinds6 little t six in
      e ∙ intranet6-loopback6 little i.addr.sin6_addr (sym f ∙ h)
]

-- An IPv4 address and the IPv6 address that it is mapped to: `::ffff:a.b.c.d`.
pub record IsMappedTo (little : Bool) (i j : InetAddress) : Type 0 where
  pub four : i.addr.sin_family ≡ af_inet
  pub six : j.addr.sin_family ≡ af_inet6
  pub first : j.addr.sin6_addr.word0 ≡ 0
  pub second : j.addr.sin6_addr.word1 ≡ 0
  pub third : hton little 4 j.addr.sin6_addr.word2 ≡ 65535
  pub last : j.addr.sin6_addr.word3 ≡ i.addr.sin_addr

-- What the tests on an IPv6 address give for `::ffff:a.b.c.d`.
mapped6 :
    (little : Bool) (a : In6Addr)
    → a.word0 ≡ 0
    → a.word1 ≡ 0
    → hton little 4 a.word2 ≡ 65535
    → (intranet6 little a ≡ in_private (hton little 4 a.word3))
      × (loopback6 little a ≡ (hton little 4 a.word3 == inaddr_loopback))
unfolding intranet6 loopback6 is_mapped is_in6_loopback is_site_or_link_local
mapped6 little a first second third =
    let none_of : is_in6_loopback little a ≡ false =
      ground (arith, third, hton-zero little, ap (λ n. hton little 4 n) {x = a.word2} {y = 0}) in
    let not_local : is_site_or_link_local little a ≡ false =
      ground (arith, hton-zero little, ap (λ n. hton little 4 n) first) in
    let mapped : is_mapped little a ≡ true = ground (arith, first, second, third) in
    (rw (none_of, not_local, mapped) refl, rw (none_of, mapped) refl)

-- The two tests say of an IPv6 address that an IPv4 address is mapped to what they say of that one.
pub mapped_kinds :
    (little : Bool) {i j : InetAddress}
    → IsTagged i
    → IsTagged j
    → IsMappedTo little i j
    → (is_intranet_ip little j ≡ is_intranet_ip little i)
      × (is_loopback_ip little j ≡ is_loopback_ip little i)
mapped_kinds little {i} {j} t u m =
    let (e, f) = kinds4 little t m.four in
    let (g, h) = kinds6 little u m.six in
    let (p, q) = mapped6 little j.addr.sin6_addr m.first m.second m.third in
    (
      g ∙ p ∙ ap (λ n. in_private (hton little 4 n)) m.last ∙ sym e,
      h ∙ q ∙ ap (λ n. hton little 4 n == inaddr_loopback) m.last ∙ sym f,
    )
