-- ===== src/Core/Endpoint.antt =====
-- Endpoints and resolved addresses: crates/kafka-driver-core/src/endpoint.rs. A string is the list
-- of its UTF-8 bytes, an array of octets the list of them, a port a number that is not zero.
use mathlib.Core.Path.{ap₂}
use kafka_driver.Base.{
  nat_eq, ℕ, Bool, not, ◌&&◌, List, length, any, ltb, leb, ◌==◌, if◌then◌else◌, Eq, same_list, ◌≡◌,
  true, false, ◌↔◌, same_list_iff, both-true, ap, ==_refl, refl, ==_iff, arith,
}

pub record HostName : Type 0 where
  pub bytes : List ℕ

pub data HostNameError : Type 0 where
  empty : HostNameError
  too_long : (bytes limit : ℕ) → HostNameError
  invalid_character : HostNameError

pub data HostNameResult : Type 0 where
  valid : HostName → HostNameResult
  invalid : HostNameError → HostNameResult

abbrev pub max_bytes : ℕ
max_bytes = 253

-- `u8::is_ascii_graphic`: from `!` to `~`.
abbrev pub is_ascii_graphic : ℕ → Bool
is_ascii_graphic byte = leb 33 byte && leb byte 126

unfoldable pub new_host : List ℕ → HostNameResult
new_host value =
    if length value == 0
    then invalid empty
    else if ltb max_bytes (length value)
    then invalid (too_long (length value) max_bytes)
    else if any (λ byte. not (is_ascii_graphic byte)) value
    then invalid invalid_character
    else valid (record { bytes = value })

pub record BrokerEndpoint : Type 0 where
  pub host : HostName
  pub port : ℕ

pub data IpAddress : Type 0 where
  v4 v6 : (octets : List ℕ) → IpAddress

pub data ResolvedSocketAddress : Type 0 where
  socket_v4 : (octets : List ℕ) → (port : ℕ) → ResolvedSocketAddress
  socket_v6 : (octets : List ℕ) → (port flow_info scope_id : ℕ) → ResolvedSocketAddress

pub record ResolvedAddress : Type 0 where
  pub socket : ResolvedSocketAddress

unfoldable pub new_address : IpAddress → (port : ℕ) → ResolvedAddress
new_address (v4 octets) port = record { socket = socket_v4 octets port }
new_address (v6 octets) port = record { socket = socket_v6 octets port 0 0 }

unfoldable pub ipv6 : (octets : List ℕ) → (port flow_info scope_id : ℕ) → ResolvedAddress
ipv6 octets port flow_info scope_id = record { socket = socket_v6 octets port flow_info scope_id }

unfoldable pub ip : ResolvedAddress → IpAddress
ip a = elim a.socket [ socket_v4 octets _ ↦ v4 octets | socket_v6 octets _ _ _ ↦ v6 octets ]

unfoldable pub port_of : ResolvedAddress → ℕ
port_of a = elim a.socket [ socket_v4 _ port ↦ port | socket_v6 _ port _ _ ↦ port ]

unfoldable pub flow_info_of : ResolvedAddress → ℕ
flow_info_of a = elim a.socket [ socket_v4 _ _ ↦ 0 | socket_v6 _ _ flow_info _ ↦ flow_info ]

unfoldable pub scope_id_of : ResolvedAddress → ℕ
scope_id_of a = elim a.socket [ socket_v4 _ _ ↦ 0 | socket_v6 _ _ _ scope_id ↦ scope_id ]

-- The derived equality of endpoints and of addresses.
abbrev same_endpoint : BrokerEndpoint → BrokerEndpoint → Bool
same_endpoint a b = same_list a.host.bytes b.host.bytes && a.port == b.port

same_endpoint_refl : (a : BrokerEndpoint) → same_endpoint a a ≡ true
same_endpoint_refl a = rw ((same_list_iff a.host.bytes a.host.bytes).1 refl, ==_refl a.port) refl

pub same_endpoint_iff : (a b : BrokerEndpoint) → (same_endpoint a b ≡ true) ↔ (a ≡ b)
same_endpoint_iff a b = (sound, λ h. rw (← h) (same_endpoint_refl a))
  where
    sound : same_endpoint a b ≡ true → a ≡ b
    sound h =
        let (hosts, ports) = both-true (same_list a.host.bytes b.host.bytes) (a.port == b.port) h in
        ap₂ (λ bytes port. record { host = record { bytes = bytes }; port = port })
          ((same_list_iff a.host.bytes b.host.bytes).0 hosts) ((==_iff a.port b.port).0 ports)

instance abbrev pub endpoint_eq : Eq BrokerEndpoint
endpoint_eq = record { same = same_endpoint; same_iff = same_endpoint_iff }

abbrev same_socket : ResolvedSocketAddress → ResolvedSocketAddress → Bool
same_socket (socket_v4 o p) (socket_v4 o' p') = same_list o o' && p == p'
same_socket (socket_v6 o p f s) (socket_v6 o' p' f' s') =
    same_list o o' && p == p' && f == f' && s == s'
same_socket _ _ = false

same_socket_refl : (a : ResolvedSocketAddress) → same_socket a a ≡ true
same_socket_refl (socket_v4 o p) = rw ((same_list_iff o o).1 refl, ==_refl p) refl
same_socket_refl (socket_v6 o p f s) =
    rw ((same_list_iff o o).1 refl, ==_refl p, ==_refl f, ==_refl s) refl

same_socket_sound : (a b : ResolvedSocketAddress) → same_socket a b ≡ true → a ≡ b
same_socket_sound (socket_v4 o p) (socket_v4 o' p') h =
    let (os, ps) = both-true (same_list o o') (p == p') h in
    ap₂ socket_v4 ((same_list_iff o o').0 os) ((==_iff p p').0 ps)
same_socket_sound (socket_v4 o p) (socket_v6 o' p' f' s') h = absurd (ground (arith, h))
same_socket_sound (socket_v6 o p f s) (socket_v4 o' p') h = absurd (ground (arith, h))
same_socket_sound (socket_v6 o p f s) (socket_v6 o' p' f' s') h =
    let (h1, ss) = both-true (same_list o o' && p == p' && f == f') (s == s') h in
    let (h2, fs) = both-true (same_list o o' && p == p') (f == f') h1 in
    let (os, ps) = both-true (same_list o o') (p == p') h2 in
    rw ((same_list_iff o o').0 os, (==_iff p p').0 ps, (==_iff f f').0 fs, (==_iff s s').0 ss) refl

pub same_address_iff : (a b : ResolvedAddress) → (same_socket a.socket b.socket ≡ true) ↔ (a ≡ b)
same_address_iff a b = (
  λ h. ap (λ s. record { socket = s }) (same_socket_sound a.socket b.socket h),
  λ h. rw (← h) (same_socket_refl a.socket),
)

instance abbrev pub address_eq : Eq ResolvedAddress
address_eq = record { same = λ a b. same_socket a.socket b.socket; same_iff = same_address_iff }
