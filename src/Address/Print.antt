-- ===== src/Address/Print.antt =====
-- net/address.cpp: InetAddress::ip. `inet_ntop` gives the text for the bytes that it reads, 4 or 16 by
-- the family, and the empty text if that does not fit in the 32 bytes given to it.
use magio.Prelude.{
  ℕ, ◌+◌, ◌*◌, ◌/◌, ◌%◌, ◌<◌, ◌≡◌, refl, true, List, [], ◌∷◌, ◌==◌, if◌then◌else◌, take, arith, inl,
}
use magio.Io.{af_inet, sa_family}
use magio.Address.{Pton, has_dot, from, with_address-All, sockaddr_in, zeros}

abbrev address_bytes : ℕ → ℕ
address_bytes af = if af == af_inet then 4 else 16

pub ip : (inet_ntop : ℕ → List ℕ → List ℕ) → (buf : List ℕ) → List ℕ
ip inet_ntop buf = inet_ntop (sa_family buf) (take (address_bytes (sa_family buf)) buf)

low_byte : (p : ℕ) → p < 65536 → (p % 256 * 256 + p / 256 % 256) % 256 ≡ p / 256
low_byte p h = omega (arith, h)

high_byte : (p : ℕ) → p < 65536 → (p % 256 * 256 + p / 256 % 256) / 256 % 256 ≡ p % 256
high_byte p h = omega (arith, h)

-- The text that `ip` gives for an address of version 4 made from a text and a port depends on the
-- port only: it is that of the bytes 2, 0 and the two bytes of the port.
ip_forgets :
    (inet_ntop : ℕ → List ℕ → List ℕ) (inet_pton : ℕ → List ℕ → Pton) (unset text buf : List ℕ)
    (p : ℕ)
    → p < 65536
    → has_dot text ≡ true
    → from inet_pton unset text p ≡ inl buf
    → ip inet_ntop buf ≡ inet_ntop af_inet (2 ∷ 0 ∷ p / 256 ∷ p % 256 ∷ [])
unfolding from ip
ip_forgets inet_ntop inet_pton unset text buf p h d e =
    with_address-All (λ b. ip inet_ntop b ≡ inet_ntop af_inet (2 ∷ 0 ∷ p / 256 ∷ p % 256 ∷ []))
      (inet_pton af_inet text) (zeros 4) (λ a. sockaddr_in p a unset)
      (λ a. rw (low_byte p h, high_byte p h) refl) buf (rw (d) at e)
