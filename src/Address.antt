-- ===== src/Address.antt =====
-- net/address.cpp: InetAddress, on a little-endian host. `inet_pton` is a parameter, and so are the
-- bytes of `buf_` that nothing has written.
pub mod Print
mod Tests
use magio.Prelude.{
  ℕ, suc, ◌+◌, ◌*◌, ◌/◌, ◌%◌, ◌<◌, ◌≡◌, refl, sym, ap, ◌∙◌, ◌⊎◌, inl, inr, Bool, true, false, not,
  List, [], ◌∷◌, ◌++◌, ◌==◌, ◌||◌, if◌then◌else◌, take, arith, Bool-cases, subst,
}
use magio.Io.{af_inet, sa_family, sockaddr_len}

abbrev af_inet6 : ℕ
af_inet6 = 10

-- The answer of `inet_pton`: -1 with an error code, 0, or 1 with the bytes of the address.
pub data Pton : Type 0 where
  failed : (ec : ℕ) → Pton
  no_address : Pton
  parsed : List ℕ → Pton

-- `find('.')`.
abbrev pub has_dot : List ℕ → Bool
has_dot [] = false
has_dot (c ∷ cs) = (c == 46) || has_dot cs

-- A 16-bit number with its bytes exchanged, and the bytes of one as the host stores it.
abbrev htons : ℕ → ℕ
htons n = n % 256 * 256 + n / 256 % 256

abbrev stored : ℕ → List ℕ → List ℕ
stored n rest = n % 256 ∷ n / 256 % 256 ∷ rest

abbrev loaded : List ℕ → ℕ
loaded (lo ∷ hi ∷ rest) = lo + 256 * hi
loaded _ = 0

abbrev pub zeros : ℕ → List ℕ
zeros n = take n (0 ∷ 0 ∷ 0 ∷ 0 ∷ 0 ∷ 0 ∷ 0 ∷ 0 ∷ 0 ∷ 0 ∷ 0 ∷ 0 ∷ 0 ∷ 0 ∷ 0 ∷ 0 ∷ [])

-- `sockaddr_in` and `sockaddr_in6`, with the address given; `unset` are the other bytes of `buf_`.
abbrev pub sockaddr_in : (port : ℕ) → List ℕ → (unset : List ℕ) → List ℕ
sockaddr_in port addr unset = stored af_inet (stored (htons port) (addr ++ zeros 8 ++ unset))

abbrev sockaddr_in6 : (port : ℕ) → List ℕ → (unset : List ℕ) → List ℕ
sockaddr_in6 port addr unset =
    stored af_inet6 (stored (htons port) (zeros 4 ++ addr ++ zeros 4 ++ unset))

-- The address, or the error code.
pub with_address : Pton → (none_given : List ℕ) → (List ℕ → List ℕ) → List ℕ ⊎ ℕ
with_address (failed ec) none_given fill = inr ec
with_address no_address none_given fill = inl (fill none_given)
with_address (parsed bytes) none_given fill = inl (fill bytes)

pub from : (inet_pton : ℕ → List ℕ → Pton) (unset : List ℕ) (ip : List ℕ) (port : ℕ) → List ℕ ⊎ ℕ
unfolding with_address
from inet_pton unset ip port =
    if has_dot ip
    then with_address (inet_pton af_inet ip) (zeros 4) (λ a. sockaddr_in port a unset)
    else with_address (inet_pton af_inet6 ip) (zeros 16) (λ a. sockaddr_in6 port a unset)

-- `from(sockaddr*)`: `unset` has the bytes of `buf_` after those copied.
pub from_sockaddr : (paddr unset : List ℕ) → List ℕ
from_sockaddr paddr unset = take (sockaddr_len paddr) paddr ++ unset

abbrev after_family : List ℕ → List ℕ
after_family (a ∷ b ∷ rest) = rest
after_family _ = []

-- `ntohs(sin_port)`.
pub port : List ℕ → ℕ
port buf = htons (loaded (after_family buf))

pub is_ipv4 : List ℕ → Bool
is_ipv4 buf = sa_family buf == af_inet

pub is_ipv6 : List ℕ → Bool
is_ipv6 buf = sa_family buf == af_inet6

htons-htons : (n : ℕ) → n < 65536 → htons (htons n % 256 + 256 * (htons n / 256 % 256)) ≡ n
htons-htons n h = omega (arith, h)

-- What an address keeps of its parts.
pub record Keeps (v4 : Bool) (p : ℕ) (buf : List ℕ) : Type 0 where
  pub same_port : port buf ≡ p
  pub family4 : is_ipv4 buf ≡ v4
  pub family6 : is_ipv6 buf ≡ not v4

sockaddr_in-Keeps :
    (p : ℕ) (addr unset : List ℕ) → p < 65536 → Keeps true p (sockaddr_in p addr unset)
unfolding port is_ipv4 is_ipv6
sockaddr_in-Keeps p addr unset h = record {
  same_port = htons-htons p h;
  family4 = refl;
  family6 = refl;
}

sockaddr_in6-Keeps :
    (p : ℕ) (addr unset : List ℕ) → p < 65536 → Keeps false p (sockaddr_in6 p addr unset)
unfolding port is_ipv4 is_ipv6
sockaddr_in6-Keeps p addr unset h = record {
  same_port = htons-htons p h;
  family4 = refl;
  family6 = refl;
}

abbrev pub Kept : Bool → ℕ → List ℕ → List ℕ → Type 0
Kept v4 p copied buf = Keeps v4 p buf × Keeps v4 p (from_sockaddr buf copied)

sockaddr_in-Kept :
    (p : ℕ) (addr unset copied : List ℕ) → p < 65536 → Kept true p copied (sockaddr_in p addr unset)
unfolding from_sockaddr port is_ipv4 is_ipv6
sockaddr_in-Kept p addr unset copied h = (
  sockaddr_in-Keeps p addr unset h,
  record { same_port = htons-htons p h; family4 = refl; family6 = refl },
)

sockaddr_in6-Kept :
    (p : ℕ) (addr unset copied : List ℕ)
    → p < 65536
    → Kept false p copied (sockaddr_in6 p addr unset)
unfolding from_sockaddr port is_ipv4 is_ipv6
sockaddr_in6-Kept p addr unset copied h = (
  sockaddr_in6-Keeps p addr unset h,
  record { same_port = htons-htons p h; family4 = refl; family6 = refl },
)

either : List ℕ → List ℕ ⊎ ℕ → List ℕ
either x (inl a) = a
either x (inr b) = x

inl-inj : {x y : List ℕ} → Path (List ℕ ⊎ ℕ) (inl x) (inl y) → x ≡ y
unfolding either
inl-inj {x = x} e = ap (either x) e

pub with_address-All :
    (P : List ℕ → Type 0) (r : Pton) (none_given : List ℕ) (fill : List ℕ → List ℕ)
    → ((a : List ℕ) → P (fill a))
    → (buf : List ℕ) → with_address r none_given fill ≡ inl buf
    → P buf
unfolding with_address
with_address-All P (failed ec) n fill h buf e = absurd (ground (arith, e))
with_address-All P no_address n fill h buf e = subst P (inl-inj e) (h n)
with_address-All P (parsed bytes) n fill h buf e = subst P (inl-inj e) (h bytes)

-- An address made from a text and a port has that port, and is of version 4 if the text has a dot and
-- of version 6 otherwise; so is its copy by the length that it gives for itself.
pub from-Kept :
    (inet_pton : ℕ → List ℕ → Pton) (unset copied ip buf : List ℕ) (p : ℕ)
    → p < 65536
    → from inet_pton unset ip p ≡ inl buf
    → Kept (has_dot ip) p copied buf
unfolding from
from-Kept inet_pton unset copied ip buf p h e = elim (Bool-cases (has_dot ip)) [
  | inl d ↦ rw (d) (
      with_address-All (Kept true p copied) (inet_pton af_inet ip) (zeros 4)
        (λ a. sockaddr_in p a unset) (λ a. sockaddr_in-Kept p a unset copied h) buf (rw (d) at e))
  | inr d ↦ rw (d) (
      with_address-All (Kept false p copied) (inet_pton af_inet6 ip) (zeros 16)
        (λ a. sockaddr_in6 p a unset) (λ a. sockaddr_in6-Kept p a unset copied h) buf (rw (d) at e))
]
