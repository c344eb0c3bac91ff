-- ===== src/Safety/Ranges.antt =====
-- The addresses that are blocked, as ranges of their bytes.
use vai_gateway.Prelude.{
  ℕ, ◌/◌, ◌≤◌, ◌≡◌, ◌↔◌, ◌⊎◌, refl, String, Bool, true, false, ◌&&◌, ◌||◌, none, some, [], ◌∷◌,
  ◌++◌, ◌==◌, numbers_comparable, arith, Bool-cases, inl, inr, if◌then◌else◌,
}
use vai_gateway.Safety.{
  same_bytes, after_prefix, mapped_prefix, is_ipv4_mapped_ipv6, mapped_rest, to4, or_self,
  same_network, contains_ip, blocked_cidrs, is_blocked, normal_ip, validate_ip,
}

-- Loopback, the private networks of RFC 1918 and the link-local network.
abbrev pub IsPrivate : (a b : ℕ) → Type 0
IsPrivate a b =
    (a ≡ 127)
    ⊎ (a ≡ 10)
    ⊎ ((a ≡ 172) × (16 ≤ b) × (b ≤ 31))
    ⊎ ((a ≡ 192) × (b ≡ 168))
    ⊎ ((a ≡ 169) × (b ≡ 254))

-- The test of the second byte's upper half.
private_test : (a b : ℕ) → Bool
private_test a b =
    a == 127
    || a == 10
    || (a == 172 && b / 16 == 1)
    || (a == 192 && b == 168)
    || (a == 169 && b == 254)

blocked_ip4 :
    (a b c d : ℕ)
    → (is_blocked blocked_cidrs (a ∷ b ∷ c ∷ d ∷ [])
        || same_bytes (a ∷ b ∷ c ∷ d ∷ []) (169 ∷ 254 ∷ 169 ∷ 254 ∷ []))
      ≡ private_test a b
unfolding is_blocked contains_ip to4 or_self same_network same_bytes private_test
blocked_ip4 a b c d = ground arith

normal_ip4 : (a b c d : ℕ) → normal_ip (a ∷ b ∷ c ∷ d ∷ []) ≡ a ∷ b ∷ c ∷ d ∷ []
unfolding normal_ip to4 or_self
normal_ip4 a b c d = elim (Bool-cases (is_ipv4_mapped_ipv6 (a ∷ b ∷ c ∷ d ∷ []))) [
  | inl mapped ↦ rw (mapped, normal_ip) refl
  | inr plain ↦ rw (plain, normal_ip) refl
]

private_test-IsPrivate : (a b : ℕ) → (private_test a b ≡ true) ↔ IsPrivate a b
unfolding private_test
private_test-IsPrivate a b = (λ e. ground arith, λ p. ground arith)

not-IsPrivate : (a b : ℕ) → (private_test a b ≡ false) ↔ (¬ IsPrivate a b)
not-IsPrivate a b = (
  λ e. λ p. absurd (ground (arith, e, (private_test-IsPrivate a b).1 p)),
  λ h. elim (Bool-cases (private_test a b)) [
    | inl private ↦ absurd (h ((private_test-IsPrivate a b).0 private))
    | inr public ↦ public
  ],
)

allowed-test : (t : Bool) (e : String) → ((if t then some e else none) ≡ none) ↔ (t ≡ false)
allowed-test true e = (λ h. cc h, λ h. cc h)
allowed-test false e = (λ h. refl, λ h. refl)

-- An IPv4 address passes the check exactly if it is neither a loopback, a private nor a link-local
-- one.
pub validate_ip_iff : (a b c d : ℕ) → (validate_ip (a ∷ b ∷ c ∷ d ∷ []) ≡ none) ↔ (¬ IsPrivate a b)
unfolding validate_ip
validate_ip_iff a b c d =
    rw (normal_ip4 a b c d, blocked_ip4 a b c d)
      (let allowed = allowed-test (private_test a b) "destination ip is blocked" in
        let range = not-IsPrivate a b in (λ e. range.0 (allowed.0 e), λ h. allowed.1 (range.1 h)))

-- An IPv4 address that is written as an IPv6 one is checked as itself.
pub validate_ip-mapped :
    (a b c d : ℕ)
    → validate_ip (mapped_prefix ++ a ∷ b ∷ c ∷ d ∷ []) ≡ validate_ip (a ∷ b ∷ c ∷ d ∷ [])
unfolding validate_ip normal_ip is_ipv4_mapped_ipv6 after_prefix to4 mapped_rest or_self
validate_ip-mapped a b c d = rw (normal_ip4 a b c d) refl
