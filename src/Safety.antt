-- ===== src/Safety.antt =====
-- pkg/gateway/tools/safety: which addresses a gateway's tools may connect to, and how much of an
-- answer they read. An address is the list of its bytes, empty for nil. `parse_ip` is net.ParseIP
-- and `resolve_host` the resolver's LookupIPAddr.
pub mod Ranges
pub mod Dial
mod Tests
use vai_gateway.Prelude.{
  ℕ, suc, zero, ◌+◌, ◌-◌, ◌/◌, ◌^◌, String, Bool, true, false, ◌&&◌, ◌||◌, not, Option, none, some,
  List, [], ◌∷◌, ◌++◌, length, take, ltb, ◌==◌, numbers_comparable, if◌then◌else◌,
}
use vai_gateway.Prelude.Text.{trim_space, is_empty_text}
use Prim.Native.Char.{code}

abbrev pub Ip : Type 0
Ip = List ℕ

unfoldable pub same_bytes : Ip → Ip → Bool
same_bytes [] [] = true
same_bytes (a ∷ xs) (b ∷ ys) = a == b && same_bytes xs ys
same_bytes _ _ = false

-- What follows a prefix, if the address has it.
unfoldable pub after_prefix : Ip → Ip → Option Ip
after_prefix [] ip = some ip
after_prefix (p ∷ ps) [] = none
after_prefix (p ∷ ps) (b ∷ bs) = let rest = after_prefix ps bs in if p == b then rest else none

abbrev pub mapped_prefix : Ip
mapped_prefix = 0 ∷ 0 ∷ 0 ∷ 0 ∷ 0 ∷ 0 ∷ 0 ∷ 0 ∷ 0 ∷ 0 ∷ 255 ∷ 255 ∷ []

unfoldable pub is_ipv4_mapped_ipv6 : Ip → Bool
is_ipv4_mapped_ipv6 ip = elim (after_prefix mapped_prefix ip) [
  | none ↦ false
  | some rest ↦ length ip == 16
]

-- net.IP.To4
unfoldable pub mapped_rest : Bool → Option Ip → Ip
mapped_rest true (some rest) = rest
mapped_rest _ _ = []

unfoldable pub to4 : Ip → Ip
to4 ip =
    if length ip == 4
    then ip
    else mapped_rest (is_ipv4_mapped_ipv6 ip) (after_prefix mapped_prefix ip)

unfoldable pub or_self : Ip → Ip → Ip
or_self ip [] = ip
or_self ip (b ∷ bs) = b ∷ bs

-- net.IPNet, with its mask as the number of its ones.
pub record Cidr : Type 0 where
  pub base : Ip
  pub ones : ℕ

-- The addresses agree under a mask of so many ones.
unfoldable pub same_network : (ones : ℕ) → Ip → Ip → Bool
same_network ones [] ys = true
same_network ones (a ∷ xs) [] = true
same_network ones (a ∷ xs) (b ∷ ys) =
    let rest = same_network (ones - 8) xs ys in
    if ones == 0 then true else a / 2 ^ (8 - ones) == b / 2 ^ (8 - ones) && rest

-- net.IPNet.Contains
unfoldable pub contains_ip : Cidr → Ip → Bool
contains_ip net ip =
    let ip' = or_self ip (to4 ip) in
    length ip' == length net.base && same_network net.ones net.base ip'

abbrev pub blocked_cidrs : List Cidr
blocked_cidrs =
    record { base = 127 ∷ 0 ∷ 0 ∷ 0 ∷ []; ones = 8 }
    ∷ record { base = 10 ∷ 0 ∷ 0 ∷ 0 ∷ []; ones = 8 }
    ∷ record { base = 172 ∷ 16 ∷ 0 ∷ 0 ∷ []; ones = 12 }
    ∷ record { base = 192 ∷ 168 ∷ 0 ∷ 0 ∷ []; ones = 16 }
    ∷ record { base = 169 ∷ 254 ∷ 0 ∷ 0 ∷ []; ones = 16 }
    ∷ record {
      base = 0 ∷ 0 ∷ 0 ∷ 0 ∷ 0 ∷ 0 ∷ 0 ∷ 0 ∷ 0 ∷ 0 ∷ 0 ∷ 0 ∷ 0 ∷ 0 ∷ 0 ∷ 1 ∷ [];
      ones = 128;
    }
    ∷ record {
      base = 252 ∷ 0 ∷ 0 ∷ 0 ∷ 0 ∷ 0 ∷ 0 ∷ 0 ∷ 0 ∷ 0 ∷ 0 ∷ 0 ∷ 0 ∷ 0 ∷ 0 ∷ 0 ∷ [];
      ones = 7;
    }
    ∷ record {
      base = 254 ∷ 128 ∷ 0 ∷ 0 ∷ 0 ∷ 0 ∷ 0 ∷ 0 ∷ 0 ∷ 0 ∷ 0 ∷ 0 ∷ 0 ∷ 0 ∷ 0 ∷ 0 ∷ [];
      ones = 10;
    }
    ∷ []

unfoldable pub is_blocked : List Cidr → Ip → Bool
is_blocked [] ip = false
is_blocked (c ∷ cs) ip = contains_ip c ip || is_blocked cs ip

unfoldable pub normal_ip : Ip → Ip
normal_ip ip = let ip' = if is_ipv4_mapped_ipv6 ip then to4 ip else ip in or_self ip' (to4 ip')

-- validateIP; `none` if there is no error.
unfoldable pub validate_ip : Ip → Option String
validate_ip [] = some "invalid ip"
validate_ip (b ∷ bs) =
    let ip = normal_ip (b ∷ bs) in
    if is_blocked blocked_cidrs ip || same_bytes ip (169 ∷ 254 ∷ 169 ∷ 254 ∷ [])
    then some "destination ip is blocked"
    else none

unfoldable pub has_percent : String → Bool
has_percent String.[] = false
has_percent (String.◌∷◌ c s) = code c == 37 || has_percent s

unfoldable pub is_ascii : String → Bool
is_ascii String.[] = true
is_ascii (String.◌∷◌ c s) = not (ltb 127 (code c)) && is_ascii s

pub data DialResult : Type 0 where
  dialed : Ip → DialResult
  refused : String → DialResult

-- The two loops over the records of a host.
unfoldable pub first_error : List Ip → Option String
first_error [] = none
first_error (ip ∷ ips) =
    let rest = first_error ips in elim (validate_ip ip) [ none ↦ rest | some e ↦ some e ]

unfoldable pub first_ip : List Ip → DialResult
first_ip [] = refused "dns resolution returned no records"
first_ip ([] ∷ ips) = first_ip ips
first_ip ((b ∷ bs) ∷ ips) = dialed (b ∷ bs)

unfoldable pub checked : DialResult → Option String → DialResult
checked d none = d
checked d (some e) = refused e

pub data Resolved : Type 0 where
  records : List Ip → Resolved
  failed : String → Resolved

unfoldable pub select : Resolved → DialResult
select (failed e) = refused e
select (records ips) = checked (first_ip ips) (first_error ips)

module _ (parse_ip : String → Ip) (resolve_host : String → Resolved) where
  unfoldable pub dial_literal : (host : String) → Ip → DialResult
  dial_literal host [] =
      if is_ascii host then select (resolve_host host) else refused "invalid host"
  dial_literal host (b ∷ bs) = checked (dialed (b ∷ bs)) (validate_ip (b ∷ bs))

  -- validateDialTarget
  unfoldable pub validate_dial_target : (host : String) → DialResult
  validate_dial_target host =
      let host' = trim_space host in
      if is_empty_text host' || has_percent host'
      then refused "invalid host"
      else dial_literal host' (parse_ip host')

abbrev pub max_downloaded_bytes : ℕ
max_downloaded_bytes = 5242880

unfoldable pub limit_or_default : ℕ → ℕ
limit_or_default limit = if limit == 0 then max_downloaded_bytes else limit

-- The largest int64.
abbrev pub max_int64 : ℕ
max_int64 = 2 ^ 63 - 1

-- What io.LimitedReader lets through for the limit and one: the sum wraps around to a negative number
-- at the largest int64, and the reader is at its end at once.
unfoldable pub read_limit : ℕ → ℕ
read_limit limit = if ltb limit max_int64 then limit + 1 else 0

-- ReadResponseBodyLimited, for a body that is read without an error; a limit below 0 is 0 here, and
-- none is above the largest int64. `none` is an answer over the limit.
unfoldable pub read_response_body_limited : List ℕ → (limit : ℕ) → Option (List ℕ)
read_response_body_limited body limit =
    let b = take (read_limit (limit_or_default limit)) body in
    if ltb (limit_or_default limit) (length b) then none else some b
