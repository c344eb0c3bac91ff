-- ===== src/Safety/Tests.antt =====
-- A host with two addresses, and two addresses of which one is private.
use vai_gateway.Prelude.{
  ℕ, List, ◌≡◌, refl, String, none, some, [], ◌∷◌, ◌++◌, ltb, length, ◌==◌, numbers_comparable,
  arith, if◌then◌else◌,
}
use vai_gateway.Prelude.Text.{is_space, is_empty_text, trim_left, trim_right, trim_space}
use vai_gateway.Safety.{
  Ip, same_bytes, after_prefix, mapped_prefix, is_ipv4_mapped_ipv6, mapped_rest, to4, or_self,
  same_network, contains_ip, is_blocked, normal_ip, validate_ip, dialed, first_error, first_ip,
  checked, Resolved, records, select, dial_literal, has_percent, is_ascii, validate_dial_target,
  limit_or_default, max_int64, read_response_body_limited,
}
use vai_gateway.Safety.Ranges.{IsPrivate, validate_ip_iff, validate_ip-mapped}
use vai_gateway.Safety.Dial.{validate_dial_target-valid, read_response_body_limited_lem}

abbrev no_literal : String → Ip
no_literal s = []

abbrev two_records : String → Resolved
two_records s = records ((8 ∷ 8 ∷ 8 ∷ 8 ∷ []) ∷ (1 ∷ 1 ∷ 1 ∷ 1 ∷ []) ∷ [])

connected : validate_dial_target no_literal two_records "h" ≡ dialed (8 ∷ 8 ∷ 8 ∷ 8 ∷ [])
unfolding validate_dial_target is_empty_text trim_space trim_right trim_left is_space has_percent
    dial_literal is_ascii select checked first_error validate_ip is_blocked contains_ip or_self to4
    normal_ip after_prefix first_ip is_ipv4_mapped_ipv6 mapped_rest same_bytes same_network
connected = refl

validate_dial_target-valid_example : validate_ip (8 ∷ 8 ∷ 8 ∷ 8 ∷ []) ≡ none
validate_dial_target-valid_example =
    validate_dial_target-valid no_literal two_records "h" (8 ∷ 8 ∷ 8 ∷ 8 ∷ []) connected

validate_ip_iff_example :
    (validate_ip (172 ∷ 32 ∷ 0 ∷ 1 ∷ []) ≡ none → ¬ IsPrivate 172 32)
    × (¬ IsPrivate 172 32 → validate_ip (172 ∷ 32 ∷ 0 ∷ 1 ∷ []) ≡ none)
validate_ip_iff_example = validate_ip_iff 172 32 0 1

validate_ip-mapped_example :
    validate_ip (mapped_prefix ++ 127 ∷ 0 ∷ 0 ∷ 1 ∷ []) ≡ validate_ip (127 ∷ 0 ∷ 0 ∷ 1 ∷ [])
validate_ip-mapped_example = validate_ip-mapped 127 0 0 1

abbrev body : List ℕ
body = 1 ∷ 2 ∷ 3 ∷ []

read_response_body_limited_lem_example : read_response_body_limited body 2 ≡ (
    if ◌==◌ {K = ℕ} 2 max_int64
    then some []
    else if ltb (limit_or_default 2) (length body)
    then none
    else some body)
read_response_body_limited_lem_example = read_response_body_limited_lem body 2 (omega arith)
