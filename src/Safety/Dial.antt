-- ===== src/Safety/Dial.antt =====
-- What a connection of a gateway's tools is made to, and how much is read of an answer.
use vai_gateway.Prelude.{
  ℕ, suc, zero, ◌+◌, ◌≤◌, ◌≡◌, refl, sym, ap, ◌∙◌, String, ◌||◌, Option, none, some, List, [], ◌∷◌,
  length, take, ltb, ◌==◌, numbers_comparable, true, false, arith, Bool-cases, Option-cases, inl,
  inr, if◌then◌else◌,
}
use vai_gateway.Prelude.Text.{trim_space, is_empty_text}
use vai_gateway.Safety.{
  Ip, validate_ip, DialResult, dialed, first_error, first_ip, checked, Resolved, records, failed,
  select, dial_literal, has_percent, is_ascii, validate_dial_target, limit_or_default, max_int64,
  read_limit, read_response_body_limited,
}

dialed_inj : (a b : Ip) → dialed a ≡ dialed b → a ≡ b
dialed_inj a b e = cc e

checked-dialed :
    (d : DialResult) (e : Option String) (ip : Ip)
    → checked d e ≡ dialed ip
    → (d ≡ dialed ip) × (e ≡ none)
unfolding checked
checked-dialed d none ip h = (h, refl)
checked-dialed d (some e) ip h = cc h

first_ip-valid :
    (ips : List Ip) (ip : Ip)
    → first_ip ips ≡ dialed ip
    → first_error ips ≡ none
    → validate_ip ip ≡ none
unfolding first_ip first_error validate_ip
first_ip-valid [] ip h valid = cc h
first_ip-valid ([] ∷ ips) ip h valid = cc valid
first_ip-valid ((b ∷ bs) ∷ ips) ip h valid = elim (Option-cases (validate_ip (b ∷ bs))) [
  | inl fine ↦ ap validate_ip (sym (dialed_inj (b ∷ bs) ip h)) ∙ fine
  | inr (e, bad) ↦ cc (rw (bad, first_error) at valid)
]

select-valid : (r : Resolved) (ip : Ip) → select r ≡ dialed ip → validate_ip ip ≡ none
unfolding select
select-valid (failed e) ip h = cc h
select-valid (records ips) ip h =
    let (first, valid) = checked-dialed (first_ip ips) (first_error ips) ip h in
    first_ip-valid ips ip first valid

module _ (parse_ip : String → Ip) (resolve_host : String → Resolved) where
  dial_literal-valid :
      (host : String) (ip found : Ip)
      → dial_literal parse_ip resolve_host host found ≡ dialed ip
      → validate_ip ip ≡ none
  unfolding dial_literal
  dial_literal-valid host ip [] h = elim (Bool-cases (is_ascii host)) [
    | inl ascii ↦ select-valid (resolve_host host) ip (rw (ascii, dial_literal) at h)
    | inr other ↦ cc (rw (other, dial_literal) at h)
  ]
  dial_literal-valid host ip (b ∷ bs) h =
      let (same, valid) = checked-dialed (dialed (b ∷ bs)) (validate_ip (b ∷ bs)) ip h in
      ap validate_ip (sym (dialed_inj (b ∷ bs) ip same)) ∙ valid

  -- The address that a connection is made to has passed the check of addresses itself, whatever
  -- the resolver answers.
  pub validate_dial_target-valid :
      (host : String) (ip : Ip)
      → validate_dial_target parse_ip resolve_host host ≡ dialed ip
      → validate_ip ip ≡ none
  unfolding validate_dial_target
  validate_dial_target-valid host ip h =
      elim (Bool-cases (is_empty_text (trim_space host) || has_percent (trim_space host))) [
        | inl bad ↦ cc (rw (bad, validate_dial_target) at h)
        | inr fine ↦
            dial_literal-valid (trim_space host) ip (parse_ip (trim_space host))
              (rw (fine, validate_dial_target) at h)
      ]

take_all : (n : ℕ) (xs : List ℕ) → length xs ≤ n → take n xs ≡ xs
take_all zero [] h = refl
take_all zero (x ∷ xs) h = absurd (omega (arith, h))
take_all (suc n) [] h = refl
take_all (suc n) (x ∷ xs) h = ap (λ l. x ∷ l) (take_all n xs (omega (arith, h)))

length-take : (n : ℕ) (xs : List ℕ) → n ≤ length xs → length (take n xs) ≡ n
length-take zero xs h = refl
length-take (suc n) [] h = absurd (omega (arith, h))
length-take (suc n) (x ∷ xs) h = omega (arith, length-take n xs (omega (arith, h)))

within_limit :
    (body : List ℕ) (limit : ℕ)
    → (if ltb limit (length (take (limit + 1) body)) then none else some (take (limit + 1) body))
      ≡ (if ltb limit (length body) then none else some body)
within_limit body limit = elim (Bool-cases (ltb limit (length body))) [
  | inl over ↦
      let len : length (take (limit + 1) body) ≡ limit + 1 =
        length-take (limit + 1) body (ground (arith, over)) in
      rw (over, len) (ground arith)
  | inr within ↦ rw (within, take_all (limit + 1) body (ground (arith, within)), within) refl
]

-- With a limit below the largest int64 a body is read whole if it is within the limit, or within
-- the default if the limit is 0, and is an error else. With the largest int64 for a limit every
-- body is read as an empty one, without an error.
pub read_response_body_limited_lem :
    (body : List ℕ) (limit : ℕ)
    → limit ≤ max_int64
    → read_response_body_limited body limit ≡ (
        if limit == max_int64
        then some []
        else if ltb (limit_or_default limit) (length body)
        then none
        else some body)
unfolding read_response_body_limited read_limit limit_or_default
read_response_body_limited_lem body limit le = elim (Bool-cases (limit == max_int64)) [
  | inl largest ↦
      let spent : ltb (limit_or_default limit) max_int64 ≡ false = ground arith in
      let none_read : ltb (limit_or_default limit) 0 ≡ false = ground arith in
      rw (largest, spent, none_read) refl
  | inr below ↦
      let fits : ltb (limit_or_default limit) max_int64 ≡ true = ground arith in
      rw (below, fits) (within_limit body (limit_or_default limit))
]
