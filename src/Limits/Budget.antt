-- ===== src/Limits/Budget.antt =====
-- What the checks of a request amount to: a budget for the texts and one for the payloads in it.
use vai_gateway.Prelude.{
  ℕ, ◌+◌, ◌≡◌, refl, sym, ◌∙◌, Bool, true, false, ◌&&◌, ◌||◌, List, [], ◌∷◌, ◌++◌, leb, ◌==◌,
  numbers_comparable, arith, Bool-cases, inl, inr, if◌then◌else◌,
}
use vai_gateway.Limits.{
  LimitsConfig, Excess, Totals, Checked, within, exceeds, and_then, add_bytes, add_decoded,
}

-- A text or a payload, by the number of its bytes.
pub data Item : Type 0 where
  text_item payload_item : ℕ → Item

unfoldable pub text_sum : List Item → ℕ
text_sum [] = 0
text_sum (text_item n ∷ is) = n + text_sum is
text_sum (payload_item n ∷ is) = text_sum is

unfoldable pub payload_sum : List Item → ℕ
payload_sum [] = 0
payload_sum (text_item n ∷ is) = payload_sum is
payload_sum (payload_item n ∷ is) = n + payload_sum is

abbrev pub is_at_most : (limit n : ℕ) → Bool
is_at_most limit n = limit == 0 || leb n limit

-- Every payload is at most that large.
unfoldable pub each_is_at_most : ℕ → List Item → Bool
each_is_at_most limit [] = true
each_is_at_most limit (text_item n ∷ is) = each_is_at_most limit is
each_is_at_most limit (payload_item n ∷ is) = is_at_most limit n && each_is_at_most limit is

abbrev pub is_affordable : LimitsConfig → List Item → Bool
is_affordable cfg is =
    is_at_most cfg.max_total_text_bytes (text_sum is)
    && each_is_at_most cfg.max_b64_bytes_per_block is
    && is_at_most cfg.max_b64_bytes_total (payload_sum is)

unfoldable pub is_within : Checked → Bool
is_within (within t) = true
is_within (exceeds e) = false

module _ (cfg : LimitsConfig) where
  unfoldable pub check_item : Item → Totals → Checked
  check_item (text_item n) t = add_bytes cfg n t
  check_item (payload_item n) t = add_decoded cfg n t

  unfoldable pub check_items : List Item → Totals → Checked
  check_items [] t = within t
  check_items (i ∷ is) t = and_then (check_item i t) (check_items is)

  -- What is left of the budget, after these totals.
  abbrev is_affordable_after : Totals → List Item → Bool
  is_affordable_after t is =
      is_at_most cfg.max_total_text_bytes (t.total_text + text_sum is)
      && each_is_at_most cfg.max_b64_bytes_per_block is
      && is_at_most cfg.max_b64_bytes_total (t.total_decoded + payload_sum is)

  abbrev IsFine : Totals → Type 0
  IsFine t =
      (is_at_most cfg.max_total_text_bytes t.total_text ≡ true)
      × (is_at_most cfg.max_b64_bytes_total t.total_decoded ≡ true)

  add_bytes-over :
      (n : ℕ) (t : Totals)
      → is_at_most cfg.max_total_text_bytes (t.total_text + n) ≡ false
      → add_bytes cfg n t ≡ exceeds Excess.text_bytes
  unfolding add_bytes
  add_bytes-over n t over = ground arith

  add_bytes-within :
      (n : ℕ) (t : Totals)
      → is_at_most cfg.max_total_text_bytes (t.total_text + n) ≡ true
      → add_bytes cfg n t
        ≡ within (
            if cfg.max_total_text_bytes == 0 then t else record t { total_text = t.total_text + n })
  unfolding add_bytes
  add_bytes-within n t fits = ground arith

  text-rest :
      (n : ℕ) (is : List Item) (t : Totals)
      → is_affordable_after
          (if cfg.max_total_text_bytes == 0 then t else record t { total_text = t.total_text + n })
          is
        ≡ is_affordable_after t (text_item n ∷ is)
  unfolding text_sum payload_sum each_is_at_most
  text-rest n is t = elim (Bool-cases (cfg.max_total_text_bytes == 0)) [
    | inl off ↦ rw (off) refl
    | inr limited ↦
        let e : t.total_text + (n + text_sum is) ≡ t.total_text + n + text_sum is = omega arith in
        rw (limited, e) refl
  ]

  after_text-IsFine :
      (n : ℕ) (t : Totals)
      → IsFine t
      → is_at_most cfg.max_total_text_bytes (t.total_text + n) ≡ true
      → IsFine
          (if cfg.max_total_text_bytes == 0 then t else record t { total_text = t.total_text + n })
  after_text-IsFine n t fine fits = elim (Bool-cases (cfg.max_total_text_bytes == 0)) [
    | inl off ↦ rw off (refl, fine.1)
    | inr limited ↦
        let fits' : (false || leb (t.total_text + n) cfg.max_total_text_bytes) ≡ true =
          ground arith in
        rw limited (fits', fine.1)
  ]

  add_decoded-over_block :
      (n : ℕ) (t : Totals)
      → is_at_most cfg.max_b64_bytes_per_block n ≡ false
      → add_decoded cfg n t ≡ exceeds Excess.block_bytes
  unfolding add_decoded
  add_decoded-over_block n t over = ground arith

  add_decoded-over_total :
      (n : ℕ) (t : Totals)
      → is_at_most cfg.max_b64_bytes_per_block n ≡ true
      → is_at_most cfg.max_b64_bytes_total (t.total_decoded + n) ≡ false
      → add_decoded cfg n t ≡ exceeds Excess.total_bytes
  unfolding add_decoded
  add_decoded-over_total n t fits over = ground arith

  abbrev is_unlimited : Bool
  is_unlimited = cfg.max_b64_bytes_per_block == 0 && cfg.max_b64_bytes_total == 0

  add_decoded-within :
      (n : ℕ) (t : Totals)
      → is_at_most cfg.max_b64_bytes_per_block n ≡ true
      → is_at_most cfg.max_b64_bytes_total (t.total_decoded + n) ≡ true
      → add_decoded cfg n t
        ≡ within (if is_unlimited then t else record t { total_decoded = t.total_decoded + n })
  unfolding add_decoded
  add_decoded-within n t each fits = ground arith

  payload-rest :
      (n : ℕ) (is : List Item) (t : Totals)
      → is_at_most cfg.max_b64_bytes_per_block n ≡ true
      → is_affordable_after
          (if is_unlimited then t else record t { total_decoded = t.total_decoded + n })
          is
        ≡ is_affordable_after t (payload_item n ∷ is)
  unfolding text_sum payload_sum each_is_at_most
  payload-rest n is t each = elim (Bool-cases is_unlimited) [
    | inl off ↦
        let a : (cfg.max_b64_bytes_per_block == 0) ≡ true = ground arith in
        let b : (cfg.max_b64_bytes_total == 0) ≡ true = ground arith in rw (a, b) refl
    | inr limited ↦
        let e : t.total_decoded + (n + payload_sum is) ≡ t.total_decoded + n + payload_sum is =
          omega arith in
        rw (limited, e, each) refl
  ]

  after_payload-IsFine :
      (n : ℕ) (t : Totals)
      → IsFine t
      → is_at_most cfg.max_b64_bytes_total (t.total_decoded + n) ≡ true
      → IsFine (if is_unlimited then t else record t { total_decoded = t.total_decoded + n })
  after_payload-IsFine n t fine fits = elim (Bool-cases is_unlimited) [
    | inl off ↦ rw off fine
    | inr limited ↦ rw limited (fine.0, fits)
  ]

  -- A budget that is spent does not recover.
  is_at_most-over :
      (limit a n s : ℕ) → is_at_most limit (a + n) ≡ false → is_at_most limit (a + (n + s)) ≡ false
  is_at_most-over limit a n s over = ground arith

  and_false : (a b : Bool) → (a && false && b) ≡ false
  and_false true b = refl
  and_false false b = refl

  and_false_last : (a b : Bool) → (a && b && false) ≡ false
  and_false_last true true = refl
  and_false_last true false = refl
  and_false_last false b = refl

  check_items-is_within :
      (is : List Item) (t : Totals)
      → IsFine t
      → is_within (check_items is t) ≡ is_affordable_after t is
  unfolding check_items check_item and_then text_sum payload_sum each_is_at_most is_within
  check_items-is_within [] t (texts, payloads) =
      let a : t.total_text + 0 ≡ t.total_text = omega arith in
      let b : t.total_decoded + 0 ≡ t.total_decoded = omega arith in rw (a, b, texts, payloads) refl
  check_items-is_within (text_item n ∷ is) t fine =
      elim (Bool-cases (is_at_most cfg.max_total_text_bytes (t.total_text + n))) [
        | inl fits ↦
            rw (add_bytes-within n t fits)
              (check_items-is_within is _ (after_text-IsFine n t fine fits) ∙ text-rest n is t)
        | inr over ↦
            rw
              (
                add_bytes-over n t over,
                is_at_most-over cfg.max_total_text_bytes t.total_text n (text_sum is) over,
              )
              refl
      ]
  check_items-is_within (payload_item n ∷ is) t fine =
      elim (Bool-cases (is_at_most cfg.max_b64_bytes_per_block n)) [
        | inr over ↦ rw (add_decoded-over_block n t over, over) (sym (and_false _ _))
        | inl each ↦ elim (Bool-cases (is_at_most cfg.max_b64_bytes_total (t.total_decoded + n))) [
          | inl fits ↦ rw (add_decoded-within n t each fits) (
              check_items-is_within is _ (after_payload-IsFine n t fine fits)
              ∙ payload-rest n is t each)
          | inr over ↦
              rw
                (
                  add_decoded-over_total n t each over,
                  is_at_most-over cfg.max_b64_bytes_total t.total_decoded n (payload_sum is) over,
                )
                (sym (
                  and_false_last
                    (is_at_most cfg.max_total_text_bytes
                      (t.total_text + text_sum (payload_item n ∷ is)))
                    (each_is_at_most cfg.max_b64_bytes_per_block (payload_item n ∷ is))))
        ]
      ]

  and_then-within : (c : Checked) → and_then c within ≡ c
  unfolding and_then
  and_then-within (within t) = refl
  and_then-within (exceeds e) = refl

  and_then_assoc :
      (c : Checked) (f g h : Totals → Checked)
      → ((t : Totals) → f t ≡ and_then (g t) h)
      → and_then c f ≡ and_then (and_then c g) h
  unfolding and_then
  and_then_assoc (within t) f g h same = same t
  and_then_assoc (exceeds e) f g h same = refl

  pub check_items-append :
      (is js : List Item) (t : Totals)
      → check_items (is ++ js) t ≡ and_then (check_items is t) (check_items js)
  unfolding check_items and_then
  check_items-append [] js t = refl
  check_items-append (i ∷ is) js t =
      and_then_assoc (check_item i t) (check_items (is ++ js)) (check_items is) (check_items js)
        (check_items-append is js)

  pub check_items-one : (i : Item) (t : Totals) → check_items (i ∷ []) t ≡ check_item i t
  unfolding check_items
  check_items-one i t = and_then-within (check_item i t)

  -- From the start, everything has to be within the whole budget.
  pub check_items-is_affordable :
      (is : List Item)
      → is_within (check_items is (record { total_text = 0; total_decoded = 0 }))
        ≡ is_affordable cfg is
  check_items-is_affordable is =
      let a : 0 + text_sum is ≡ text_sum is = omega arith in
      let b : 0 + payload_sum is ≡ payload_sum is = omega arith in
      check_items-is_within is (record { total_text = 0; total_decoded = 0 })
        (ground arith, ground arith)
      ∙ rw (a, b) refl
