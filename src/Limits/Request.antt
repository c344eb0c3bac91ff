-- ===== src/Limits/Request.antt =====
-- The acceptance of a request: its checks, one after the other, are those of its budget.
use vai_gateway.Prelude.{
  ℕ, ◌≡◌, refl, sym, ap, ◌∙◌, String, Bool, true, false, ◌&&◌, Option, none, some, List, [], ◌∷◌,
  ◌++◌, length, ltb, numbers_comparable, arith, Bool-cases, inl, inr, if◌then◌else◌,
}
use vai_gateway.Types.{
  Json, ContentBlock, text, tool_result, image, audio, audio_stt, video, document, Blocks,
  no_blocks, block, of_list, Content, no_content, str, blocks, Message,
}
use vai_gateway.Limits.{
  LimitsConfig, MessageRequest, Excess, Totals, Checked, within, exceeds, and_then, source_text,
  is_base64_source, estimate_decoded, add_text, add_b64, validate_block, validate_blocks,
  validate_system, validate_content, validate_messages, excess_of, validate_message_request,
}
use vai_gateway.Limits.Budget.{
  Item, text_item, payload_item, is_at_most, is_affordable, is_within, check_item, check_items,
  check_items-append, check_items-one, check_items-is_affordable,
}

module _ (len : String → ℕ) (equal_fold : String → String → Bool) where
  -- A payload counts if its source is in base64.
  unfoldable pub item_of : Json → List Item
  item_of payload =
      if is_base64_source len equal_fold payload
      then payload_item (estimate_decoded len equal_fold (source_text "data" payload)) ∷ []
      else []

  unfoldable mutual
    pub items_of : ContentBlock → List Item
    items_of (text s) = text_item (len s) ∷ []
    items_of (image payload) = item_of payload
    items_of (audio payload) = item_of payload
    items_of (audio_stt payload) = item_of payload
    items_of (video payload) = item_of payload
    items_of (document payload) = item_of payload
    items_of (tool_result id content is_error) = items_of_all content
    items_of _ = []

    pub items_of_all : Blocks → List Item
    items_of_all no_blocks = []
    items_of_all (block b bs) = items_of b ++ items_of_all bs

  unfoldable pub items_of_content : Content → List Item
  items_of_content no_content = []
  items_of_content (str s) = text_item (len s) ∷ []
  items_of_content (blocks bs) = items_of_all (of_list bs)

  unfoldable pub items_of_messages : List Message → List Item
  items_of_messages [] = []
  items_of_messages (m ∷ ms) = items_of_content m.content ++ items_of_messages ms

unfoldable pub has_content : Content → Bool
has_content no_content = false
has_content _ = true

unfoldable pub all_have_content : List Message → Bool
all_have_content [] = true
all_have_content (m ∷ ms) = has_content m.content && all_have_content ms

and_then-same :
    (c : Checked) (f g : Totals → Checked)
    → ((t : Totals) → f t ≡ g t)
    → and_then c f ≡ and_then c g
unfolding and_then
and_then-same (within t) f g same = same t
and_then-same (exceeds e) f g same = refl

is_within-and_then :
    (c : Checked) (f g : Totals → Checked) (b : Bool)
    → ((t : Totals) → is_within (f t) ≡ (b && is_within (g t)))
    → is_within (and_then c f) ≡ (b && is_within (and_then c g))
unfolding and_then is_within
is_within-and_then (within t) f g b same = same t
is_within-and_then (exceeds e) f g true same = refl
is_within-and_then (exceeds e) f g false same = refl

module _ (len : String → ℕ) (equal_fold : String → String → Bool) (cfg : LimitsConfig) where
  check_items-none : (t : Totals) → within t ≡ check_items cfg [] t
  unfolding check_items
  check_items-none t = refl

  add_b64-items :
      (payload : Json) (t : Totals)
      → add_b64 len equal_fold cfg payload t ≡ check_items cfg (item_of len equal_fold payload) t
  unfolding add_b64 item_of check_item
  add_b64-items payload t = elim (Bool-cases (is_base64_source len equal_fold payload)) [
    | inl encoded ↦ rw encoded (
        sym (
          check_items-one cfg
            (payload_item (estimate_decoded len equal_fold (source_text "data" payload))) t))
    | inr other ↦ rw other (check_items-none t)
  ]

  mutual
    unfolding validate_block items_of add_text check_item check_items

    validate_block-items :
        (b : ContentBlock) (t : Totals)
        → validate_block len equal_fold cfg b t ≡ check_items cfg (items_of len equal_fold b) t
    validate_block-items (text s) t = sym (check_items-one cfg (text_item (len s)) t)
    validate_block-items (image payload) t = add_b64-items payload t
    validate_block-items (audio payload) t = add_b64-items payload t
    validate_block-items (audio_stt payload) t = add_b64-items payload t
    validate_block-items (video payload) t = add_b64-items payload t
    validate_block-items (document payload) t = add_b64-items payload t
    validate_block-items (tool_result id content is_error) t = validate_blocks-items content t
    validate_block-items _ t = refl

    validate_blocks-items :
        (bs : Blocks) (t : Totals)
        → validate_blocks len equal_fold cfg bs t
          ≡ check_items cfg (items_of_all len equal_fold bs) t
    validate_blocks-items no_blocks t = refl
    validate_blocks-items (block b bs) t =
        ap (λ c. and_then c (validate_blocks len equal_fold cfg bs)) (validate_block-items b t)
        ∙ and_then-same _ _ _ (validate_blocks-items bs)
        ∙ sym
            (check_items-append cfg (items_of len equal_fold b) (items_of_all len equal_fold bs) t)

  validate_system-items :
      (c : Content) (t : Totals)
      → validate_system len equal_fold cfg c t
        ≡ check_items cfg (items_of_content len equal_fold c) t
  unfolding validate_system items_of_content add_text check_item
  validate_system-items no_content t = check_items-none t
  validate_system-items (str s) t = sym (check_items-one cfg (text_item (len s)) t)
  validate_system-items (blocks bs) t = validate_blocks-items (of_list bs) t

  validate_content-items :
      (c : Content) (t : Totals)
      → has_content c ≡ true
      → validate_content len equal_fold cfg c t
        ≡ check_items cfg (items_of_content len equal_fold c) t
  unfolding validate_content items_of_content add_text check_item has_content
  validate_content-items no_content t h = cc
  validate_content-items (str s) t h = sym (check_items-one cfg (text_item (len s)) t)
  validate_content-items (blocks bs) t h = validate_blocks-items (of_list bs) t

  validate_content-missing :
      (c : Content) (t : Totals)
      → has_content c ≡ false
      → validate_content len equal_fold cfg c t ≡ exceeds Excess.no_message_content
  unfolding validate_content has_content
  validate_content-missing no_content t h = refl
  validate_content-missing (str s) t h = cc
  validate_content-missing (blocks bs) t h = cc

  validate_messages-is_within :
      (ms : List Message) (t : Totals)
      → is_within (validate_messages len equal_fold cfg ms t) ≡ (
          all_have_content ms
          && is_within (check_items cfg (items_of_messages len equal_fold ms) t))
  unfolding validate_messages all_have_content items_of_messages is_within and_then
  validate_messages-is_within [] t = ap is_within (check_items-none t)
  validate_messages-is_within (m ∷ ms) t = elim (Bool-cases (has_content m.content)) [
    | inr missing ↦ rw (validate_content-missing m.content t missing, missing) refl
    | inl present ↦
        rw
          (
            validate_content-items m.content t present,
            present,
            check_items-append cfg (items_of_content len equal_fold m.content)
                (items_of_messages len equal_fold ms) t,
          )
          (is_within-and_then (check_items cfg (items_of_content len equal_fold m.content) t)
            (validate_messages len equal_fold cfg ms)
            (check_items cfg (items_of_messages len equal_fold ms)) (all_have_content ms)
            (validate_messages-is_within ms))
  ]

-- The texts and the payloads of a request, in their order.
unfoldable pub items_of_request :
    (len : String → ℕ) → (equal_fold : String → String → Bool) → MessageRequest → List Item
items_of_request len equal_fold req =
    items_of_content len equal_fold req.system ++ items_of_messages len equal_fold req.messages

unfoldable pub is_accepted : Option Excess → Bool
is_accepted none = true
is_accepted (some e) = false

is_accepted-excess_of : (c : Checked) → is_accepted (excess_of c) ≡ is_within c
unfolding is_accepted excess_of is_within
is_accepted-excess_of (within t) = refl
is_accepted-excess_of (exceeds e) = refl

module _ (len : String → ℕ) (equal_fold : String → String → Bool) (cfg : LimitsConfig) where
  abbrev start : Totals
  start = record { total_text = 0; total_decoded = 0 }

  contents-is_within :
      (req : MessageRequest)
      → is_within (
          and_then
            (validate_system len equal_fold cfg req.system start)
            (validate_messages len equal_fold cfg req.messages))
        ≡ (all_have_content req.messages && is_affordable cfg (items_of_request len equal_fold req))
  unfolding items_of_request
  contents-is_within req =
      let items = items_of_content len equal_fold req.system in
      let others = items_of_messages len equal_fold req.messages in
      ap (λ c. is_within (and_then c (validate_messages len equal_fold cfg req.messages)))
        (validate_system-items len equal_fold cfg req.system start)
      ∙ is_within-and_then (check_items cfg items start)
          (validate_messages len equal_fold cfg req.messages) (check_items cfg others)
          (all_have_content req.messages)
          (validate_messages-is_within len equal_fold cfg req.messages)
      ∙ ap (λ c. all_have_content req.messages && is_within c)
          (sym (check_items-append cfg items others start))
      ∙ ap (λ b. all_have_content req.messages && b)
          (check_items-is_affordable cfg (items ++ others))

is_at_most-over : (limit n : ℕ) → is_at_most limit n ≡ false → (ltb 0 limit && ltb limit n) ≡ true
is_at_most-over limit n over = ground arith

is_at_most-within : (limit n : ℕ) → is_at_most limit n ≡ true → (ltb 0 limit && ltb limit n) ≡ false
is_at_most-within limit n few = ground arith

-- A request is accepted exactly if it keeps every limit that is on: it has no more messages and no
-- more tools than allowed, every message has content, its texts together are within the limit on
-- their bytes, each payload in base64 is within the limit on a block, and all of them together are
-- within the limit on their sum; the texts and payloads in the results of tools count too.
pub validate_message_request-is_accepted :
    (len : String → ℕ) (equal_fold : String → String → Bool) (cfg : LimitsConfig)
    (req : MessageRequest)
    → is_accepted (validate_message_request len equal_fold cfg req) ≡ (
        is_at_most cfg.max_messages (length req.messages)
        && is_at_most cfg.max_tools (length req.tools)
        && all_have_content req.messages
        && is_affordable cfg (items_of_request len equal_fold req))
unfolding validate_message_request is_accepted
validate_message_request-is_accepted len equal_fold cfg req =
    elim (Bool-cases (is_at_most cfg.max_messages (length req.messages))) [
      | inr over ↦ rw (is_at_most-over cfg.max_messages (length req.messages) over, over) refl
      | inl few ↦ elim (Bool-cases (is_at_most cfg.max_tools (length req.tools))) [
        | inr over ↦
            rw
              (
                is_at_most-within cfg.max_messages (length req.messages) few,
                is_at_most-over cfg.max_tools (length req.tools) over,
                few,
                over,
              )
              refl
        | inl few_tools ↦
            rw
              (
                is_at_most-within cfg.max_messages (length req.messages) few,
                is_at_most-within cfg.max_tools (length req.tools) few_tools,
                few,
                few_tools,
              )
              (is_accepted-excess_of (
                  and_then
                    (validate_system len equal_fold cfg req.system
                      (record { total_text = 0; total_decoded = 0 }))
                    (validate_messages len equal_fold cfg req.messages))
                ∙ contents-is_within len equal_fold cfg req)
      ]
    ]
