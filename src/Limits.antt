-- ===== src/Limits.antt =====
-- pkg/gateway/limits: what a request for a message may hold. The texts and the parameters of the errors are
-- left out: an error is the limit that it is about. `len` is the number of a text's bytes, and `equal_fold`
-- is strings.EqualFold. A limit that is not positive is 0 here, and off.
pub mod Budget
pub mod Request
mod Tests
use vai_gateway.Prelude.{
  ℕ, ◌+◌, ◌-◌, ◌*◌, ◌/◌, String, Bool, true, false, ◌&&◌, ◌||◌, Option, none, some, List, [], ◌∷◌,
  ◌++◌, length, ltb, leb, ◌==◌, texts_comparable, numbers_comparable, if◌then◌else◌,
}
use vai_gateway.Prelude.Text.{trim_space}
use vai_gateway.Types.{
  Json, string, json_at, ContentBlock, text, tool_result, image, audio, audio_stt, video, document,
  Blocks, no_blocks, block, of_list, Content, no_content, str, blocks, Message,
}

-- The limits of config.Config.
pub record LimitsConfig : Type 0 where
  pub max_messages : ℕ
  pub max_tools : ℕ
  pub max_total_text_bytes : ℕ
  pub max_b64_bytes_per_block : ℕ
  pub max_b64_bytes_total : ℕ

-- types.MessageRequest, as far as its limits go.
pub record MessageRequest : Type 0 where
  pub messages : List Message
  pub system : Content
  pub tools : List Json

pub data Excess : Type 0 where
  too_many_messages too_many_tools text_bytes block_bytes total_bytes no_message_content : Excess

-- totalTextBytes and totalDecodedB64.
pub record Totals : Type 0 where
  pub total_text : ℕ
  pub total_decoded : ℕ

pub data Checked : Type 0 where
  within : Totals → Checked
  exceeds : Excess → Checked

unfoldable pub and_then : Checked → (Totals → Checked) → Checked
and_then (within t) go_on = go_on t
and_then (exceeds e) go_on = exceeds e

unfoldable pub excess_of : Checked → Option Excess
excess_of (within t) = none
excess_of (exceeds e) = some e

-- strings.HasSuffix
unfoldable pub has_suffix : String → (suffix : String) → Bool
has_suffix String.[] suffix = String.[] == suffix
has_suffix (String.◌∷◌ c s) suffix =
    let rest = has_suffix s suffix in String.◌∷◌ c s == suffix || rest

-- The source of a block with a payload.
unfoldable pub source_text : String → Json → String
source_text key payload = elim (json_at key (json_at "source" (some payload))) [
  | some (string s) ↦ s
  | _ ↦ ""
]

module _ (cfg : LimitsConfig) where
  unfoldable pub add_bytes : ℕ → Totals → Checked
  add_bytes n t =
      if cfg.max_total_text_bytes == 0
      then within t
      else if ltb cfg.max_total_text_bytes (t.total_text + n)
      then exceeds text_bytes
      else within (record t { total_text = t.total_text + n })

  unfoldable pub add_decoded : ℕ → Totals → Checked
  add_decoded decoded t =
      if cfg.max_b64_bytes_per_block == 0 && cfg.max_b64_bytes_total == 0
      then within t
      else if ltb 0 cfg.max_b64_bytes_per_block && ltb cfg.max_b64_bytes_per_block decoded
      then exceeds block_bytes
      else if ltb 0 cfg.max_b64_bytes_total
          && ltb cfg.max_b64_bytes_total (t.total_decoded + decoded)
      then exceeds total_bytes
      else within (record t { total_decoded = t.total_decoded + decoded })

module _ (len : String → ℕ) (equal_fold : String → String → Bool) where
  unfoldable pub is_base64_source : Json → Bool
  is_base64_source payload = equal_fold (trim_space (source_text "type" payload)) "base64"

  unfoldable pub estimate_decoded : String → ℕ
  estimate_decoded b64 =
      len b64 * 3 / 4 - (if has_suffix b64 "==" then 2 else if has_suffix b64 "=" then 1 else 0)

  module _ (cfg : LimitsConfig) where
    unfoldable pub add_text : String → Totals → Checked
    add_text s t = add_bytes cfg (len s) t

    -- A block with a source.
    unfoldable pub add_b64 : Json → Totals → Checked
    add_b64 payload t =
        if is_base64_source payload
        then add_decoded cfg (estimate_decoded (source_text "data" payload)) t
        else within t

    unfoldable mutual
      pub validate_block : ContentBlock → Totals → Checked
      validate_block (text s) t = add_text s t
      validate_block (image payload) t = add_b64 payload t
      validate_block (audio payload) t = add_b64 payload t
      validate_block (audio_stt payload) t = add_b64 payload t
      validate_block (video payload) t = add_b64 payload t
      validate_block (document payload) t = add_b64 payload t
      validate_block (tool_result id content is_error) t = validate_blocks content t
      validate_block _ t = within t

      pub validate_blocks : Blocks → Totals → Checked
      validate_blocks no_blocks t = within t
      validate_blocks (block b bs) t = and_then (validate_block b t) (validate_blocks bs)

    unfoldable pub validate_system : Content → Totals → Checked
    validate_system no_content t = within t
    validate_system (str s) t = add_text s t
    validate_system (blocks bs) t = validate_blocks (of_list bs) t

    unfoldable pub validate_content : Content → Totals → Checked
    validate_content no_content t = exceeds no_message_content
    validate_content (str s) t = add_text s t
    validate_content (blocks bs) t = validate_blocks (of_list bs) t

    unfoldable pub validate_messages : List Message → Totals → Checked
    validate_messages [] t = within t
    validate_messages (m ∷ ms) t = and_then (validate_content m.content t) (validate_messages ms)

    -- `none` is a request that is accepted.
    unfoldable pub validate_message_request : MessageRequest → Option Excess
    validate_message_request req =
        if ltb 0 cfg.max_messages && ltb cfg.max_messages (length req.messages)
        then some too_many_messages
        else if ltb 0 cfg.max_tools && ltb cfg.max_tools (length req.tools)
        then some too_many_tools
        else excess_of (
            and_then (validate_system req.system (record { total_text = 0; total_decoded = 0 }))
              (validate_messages req.messages))
