-- ===== src/Limits/Tests.antt =====
-- A request with a text, a payload and a payload in the result of a tool.
use vai_gateway.Prelude.{
  ℕ, suc, ◌≡◌, String, Bool, false, ◌&&◌, [], ◌∷◌, length, ◌==◌, texts_comparable,
}
use vai_gateway.Types.{
  Json, string, object, field, end, text, image, tool_result, block, no_blocks, str, blocks,
}
use vai_gateway.Limits.{LimitsConfig, MessageRequest, validate_message_request}
use vai_gateway.Limits.Budget.{is_at_most, is_affordable}
use vai_gateway.Limits.Request.{
  all_have_content, items_of_request, is_accepted, validate_message_request-is_accepted,
}

abbrev small_limits : LimitsConfig
small_limits = record {
  max_messages = 2;
  max_tools = 1;
  max_total_text_bytes = 20;
  max_b64_bytes_per_block = 6;
  max_b64_bytes_total = 12;
}

abbrev payload : Json
payload = object (
    field "source" (object (field "type" (string "base64") (field "data" (string "aGVsbG8=") end)))
      end)

abbrev request : MessageRequest
request = record {
  messages =
      record { role = "user"; content = blocks (text "look" ∷ image payload ∷ []) }
      ∷ record {
        role = "user";
        content = blocks (tool_result "call_1" (block (image payload) no_blocks) false ∷ []);
      }
      ∷ [];
  system = str "be kind";
  tools = [];
}

unfoldable len : String → ℕ
len String.[] = 0
len (String.◌∷◌ c s) = suc (len s)

abbrev same_text : String → String → Bool
same_text a b = a == b

validate_message_request-is_accepted_example :
    is_accepted (validate_message_request len same_text small_limits request) ≡ (
      is_at_most small_limits.max_messages (length request.messages)
      && is_at_most small_limits.max_tools (length request.tools)
      && all_have_content request.messages
      && is_affordable small_limits (items_of_request len same_text request))
validate_message_request-is_accepted_example =
    validate_message_request-is_accepted len same_text small_limits request
