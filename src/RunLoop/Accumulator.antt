-- ===== src/RunLoop/Accumulator.antt =====
-- pkg/gateway/runloop/accumulator.go: StreamAccumulator, which rebuilds a response from the events
-- of a provider's stream. Indices are not negative, and blocks and events are values; the code also
-- takes pointers to them, which it treats alike. `parse_object` is `json.Unmarshal` into a map,
-- with `none` where that returns an error.
use vai_gateway.Prelude.{
  ℕ, zero, suc, String, ◌<>◌, ◌||◌, Option, none, some, List, [], ◌∷◌, ◌==◌, leb, length, get_elem?,
  set, numbers_comparable, texts_comparable, if◌then◌else◌,
}
use vai_gateway.Prelude.Assoc.{Map, lookup, insert, remove}
use vai_gateway.Types.{
  Json, ContentBlock, nil_block, text, thinking, tool_use, server_tool_use, MessageResponse,
}
use vai_gateway.Types.Usage
use vai_gateway.Types.Usage.{zero_usage}

pub data Delta : Type 0 where
  text_delta thinking_delta input_json_delta : String → Delta
  unknown_delta : Json → Delta

pub data StreamEvent : Type 0 where
  message_start : MessageResponse → StreamEvent
  content_block_start : ℕ → ContentBlock → StreamEvent
  content_block_delta : ℕ → Delta → StreamEvent
  content_block_stop : ℕ → StreamEvent
  message_delta : String → Usage.Usage → StreamEvent
  message_stop ping : StreamEvent
  unknown_event : Json → StreamEvent

pub record StreamAccumulator : Type 0 where
  pub response : MessageResponse
  pub current_content : List ContentBlock
  pub tool_input_buffers : Map ℕ String

abbrev pub zero_response : MessageResponse
zero_response = record {
  id = "";
  role = "";
  model = "";
  content = [];
  stop_reason = "";
  usage = zero_usage;
  metadata = [];
}

abbrev pub new_accumulator : StreamAccumulator
new_accumulator = record { response = zero_response; current_content = []; tool_input_buffers = [] }

unfoldable pub ensure_content_index : ℕ → List ContentBlock → List ContentBlock
ensure_content_index zero [] = nil_block ∷ []
ensure_content_index zero (b ∷ bs) = b ∷ bs
ensure_content_index (suc i) [] = nil_block ∷ ensure_content_index i []
ensure_content_index (suc i) (b ∷ bs) = b ∷ ensure_content_index i bs

-- The block that a delta leaves in the place of the one that it finds.
unfoldable pub extend_block : Delta → ContentBlock → ContentBlock
extend_block (text_delta d) (text t) = text (t <> d)
extend_block (thinking_delta d) (thinking t summary) = thinking (t <> d) summary
extend_block _ b = b

unfoldable pub extend_at : Delta → ℕ → Option ContentBlock → List ContentBlock → List ContentBlock
extend_at d i none bs = bs
extend_at d i (some b) bs = set bs i (extend_block d b)

-- The fragments of a tool's input so far, "" if there is none.
unfoldable pub buffered : ℕ → Map ℕ String → String
buffered i m = elim (lookup i m) [ none ↦ "" | some s ↦ s ]

unfoldable pub buffer_delta : ℕ → Delta → Map ℕ String → Map ℕ String
unfolding buffered
buffer_delta i (input_json_delta d) m = insert i (buffered i m <> d) m
buffer_delta i _ m = m

unfoldable pub apply_delta : ℕ → Delta → StreamAccumulator → StreamAccumulator
unfolding extend_at
apply_delta i d a =
    let bs = ensure_content_index i a.current_content in
    record a {
      current_content = extend_at d i (get_elem? bs i) bs;
      tool_input_buffers = buffer_delta i d a.tool_input_buffers;
    }

-- The block with its input replaced, if it is a use of a tool.
unfoldable pub with_input : Json → ContentBlock → ContentBlock
with_input input (tool_use i n old) = tool_use i n input
with_input input (server_tool_use i n old) = server_tool_use i n input
with_input input b = b

module _ (parse_object : String → Option Json) where
  unfoldable pub set_input :
      ℕ → Option Json → Option ContentBlock → List ContentBlock → List ContentBlock
  set_input i (some input) (some b) bs = set bs i (with_input input b)
  set_input i _ _ bs = bs

  unfoldable pub store_input : ℕ → String → List ContentBlock → List ContentBlock
  unfolding set_input
  store_input i raw bs =
      if raw == "" || leb (length bs) i
      then bs
      else set_input i (parse_object raw) (get_elem? bs i) bs

  unfoldable pub apply_buffered : ℕ → Option String → StreamAccumulator → StreamAccumulator
  apply_buffered i none a = a
  apply_buffered i (some raw) a = record a {
    current_content = store_input i raw a.current_content;
    tool_input_buffers = remove i a.tool_input_buffers;
  }

  unfoldable pub apply_tool_input : ℕ → StreamAccumulator → StreamAccumulator
  unfolding apply_buffered store_input
  apply_tool_input i a = apply_buffered i (lookup i a.tool_input_buffers) a

  unfoldable pub apply : StreamAccumulator → StreamEvent → StreamAccumulator
  apply a (message_start m) = record a { response = m }
  apply a (content_block_start i b) = record a {
    current_content = set (ensure_content_index i a.current_content) i b;
  }
  apply a (content_block_delta i d) = apply_delta i d a
  apply a (content_block_stop i) = apply_tool_input i a
  apply a (message_delta reason usage) = record a {
    response = record a.response { stop_reason = reason; usage = usage };
  }
  apply a _ = a

  unfoldable pub apply_all : StreamAccumulator → List StreamEvent → StreamAccumulator
  apply_all a [] = a
  apply_all a (e ∷ es) = apply_all (apply a e) es

  -- The loop of Response over the buffers that are left.
  unfoldable pub flush_inputs : List (ℕ × String) → StreamAccumulator → StreamAccumulator
  flush_inputs [] a = a
  flush_inputs ((i, raw) ∷ rest) a = flush_inputs rest (apply_tool_input i a)

  -- The method Response.
  unfoldable pub response_of : StreamAccumulator → MessageResponse
  unfolding flush_inputs
  response_of a =
      let done = flush_inputs a.tool_input_buffers a in
      record done.response { content = done.current_content }
