-- ===== src/Types.antt =====
-- The wire types of the gateway (pkg/core/types): content blocks, messages, responses and usage.
-- `map[string]any` values are JSON trees; a nil interface value is a constructor of its own.
pub mod Usage
use vai_gateway.Prelude.{
  String, Bool, Option, none, some, List, [], ◌∷◌, ◌==◌, texts_comparable, if◌then◌else◌,
}
use vai_gateway.Prelude.Assoc.{Assoc}

-- A number keeps the text of its literal.
mutual
  pub data Json : Type 0 where
    null : Json
    boolean : Bool → Json
    number string : String → Json
    array : Items → Json
    object : Fields → Json

  pub data Items : Type 0 where
    nil : Items
    cons : Json → Items → Items

  pub data Fields : Type 0 where
    end : Fields
    field : String → Json → Fields → Fields

-- The entries of an object.
unfoldable pub fields_of : Option Json → Fields
fields_of (some (object fs)) = fs
fields_of _ = end

-- What a map has under a key.
unfoldable pub field_at : String → Fields → Option Json
field_at k end = none
field_at k (field j v fs) = let rest = field_at k fs in if j == k then some v else rest

unfoldable pub json_at : String → Option Json → Option Json
json_at k json = field_at k (fields_of json)

-- The blocks that the modelled code only passes on keep their payload as JSON.
mutual
  pub data ContentBlock : Type 0 where
    nil_block : ContentBlock
    text : String → ContentBlock
    thinking : String → Option String → ContentBlock
    tool_use : String → String → Json → ContentBlock
    server_tool_use : String → String → Json → ContentBlock
    tool_result : String → Blocks → Bool → ContentBlock
    image audio audio_stt video document web_search_tool_result unknown_block : Json → ContentBlock

  pub data Blocks : Type 0 where
    no_blocks : Blocks
    block : ContentBlock → Blocks → Blocks

-- The content of a tool result, out of the slice that the code builds it from.
pub of_list : List ContentBlock → Blocks
of_list [] = no_blocks
of_list (b ∷ bs) = block b (of_list bs)

-- `Message.Content` is nil, a string or a slice of blocks.
pub data Content : Type 0 where
  no_content : Content
  str : String → Content
  blocks : List ContentBlock → Content

pub record Message : Type 0 where
  pub role : String
  pub content : Content

pub record ToolUse : Type 0 where
  pub id : String
  pub name : String
  pub input : Json

pub record MessageResponse : Type 0 where
  pub id : String
  pub role : String
  pub model : String
  pub content : List ContentBlock
  pub stop_reason : String
  pub usage : Usage.Usage
  pub metadata : Assoc Json

unfoldable pub tool_use_of : ContentBlock → List ToolUse → List ToolUse
tool_use_of (tool_use i n input) rest = record { id = i; name = n; input = input } ∷ rest
tool_use_of _ rest = rest

-- (*MessageResponse).ToolUses
unfoldable pub tool_uses : List ContentBlock → List ToolUse
unfolding tool_use_of
tool_uses [] = []
tool_uses (b ∷ bs) = tool_use_of b (tool_uses bs)

-- types.Error, with the fields that the run loop sets.
pub record TypesError : Type 0 where
  pub kind : String
  pub message : String
  pub code : String
