-- ===== src/Chains/Defaults.antt =====
-- pkg/gateway/chains/manager.go: mergeDefaults, which lays a patch over the defaults of a chain.
use vai_gateway.Prelude.{
  ℕ, ◌≡◌, refl, Bool, true, false, Bool-cases, inl, inr, String, Option, none, some, List, [], ◌∷◌,
  ◌==◌, texts_comparable, numbers_comparable, if◌then◌else◌,
}
use vai_gateway.Prelude.Text.{is_blank}
use vai_gateway.Types.{Json, Content, no_content, str, blocks}
use vai_gateway.Chains.Model.{ChainDefaults}

unfoldable over {ℓ} : {A : Type ℓ} → Option A → Option A → Option A
over current none = current
over current (some a) = some a

-- append([]string(nil), patch...): a copy of an empty slice is nil.
unfoldable over_strings : Option (List String) → Option (List String) → Option (List String)
over_strings current none = current
over_strings current (some []) = none
over_strings current (some (s ∷ ss)) = some (s ∷ ss)

unfoldable over_text : String → String → String
over_text current patch = if patch == "" then current else patch

unfoldable over_content : Content → Content → Content
over_content current no_content = current
over_content current (str s) = str s
over_content current (blocks bs) = blocks bs

unfoldable pub merge_defaults : ChainDefaults → ChainDefaults → ChainDefaults
unfolding over over_strings over_text over_content
merge_defaults current patch = record {
  model = if is_blank patch.model then current.model else patch.model;
  system = over_content current.system patch.system;
  tools = over current.tools patch.tools;
  gateway_tools = over_strings current.gateway_tools patch.gateway_tools;
  gateway_tool_config = over current.gateway_tool_config patch.gateway_tool_config;
  tool_choice = over current.tool_choice patch.tool_choice;
  max_tokens = if patch.max_tokens == 0 then current.max_tokens else patch.max_tokens;
  temperature = over current.temperature patch.temperature;
  top_p = over current.top_p patch.top_p;
  top_k = over current.top_k patch.top_k;
  stop_sequences = over_strings current.stop_sequences patch.stop_sequences;
  stt_model = over_text current.stt_model patch.stt_model;
  tts_model = over_text current.tts_model patch.tts_model;
  output_format = over current.output_format patch.output_format;
  output = over current.output patch.output;
  voice = over current.voice patch.voice;
  extensions = over current.extensions patch.extensions;
  metadata = over current.metadata patch.metadata;
}

-- The fields of the defaults, and their values.
pub data Field : Type 0 where
  model_field system_field tools_field gateway_tools_field : Field
  gateway_tool_config_field tool_choice_field max_tokens_field temperature_field : Field
  top_p_field top_k_field stop_sequences_field stt_model_field : Field
  tts_model_field output_format_field output_field voice_field : Field
  extensions_field metadata_field : Field

pub data Setting : Type 0 where
  text_setting : String → Setting
  number_setting : ℕ → Setting
  content_setting : Content → Setting
  json_setting : Option Json → Setting
  strings_setting : Option (List String) → Setting

abbrev pub setting : Field → ChainDefaults → Setting
setting model_field d = text_setting d.model
setting system_field d = content_setting d.system
setting tools_field d = json_setting d.tools
setting gateway_tools_field d = strings_setting d.gateway_tools
setting gateway_tool_config_field d = json_setting d.gateway_tool_config
setting tool_choice_field d = json_setting d.tool_choice
setting max_tokens_field d = number_setting d.max_tokens
setting temperature_field d = json_setting d.temperature
setting top_p_field d = json_setting d.top_p
setting top_k_field d = json_setting d.top_k
setting stop_sequences_field d = strings_setting d.stop_sequences
setting stt_model_field d = text_setting d.stt_model
setting tts_model_field d = text_setting d.tts_model
setting output_format_field d = json_setting d.output_format
setting output_field d = json_setting d.output
setting voice_field d = json_setting d.voice
setting extensions_field d = json_setting d.extensions
setting metadata_field d = json_setting d.metadata

-- The zero values of Go; a text that names a model and is blank counts as one.
unfoldable pub is_zero : Setting → Bool
is_zero (text_setting s) = s == ""
is_zero (number_setting n) = n == 0
is_zero (content_setting no_content) = true
is_zero (json_setting none) = true
is_zero (strings_setting none) = true
is_zero _ = false

unfoldable pub is_blank_text : Setting → Bool
is_blank_text (text_setting s) = is_blank s
is_blank_text _ = false

unfoldable pub is_unset : Field → Setting → Bool
is_unset model_field s = is_blank_text s
is_unset _ s = is_zero s

-- What is left of a setting that is copied: an empty slice becomes nil.
unfoldable pub copied : Setting → Setting
copied (strings_setting (some [])) = strings_setting none
copied s = s

over-json :
    (c p : Option Json)
    → json_setting (over c p)
      ≡ (if is_zero (json_setting p) then json_setting c else copied (json_setting p))
unfolding over is_zero copied
over-json c none = refl
over-json c (some a) = refl

over-strings :
    (c p : Option (List String))
    → strings_setting (over_strings c p)
      ≡ (if is_zero (strings_setting p) then strings_setting c else copied (strings_setting p))
unfolding over_strings is_zero copied
over-strings c none = refl
over-strings c (some []) = refl
over-strings c (some (s ∷ ss)) = refl

over-content :
    (c p : Content)
    → content_setting (over_content c p)
      ≡ (if is_zero (content_setting p) then content_setting c else copied (content_setting p))
unfolding over_content is_zero copied
over-content c no_content = refl
over-content c (str s) = refl
over-content c (blocks bs) = refl

over-text :
    (c p : String)
    → text_setting (over_text c p)
      ≡ (if is_zero (text_setting p) then text_setting c else copied (text_setting p))
unfolding over_text is_zero copied
over-text c p = elim (Bool-cases (p == "")) [
  | inl empty ↦ rw empty refl
  | inr given ↦ rw given refl
]

over-model :
    (c p : String)
    → text_setting (if is_blank p then c else p)
      ≡ (if is_blank_text (text_setting p) then text_setting c else copied (text_setting p))
unfolding is_blank_text copied
over-model c p = elim (Bool-cases (is_blank p)) [
  | inl empty ↦ rw empty refl
  | inr given ↦ rw given refl
]

over-number :
    (c p : ℕ)
    → number_setting (if p == 0 then c else p)
      ≡ (if is_zero (number_setting p) then number_setting c else copied (number_setting p))
unfolding is_zero copied
over-number c p = elim (Bool-cases (p == 0)) [
  | inl zero_here ↦ rw zero_here refl
  | inr given ↦ rw given refl
]

-- In every field the merged defaults have what the patch has, if it is set there, and else what the
-- current defaults have. Unset is the zero value, and a blank name of a model; an empty list of gateway
-- tools or of stop sequences in the patch is set, and clears the field.
pub setting-merge_defaults :
    (f : Field) (c p : ChainDefaults)
    → setting f (merge_defaults c p)
      ≡ (if is_unset f (setting f p) then setting f c else copied (setting f p))
unfolding merge_defaults is_unset
setting-merge_defaults model_field c p = over-model c.model p.model
setting-merge_defaults system_field c p = over-content c.system p.system
setting-merge_defaults tools_field c p = over-json c.tools p.tools
setting-merge_defaults gateway_tools_field c p = over-strings c.gateway_tools p.gateway_tools
setting-merge_defaults gateway_tool_config_field c p =
    over-json c.gateway_tool_config p.gateway_tool_config
setting-merge_defaults tool_choice_field c p = over-json c.tool_choice p.tool_choice
setting-merge_defaults max_tokens_field c p = over-number c.max_tokens p.max_tokens
setting-merge_defaults temperature_field c p = over-json c.temperature p.temperature
setting-merge_defaults top_p_field c p = over-json c.top_p p.top_p
setting-merge_defaults top_k_field c p = over-json c.top_k p.top_k
setting-merge_defaults stop_sequences_field c p = over-strings c.stop_sequences p.stop_sequences
setting-merge_defaults stt_model_field c p = over-text c.stt_model p.stt_model
setting-merge_defaults tts_model_field c p = over-text c.tts_model p.tts_model
setting-merge_defaults output_format_field c p = over-json c.output_format p.output_format
setting-merge_defaults output_field c p = over-json c.output p.output
setting-merge_defaults voice_field c p = over-json c.voice p.voice
setting-merge_defaults extensions_field c p = over-json c.extensions p.extensions
setting-merge_defaults metadata_field c p = over-json c.metadata p.metadata
