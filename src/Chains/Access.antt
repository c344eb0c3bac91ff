-- ===== src/Chains/Access.antt =====
-- pkg/gateway/chains/manager.go: who may read, change and attach to a chain, and what a credential
-- scope allows. The chain's id that the code adds to an error is left out. `hash_token` is the hex
-- form of SHA-256, and `to_lower` is strings.ToLower.
pub mod Laws
use Prim.Native.Char.{code}
use vai_gateway.Prelude.{
  ℕ, String, Bool, true, false, ◌||◌, not, Option, none, some, List, [], ◌∷◌, ◌==◌,
  texts_comparable, numbers_comparable, if◌then◌else◌,
}
use vai_gateway.Prelude.Assoc.{Assoc, lookup}
use vai_gateway.Prelude.Text.{trim_space, is_blank, is_empty_text}
use vai_gateway.Chains.Model.{
  ChainError, canonical_error, auth_chain_access_denied, auth_resume_token_invalid,
  auth_actor_scope_denied, Principal, HotChain,
}

-- A result, or an error.
pub data Outcome {ℓ} (A : Type ℓ) : Type ℓ where
  done : A → Outcome A
  denied : ChainError → Outcome A

unfoldable pub authorize_org_access : (resource_org_id caller_org_id : String) → Option ChainError
authorize_org_access resource_org_id caller_org_id =
    if is_blank caller_org_id
      || is_blank resource_org_id
      || not (trim_space caller_org_id == trim_space resource_org_id)
    then some
        (canonical_error auth_chain_access_denied "principal is not authorized for this chain")
    else none

unfoldable pub authorize_chain_mutation : HotChain → Principal → Option ChainError
authorize_chain_mutation c p = authorize_org_access c.org_id p.org_id

abbrev pub invalid_token : ChainError
invalid_token = canonical_error auth_resume_token_invalid "resume token is invalid"

abbrev pub actor_denied : ChainError
actor_denied = canonical_error auth_actor_scope_denied "actor is not authorized for this chain"

-- The test of the actor, after those of the organisation and the token.
unfoldable pub authorize_actor : HotChain → Principal → Outcome String
authorize_actor c p =
    if c.actor_id == ""
    then done (trim_space p.actor_id)
    else if is_blank p.actor_id || not (trim_space p.actor_id == trim_space c.actor_id)
    then denied actor_denied
    else done c.actor_id

-- The actor of the attachment, or why it is refused.
unfoldable pub authorize_attach :
    (hash_token : String → String) → HotChain → Principal → (resume_token : String) → Outcome String
authorize_attach hash_token c p resume_token =
    if is_blank p.org_id || is_blank c.org_id || not (trim_space p.org_id == trim_space c.org_id)
    then denied invalid_token
    else if c.resume_token_hash == "" || not (hash_token resume_token == c.resume_token_hash)
    then denied invalid_token
    else authorize_actor c p

pub record CredentialScope : Type 0 where
  pub provider_keys : Assoc String
  pub allowed_gateway_tools : List String

-- What Go reads from a map of texts: "" for a missing key.
unfoldable pub text_at : String → Assoc String → String
text_at k m = elim (lookup k m) [ none ↦ "" | some v ↦ v ]

-- The text before the first slash and the one after it, if there is a slash.
unfoldable pub cut_slash : String → Option (String × String)
cut_slash String.[] = none
cut_slash (String.◌∷◌ c s) =
    let rest = cut_slash s in
    if code c == 47
    then some (String.[], s)
    else elim rest [ none ↦ none | some (a, b) ↦ some (String.◌∷◌ c a, b) ]

unfoldable pub both_parts : Option (String × String) → Option (String × String)
both_parts none = none
both_parts (some (a, b)) = if is_empty_text a || is_empty_text b then none else some (a, b)

unfoldable pub split_model : String → Option (String × String)
split_model model = both_parts (cut_slash (trim_space model))

-- providerFromModel
unfoldable pub provider_from_model : String → String
provider_from_model model = elim (split_model model) [
  | none ↦ ""
  | some (provider, rest) ↦ provider
]

module _ (to_lower : String → String) where
  unfoldable pub key_of : CredentialScope → (provider : String) → String
  key_of s provider =
      if provider == "oai-resp"
      then (if is_blank (text_at "oai-resp" s.provider_keys)
          then trim_space (text_at "openai" s.provider_keys)
          else trim_space (text_at "oai-resp" s.provider_keys))
      else trim_space (text_at provider s.provider_keys)

  unfoldable pub provider_key_for : CredentialScope → (provider : String) → String
  provider_key_for s provider = key_of s (to_lower (trim_space provider))

  unfoldable pub allows_model : CredentialScope → (model : String) → Bool
  allows_model s model = elim (split_model model) [
    | none ↦ false
    | some (provider, rest) ↦ not (is_empty_text (provider_key_for s provider))
  ]

unfoldable pub has_tool : String → List String → Bool
has_tool name [] = false
has_tool name (t ∷ ts) = t == name || has_tool name ts

unfoldable pub allows_gateway_tool : CredentialScope → String → Bool
allows_gateway_tool s name = has_tool (trim_space name) s.allowed_gateway_tools
