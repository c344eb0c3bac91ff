-- ===== src/Chains/Execution/Answers.antt =====
-- The messages that a run adds to a history: answers of the model, each with the results of its calls.
use mathlib.Core.List.{Perm, perm_middle}
use mathlib.Core.List.Perm
use vai_gateway.Prelude.{◌≡◌, refl, ap, String, Bool, List, [], ◌∷◌, ◌++◌, Bool-cases, inl, inr}
use vai_gateway.Types.{
  ContentBlock, tool_result, Content, blocks, Message, ToolUse, MessageResponse, tool_uses,
}
use vai_gateway.RunLoop.Model.{RunToolResult, assistant, tool_message, result_blocks}
use vai_gateway.Chains.ClientTools.Batch.{Batch, result_ids, use_ids, gateway_ids, client_ids}

-- The ids that the results in a message are for.
unfoldable pub answered_id : ContentBlock → List String → List String
answered_id (tool_result id content is_error) ids = id ∷ ids
answered_id _ ids = ids

unfoldable pub answered_ids : List ContentBlock → List String
answered_ids [] = []
answered_ids (b ∷ bs) = answered_id b (answered_ids bs)

unfoldable pub blocks_of : Content → List ContentBlock
blocks_of (blocks bs) = bs
blocks_of _ = []

-- A message of the model, and the user's message that has exactly one result for each of its calls.
abbrev pub Answers : Message → Message → Type 0
Answers a t =
    (a.role ≡ "assistant")
    × (t.role ≡ "user")
    × Perm (answered_ids (blocks_of t.content)) (use_ids (tool_uses (blocks_of a.content)))

results-ids : (rs : List RunToolResult) → answered_ids (result_blocks rs) ≡ result_ids rs
unfolding answered_ids answered_id result_blocks
results-ids [] = refl
results-ids (r ∷ rs) = ap (λ ids. r.tool_use_id ∷ ids) (results-ids rs)

ids-perm :
    (has : String → Bool) (uses : List ToolUse)
    → Perm (gateway_ids has uses ++ client_ids has uses) (use_ids uses)
unfolding gateway_ids client_ids
ids-perm has [] = Perm.refl []
ids-perm has (u ∷ us) = elim (Bool-cases (has u.name)) [
  | inl ours ↦ rw (ours, gateway_ids, client_ids) (Perm.cons u.id (ids-perm has us))
  | inr theirs ↦
      rw (theirs, gateway_ids, client_ids)
        (Perm.trans (perm_middle (gateway_ids has us) (client_ids has us))
          (Perm.cons u.id (ids-perm has us)))
]

pub batch-Answers :
    (has : String → Bool) (resp : MessageResponse) (b : Batch)
    → result_ids b.results
      ≡ gateway_ids has (tool_uses resp.content) ++ client_ids has (tool_uses resp.content)
    → Answers (assistant resp.content) (tool_message b.results)
unfolding tool_message blocks_of
batch-Answers has resp b e =
    (refl, refl, rw (results-ids b.results, e) (ids-perm has (tool_uses resp.content)))

-- Answers of the model with the results of their calls, and at the end perhaps an answer alone.
unfoldable pub Turns : List Message → Type 0
Turns [] = Unit
Turns (a ∷ []) = a.role ≡ "assistant"
Turns (a ∷ t ∷ rest) = Answers a t × Turns rest
