-- ===== src/Chains/Branch/Again.antt =====
-- A fork that is asked for again under its key.
use vai_gateway.Prelude.{
  ℕ, ◌+◌, ◌≤◌, ◌≡◌, refl, sym, ap, subst, ◌∙◌, String, false, Option, none, some, List, ◌==◌,
  texts_comparable, eq_refl, numbers_comparable, arith,
}
use vai_gateway.Prelude.Assoc.{lookup, lookup-insert, lookup-insert_self}
use vai_gateway.Prelude.Text.{is_blank}
use vai_gateway.Types.{fields_of, json_at, field_at, Message}
use vai_gateway.Chains.Model.{Principal, HotChain}
use vai_gateway.Chains.Access.{Outcome, done, denied}
use vai_gateway.Chains.MemoryStore.{is_expired, get_idempotency, idempotency_map_key}
use vai_gateway.Chains.MemoryStore.Records.{MemoryStore}
use vai_gateway.Chains.MemoryStore.Reads.{get_idempotency-save_idempotency}
use vai_gateway.Chains.Branch.{
  FreshFork, ForkCall, ChainForkResponse, forked_record, forked_chain, response_to, fork_response,
  day, fork_record, create_forked_chain, chain_id_of, fork_once, scope_of, fork_previewed, with_key,
  fork_chain,
}
use vai_gateway.Chains.Branch.Loading.{Registry, require_chain, chain_of, overlay}
use vai_gateway.Chains.Branch.Preview.{
  ForkPreview, ChainForkRequest, fork_preview, preview_found, preview_fork_chain,
}
use vai_gateway.Chains.Branch.Created.{
  Held, require_chain-Held, forked, create_forked_chain-forked, get_chain-forked,
}

-- The answer of a fork whose key is new.
pub with_key-done :
    (key : String) (g : Registry) (result : Outcome ChainForkResponse × Registry)
    (resp : ChainForkResponse) (g' : Registry)
    → with_key key g result ≡ (done resp, g')
    → (is_blank key ≡ false) × (result ≡ (done resp, g'))
unfolding with_key
with_key-done key g result resp g' e = ground arith

-- A preview, and the registry in which its fork is made.
pub fork_previewed-done :
    (p : Principal) (call_of : ForkPreview → ForkCall) (fresh : FreshFork)
    (x : Outcome ForkPreview × Registry) (resp : ChainForkResponse) (g' : Registry)
    → fork_previewed p call_of fresh x ≡ (done resp, g')
    → (preview : ForkPreview) × (x.0 ≡ done preview)
      × (fork_once p preview
            (call_of preview)
            fresh
            x.1
            (get_idempotency fresh.now (call_of preview).scope x.1.store)
          ≡ (done resp, g'))
unfolding fork_previewed
fork_previewed-done p call_of fresh (denied e, g) resp g' h = cc
fork_previewed-done p call_of fresh (done preview, g) resp g' h = (preview, refl, h)

pub preview_found-done :
    (id : String) (g : Registry) (preview_of : HotChain → MemoryStore → Outcome ForkPreview)
    (found : Option (HotChain × Registry)) (preview : ForkPreview)
    → Held id g found
    → (preview_found g preview_of found).0 ≡ done preview
    → (c : HotChain) × (lookup id (preview_found g preview_of found).1.hot ≡ some c)
      × ((preview_found g preview_of found).1.store ≡ g.store)
      × (preview_of c g.store ≡ done preview)
unfolding preview_found
preview_found-done id g preview_of none preview held h = cc
preview_found-done id g preview_of (some (c, g')) preview (held, same) h =
    (c, held, same, ap (preview_of c) (sym same) ∙ h)

-- A chain in memory is previewed without a change.
preview_fork_chain-held :
    (p : Principal) (id : String) (payload : ChainForkRequest) (g : Registry) (c : HotChain)
    → lookup id g.hot ≡ some c
    → preview_fork_chain p id payload g ≡ (fork_preview p payload c, g)
unfolding preview_fork_chain preview_found require_chain
preview_fork_chain-held p id payload g c held = rw (held, require_chain) refl

-- What the key of a fork recalls afterwards.
get_idempotency-forked :
    (p : Principal) (preview : ForkPreview) (call : ForkCall) (fresh : FreshFork) (g : Registry)
    (now : ℕ)
    → now ≤ fresh.now + day
    → get_idempotency now call.scope (forked p preview call fresh g).store
      ≡ some (fork_record call fresh)
unfolding is_expired
get_idempotency-forked p preview call fresh g now fine =
    let unexpired : is_expired now (fork_record call fresh) ≡ false = ground arith in
    get_idempotency-save_idempotency now call.scope (fork_record call fresh) _
    ∙ rw (eq_refl (idempotency_map_key call.scope), unexpired) refl

chain_of-forked :
    (p : Principal) (preview : ForkPreview) (call : ForkCall) (fresh : FreshFork) (g : Registry)
    → chain_of fresh.chain_id (forked p preview call fresh g) ≡ some (forked_record p preview fresh)
unfolding chain_of overlay
chain_of-forked p preview call fresh g =
    rw
      (
        get_chain-forked p preview call fresh g fresh.chain_id,
        eq_refl fresh.chain_id,
        lookup-insert_self fresh.chain_id (forked_chain p preview fresh) g.hot,
        chain_of,
      )
      refl

abbrev fork_call :
    (ChainForkRequest → String) → Principal → String → ChainForkRequest → String → ForkCall
fork_call hash p id payload key = record {
  scope = scope_of p id "chain.fork" key;
  request_hash = hash payload;
}

lookup-forked :
    (p : Principal) (preview : ForkPreview) (call : ForkCall) (fresh : FreshFork) (g : Registry)
    (id : String) (c : HotChain)
    → (fresh.chain_id == id) ≡ false
    → lookup id g.hot ≡ some c
    → lookup id (forked p preview call fresh g).hot ≡ some c
lookup-forked p preview call fresh g id c other held =
    lookup-insert fresh.chain_id id (forked_chain p preview fresh) g.hot ∙ rw other held

chain_id_of-fork_record :
    (call : ForkCall) (fresh : FreshFork) → chain_id_of (fork_record call fresh) ≡ fresh.chain_id
unfolding chain_id_of json_at fields_of field_at
chain_id_of-fork_record call fresh = refl

fork_response-forked :
    (p : Principal) (preview : ForkPreview) (call : ForkCall) (fresh : FreshFork) (g : Registry)
    (input : List Message)
    → fork_response fresh.chain_id input (forked p preview call fresh g)
      ≡ done (response_to (forked_record p preview fresh) "" input)
unfolding fork_response
fork_response-forked p preview call fresh g input =
    rw (chain_of-forked p preview call fresh g, fork_response) refl

fork_once-forked :
    (p : Principal) (preview : ForkPreview) (call : ForkCall) (fresh again : FreshFork)
    (g : Registry)
    → (fresh.chain_id == "") ≡ false
    → fork_once p preview call again (forked p preview call fresh g) (some (fork_record call fresh))
      ≡ (
        done (response_to (forked_record p preview fresh) "" preview.input),
        forked p preview call fresh g,
      )
unfolding fork_once
fork_once-forked p preview call fresh again g named =
    rw
      (
        eq_refl call.request_hash,
        chain_id_of-fork_record call fresh,
        named,
        fork_response-forked p preview call fresh g preview.input,
      )
      refl

fork_chain-forked :
    (hash : ChainForkRequest → String) (fresh again : FreshFork) (p : Principal) (id : String)
    (payload : ChainForkRequest) (key : String) (g : Registry) (c : HotChain)
    (preview : ForkPreview)
    → is_blank key ≡ false
    → lookup id g.hot ≡ some c
    → fork_preview p payload c ≡ done preview
    → (fresh.chain_id == id) ≡ false
    → (fresh.chain_id == "") ≡ false
    → again.now ≤ fresh.now + day
    → fork_chain hash again p id payload key
        (forked p preview (fork_call hash p id payload key) fresh g)
      ≡ (
        done (response_to (forked_record p preview fresh) "" preview.input),
        forked p preview (fork_call hash p id payload key) fresh g,
      )
unfolding fork_chain with_key fork_previewed
fork_chain-forked hash fresh again p id payload key g c preview given held shown other named fine =
    let call = fork_call hash p id payload key in
    let kept = lookup-forked p preview call fresh g id c other held in
    rw
      (
        given,
        preview_fork_chain-held p id payload (forked p preview call fresh g) c kept,
        shown,
        get_idempotency-forked p preview call fresh g again.now fine,
      )
      (fork_once-forked p preview call fresh again g named)

-- What the same request is answered, after an answer.
abbrev Again :
    (ChainForkRequest → String)
    → FreshFork
    → Principal
    → String
    → ChainForkRequest
    → String
    → Outcome ChainForkResponse × Registry
    → Type 0
Again hash again p id payload key (done resp, g) =
    fork_chain hash again p id payload key g ≡ (done (record resp { resume_token = "" }), g)
Again hash again p id payload key (denied e, g) = Unit

-- A fork that is made under a new key is answered again for a day, when the same request is sent
-- under its key: with the same chain and everything else that was answered, except for the resume
-- token, which is only sent once. The second request changes nothing, neither in memory nor in the
-- store. (The id of the new chain is not empty and not that of its source.)
pub fork_chain-again :
    (hash : ChainForkRequest → String) (fresh again : FreshFork) (p : Principal) (id : String)
    (payload : ChainForkRequest) (key : String) (g g' : Registry) (resp : ChainForkResponse)
    → get_idempotency fresh.now (scope_of p id "chain.fork" key) g.store ≡ none
    → fork_chain hash fresh p id payload key g ≡ (done resp, g')
    → (fresh.chain_id == id) ≡ false
    → (fresh.chain_id == "") ≡ false
    → again.now ≤ fresh.now + day
    → fork_chain hash again p id payload key g' ≡ (done (record resp { resume_token = "" }), g')
unfolding fork_chain preview_fork_chain fork_once
fork_chain-again hash fresh again p id payload key g g' resp new forks other named fine =
    let call = fork_call hash p id payload key in
    let (given, previews) = with_key-done key g _ resp g' forks in
    let (preview, shown, once) =
      fork_previewed-done p (λ x. call) fresh (preview_fork_chain p id payload g) resp g'
        previews in
    let g1 = (preview_fork_chain p id payload g).1 in
    let (c, held, same, previewed) =
      preview_found-done id g (λ c s. fork_preview p payload c) (require_chain id g) preview
        (require_chain-Held id g) shown in
    let none_there : get_idempotency fresh.now call.scope g1.store ≡ none =
      ap (get_idempotency fresh.now call.scope) same ∙ new in
    let made : create_forked_chain p preview call fresh g1 ≡ (done resp, g') =
      ap (fork_once p preview call fresh g1) (sym none_there) ∙ once in
    subst (Again hash again p id payload key)
      (sym (create_forked_chain-forked p preview call fresh g1) ∙ made)
      (fork_chain-forked hash fresh again p id payload key g1 c preview given held previewed other
        named fine)
