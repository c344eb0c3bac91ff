-- ===== src/Chains/Branch/Created.antt =====
-- What requireChain and createForkedChain leave in memory and in the store.
use vai_gateway.Prelude.{
  ℕ, ◌≡◌, refl, ◌∙◌, String, Option, none, some, List, ◌==◌, texts_comparable, numbers_comparable,
  if◌then◌else◌, inl, inr, Option-cases, Bool-cases,
}
use vai_gateway.Prelude.Assoc.{lookup, insert, lookup-insert_self}
use vai_gateway.Types.{Message}
use vai_gateway.Chains.Model.{ChainRecord, Principal, HotChain}
use vai_gateway.Chains.Access.{done}
use vai_gateway.Chains.MemoryStore.Records.{MemoryStore}
use vai_gateway.Chains.MemoryStore.{
  get_chain, get_session, upsert_session, save_chain, set_chain_resume_token_hash, save_idempotency,
}
use vai_gateway.Chains.MemoryStore.Reads.{get_chain-save_chain}
use vai_gateway.Chains.Branch.{
  FreshFork, ForkCall, forked_record, forked_chain, advance_session, response_to, fork_record,
  with_fork, create_forked_chain,
}
use vai_gateway.Chains.Branch.Loading.{Registry, load_chain, require_chain}
use vai_gateway.Chains.Branch.Preview.{ForkPreview}

-- A chain that has been required is in memory, and the store is as it was.
abbrev pub Held : String → Registry → Option (HotChain × Registry) → Type 0
Held id g none = Unit
Held id g (some (c, g')) = (lookup id g'.hot ≡ some c) × (g'.store ≡ g.store)

load_chain-Held :
    (id : String) (g : Registry) (found : Option (ChainRecord × List Message))
    → Held id g (load_chain id g found)
unfolding load_chain
load_chain-Held id g none = tt
load_chain-Held id g (some (info, history)) = (lookup-insert_self id _ g.hot, refl)

pub require_chain-Held : (id : String) (g : Registry) → Held id g (require_chain id g)
unfolding require_chain
require_chain-Held id g = elim (Option-cases (lookup id g.hot)) [
  | inl absent ↦ rw (absent, require_chain) (load_chain-Held id g (get_chain id g.store))
  | inr (c, held) ↦ rw (held, require_chain) (held, refl)
]

-- The store and the chains in memory after a fork.
abbrev pub forked : Principal → ForkPreview → ForkCall → FreshFork → Registry → Registry
forked p preview call fresh g =
    let saved = with_fork p preview fresh g.store in
    record g {
      hot = insert fresh.chain_id (forked_chain p preview fresh) g.hot;
      store = save_idempotency (fork_record call fresh) (record saved {
        chain_resume = insert fresh.chain_id fresh.resume_token_hash saved.chain_resume;
      });
    }

set_hash-saved :
    (id hash : String) (s : MemoryStore) (info : ChainRecord)
    → lookup id s.chains ≡ some info
    → set_chain_resume_token_hash id hash s
      ≡ some (record s { chain_resume = insert id hash s.chain_resume })
unfolding set_chain_resume_token_hash
set_hash-saved id hash s info stored = rw (stored, set_chain_resume_token_hash) refl

-- A fork does not fail in a store in memory.
pub create_forked_chain-forked :
    (p : Principal) (preview : ForkPreview) (call : ForkCall) (fresh : FreshFork) (g : Registry)
    → create_forked_chain p preview call fresh g ≡ (
      done (response_to (forked_record p preview fresh) fresh.resume_token preview.input),
      forked p preview call fresh g,
    )
unfolding create_forked_chain save_chain
create_forked_chain-forked p preview call fresh g =
    let saved = with_fork p preview fresh g.store in
    rw
      (
        set_hash-saved fresh.chain_id fresh.resume_token_hash saved (forked_record p preview fresh)
            (lookup-insert_self fresh.chain_id (forked_record p preview fresh)
              (advance_session (forked_record p preview fresh) fresh.now g.store).chains),
        create_forked_chain,
      )
      refl

advance_session-get_chain :
    (info : ChainRecord) (now : ℕ) (s : MemoryStore) (j : String)
    → get_chain j (advance_session info now s) ≡ get_chain j s
unfolding advance_session upsert_session get_chain
advance_session-get_chain info now s j = elim (Bool-cases (info.session_id == "")) [
  | inl unsessioned ↦ rw (unsessioned, advance_session) refl
  | inr some_session ↦ elim (Option-cases (get_session info.session_id s)) [
    | inl absent ↦ rw (some_session, absent, advance_session) refl
    | inr (session, found) ↦ rw (some_session, found, advance_session) refl
  ]
]

-- The chains of the store after a fork.
pub get_chain-forked :
    (p : Principal) (preview : ForkPreview) (call : ForkCall) (fresh : FreshFork) (g : Registry)
    (j : String)
    → get_chain j (forked p preview call fresh g).store ≡ (
        if fresh.chain_id == j
        then some (forked_record p preview fresh, preview.history)
        else get_chain j g.store)
unfolding save_idempotency get_chain
get_chain-forked p preview call fresh g j =
    get_chain-save_chain fresh.now (forked_record p preview fresh) preview.history
      (advance_session (forked_record p preview fresh) fresh.now g.store) j
    ∙ rw (advance_session-get_chain (forked_record p preview fresh) fresh.now g.store j) refl
