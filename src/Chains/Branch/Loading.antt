-- ===== src/Chains/Branch/Loading.antt =====
-- The chains that a manager has in memory, and those of its store: requireChain and GetChain (manager.go).
use vai_gateway.Prelude.{String, Option, none, some, List, [], texts_comparable, numbers_comparable}
use vai_gateway.Prelude.Assoc.{Assoc, lookup, insert}
use vai_gateway.Types.{Message}
use vai_gateway.Chains.Model.{ChainRecord, ActiveAttachment, HotChain, WriterLease}
use vai_gateway.Chains.MemoryStore.Records.{MemoryStore}
use vai_gateway.Chains.MemoryStore.{get_chain, get_chain_resume_token_hash}

-- The chains of a Manager, and its store.
pub record Registry : Type 0 where
  pub hot : Assoc HotChain
  pub store : MemoryStore

-- The chain that requireChain makes out of a stored one.
abbrev pub loaded : ChainRecord → List Message → Option String → HotChain
loaded info history hash = record {
  info = info;
  history = history;
  replay = [];
  replay_bytes = 0;
  next_event_id = 0;
  org_id = info.org_id;
  actor_id = info.actor_id;
  resume_token_hash = elim hash [ none ↦ "" | some h ↦ h ];
  writer = none;
  active_run = none;
}

unfoldable pub load_chain :
    String → Registry → Option (ChainRecord × List Message) → Option (HotChain × Registry)
load_chain id g none = none
load_chain id g (some (info, history)) =
    let c = loaded info history (get_chain_resume_token_hash id g.store) in
    some (c, record g { hot = insert id c g.hot })

-- The only error is that the chain is not found.
unfoldable pub require_chain : String → Registry → Option (HotChain × Registry)
require_chain id g = elim (lookup id g.hot) [
  | some c ↦ some (c, g)
  | none ↦ load_chain id g (get_chain id g.store)
]

abbrev attachment_of : WriterLease → ActiveAttachment
attachment_of w = record { mode = w.mode; started_at = w.started_at }

-- What a stored record takes from the chain in memory.
unfoldable pub overlay : ChainRecord → Option HotChain → ChainRecord
overlay info none = info
overlay info (some c) = record info {
  status = c.info.status;
  chain_version = c.info.chain_version;
  updated_at = c.info.updated_at;
  defaults = c.info.defaults;
  active_attachment = elim c.writer [ none ↦ none | some w ↦ some (attachment_of w) ];
}

-- GetChain
unfoldable pub chain_of : String → Registry → Option ChainRecord
chain_of id g = elim (get_chain id g.store) [
  | none ↦ none
  | some (info, history) ↦ some (overlay info (lookup id g.hot))
]
