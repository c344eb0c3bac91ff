-- ===== src/Chains/MemoryStore/Reads.antt =====
-- What a read returns after a write, and of a consistent store.
use vai_gateway.Prelude.{
  ℕ, ◌≡◌, refl, String, true, none, some, List, [], ◌∷◌, ◌++◌, map, length, ◌==◌, texts_comparable,
  eq_refl, arith, if◌then◌else◌,
}
use vai_gateway.Prelude.Assoc.{Assoc, lookup, lookup-insert}
use vai_gateway.Types.{Message}
use vai_gateway.Chains.Model.{ChainRecord}
use vai_gateway.Chains.MemoryStore.{
  listed, gather, contains, list_session_chains, list_chain_runs, save_chain, get_chain,
  append_chain_messages, append_to, idempotency_map_key, save_idempotency, is_expired,
  get_idempotency,
}
use vai_gateway.Chains.MemoryStore.Records.{IdempotencyScope, IdempotencyRecord, MemoryStore}
use vai_gateway.Chains.MemoryStore.Invariant.{
  listed-insert, Known, Keyed, id_of_chain, id_of_run, Consistent,
}

-- The ids of the records that are gathered, if all are there.
gather-ids {ℓ} :
    {A : Type ℓ} (id_of : A → String) (ids : List String) (m : Assoc A)
    → Keyed id_of m
    → ((id : String) → contains ids id ≡ true → Known m id)
    → map id_of (gather ids m) ≡ ids
unfolding gather contains
gather-ids id_of [] m keyed named = refl
gather-ids id_of (id ∷ ids) m keyed named =
    let (a, found) = named id (ground (arith, eq_refl id)) in
    let rest = gather-ids id_of ids m keyed λ j there. named j (ground arith) in
    rw (found, gather) (cc (keyed id a found, rest))

-- In a consistent store the chains of a session are exactly those that have been linked to it, in
-- that order, and the runs of a chain those that have been created for it: none is passed over.
pub list_session_chains-ids :
    (s : MemoryStore) (id : String)
    → Consistent s
    → (map id_of_chain (list_session_chains id s) ≡ listed id s.session_chains)
      × (map id_of_run (list_chain_runs id s) ≡ listed id s.chain_runs)
unfolding list_session_chains list_chain_runs
list_session_chains-ids s id h = (
  gather-ids id_of_chain (listed id s.session_chains) s.chains h.chains (h.linked id),
  gather-ids id_of_run (listed id s.chain_runs) s.runs h.runs (h.started id),
)

-- After a chain is saved, its id gives the chain and its history, and every other id what it gave.
pub get_chain-save_chain :
    (now : ℕ) (c : ChainRecord) (ms : List Message) (s : MemoryStore) (id : String)
    → get_chain id (save_chain now c ms s) ≡ (if c.id == id then some (c, ms) else get_chain id s)
unfolding get_chain save_chain
get_chain-save_chain now c ms s id =
    ground (arith, lookup-insert c.id id c s.chains, listed-insert c.id id ms s.chain_history)

-- The chain that a stored id gives is the one that is found.
get_chain-found :
    (id : String) (s : MemoryStore) (c : ChainRecord) (history : List Message)
    → get_chain id s ≡ some (c, history)
    → (lookup id s.chains ≡ some c) × (listed id s.chain_history ≡ history)
unfolding get_chain
get_chain-found id s c history stored = (ground arith, ground arith)

get_chain-append_to :
    (now : ℕ) (id run_id : String) (ms : List Message) (s : MemoryStore) (c : ChainRecord)
    (history : List Message) (j : String)
    → listed id s.chain_history ≡ history
    → get_chain j (append_to now id run_id ms c s) ≡ (
        if id == j
        then some (record c { message_count_cached = length (history ++ ms) }, history ++ ms)
        else get_chain j s)
unfolding get_chain append_to
get_chain-append_to now id run_id ms s c history j held = ground (
  arith,
  held,
  lookup-insert id j (record c { message_count_cached = length (history ++ ms) }) s.chains,
  listed-insert id j (history ++ ms) s.chain_history,
)

-- Messages are appended to a chain that is stored. Then its id gives the longer history, and the
-- chain with the length of that history as its count; every other id gives what it gave.
pub get_chain-append_chain_messages :
    (now : ℕ) (id run_id : String) (ms : List Message) (s : MemoryStore) (c : ChainRecord)
    (history : List Message) (j : String)
    → get_chain id s ≡ some (c, history)
    → (s' : MemoryStore) × (append_chain_messages now id run_id ms s ≡ some s')
      × (get_chain j s' ≡ (
          if id == j
          then some (record c { message_count_cached = length (history ++ ms) }, history ++ ms)
          else get_chain j s))
unfolding append_chain_messages
get_chain-append_chain_messages now id run_id ms s c history j stored =
    let (found, held) = get_chain-found id s c history stored in
    (
      append_to now id run_id ms c s,
      rw (found, append_chain_messages) refl,
      get_chain-append_to now id run_id ms s c history j held,
    )

-- After a result is saved under a scope, a scope of the same key gives it until it expires, and
-- every other what it gave.
pub get_idempotency-save_idempotency :
    (now : ℕ) (scope : IdempotencyScope) (r : IdempotencyRecord) (s : MemoryStore)
    → get_idempotency now scope (save_idempotency r s) ≡ (
        if idempotency_map_key r.scope == idempotency_map_key scope
        then (if is_expired now r then none else some r)
        else get_idempotency now scope s)
unfolding get_idempotency save_idempotency
get_idempotency-save_idempotency now scope r s =
    ground (
      arith,
      lookup-insert (idempotency_map_key r.scope) (idempotency_map_key scope) r s.idempotency,
    )
