-- ===== src/Chains/MemoryStore/Tests.antt =====
-- A store with one chain of a session, to which a run appends a message.
use vai_gateway.Prelude.{◌≡◌, none, some, List, [], ◌∷◌, ◌++◌, map, texts_comparable}
use vai_gateway.Types.{null, str, Message}
use vai_gateway.Chains.Model.{ChainRecord, idle, no_defaults}
use vai_gateway.Chains.MemoryStore.{
  listed, save_chain, get_chain, append_chain_messages, list_session_chains, list_chain_runs,
  idempotency_map_key, save_idempotency, get_idempotency, is_expired,
}
use vai_gateway.Chains.MemoryStore.Records.{
  SessionRecord, IdempotencyScope, IdempotencyRecord, MemoryStore, new_memory_store,
}
use vai_gateway.Chains.MemoryStore.Invariant.{Consistent, id_of_chain, id_of_run}
use vai_gateway.Chains.MemoryStore.Writes.{
  Write, upsert_session_write, save_chain_write, append_write, write_all, write_all-Consistent,
}
use vai_gateway.Chains.MemoryStore.Reads.{
  list_session_chains-ids, get_chain-save_chain, get_chain-append_chain_messages,
  get_idempotency-save_idempotency,
}

abbrev chain : ChainRecord
chain = record {
  id = "chain_1";
  org_id = "org";
  session_id = "sess_1";
  external_session_id = "";
  parent_chain_id = "";
  forked_from_run_id = "";
  created_by_principal_id = "p";
  created_by_principal_type = "key";
  actor_id = "";
  status = idle;
  chain_version = 1;
  message_count_cached = 0;
  defaults = record no_defaults { model = "m" };
  metadata = none;
  active_attachment = none;
  created_at = 3;
  updated_at = 3;
}

abbrev session : SessionRecord
session = record {
  id = "sess_1";
  org_id = "org";
  external_session_id = "ext";
  latest_chain_id = "";
  updated_at = 1;
  other_fields = null;
}

abbrev hello : List Message
hello = record { role = "user"; content = str "hello" } ∷ []

abbrev writes : List Write
writes =
    upsert_session_write session
    ∷ save_chain_write 3 chain hello
    ∷ append_write 4 "chain_1" "run_1" hello
    ∷ append_write 5 "chain_2" "run_2" hello
    ∷ []

write_all-Consistent_example : Consistent (write_all writes new_memory_store)
write_all-Consistent_example = write_all-Consistent writes

list_session_chains-ids_example :
    (map id_of_chain (list_session_chains "sess_1" (write_all writes new_memory_store))
      ≡ listed "sess_1" (write_all writes new_memory_store).session_chains)
    × (map id_of_run (list_chain_runs "sess_1" (write_all writes new_memory_store))
        ≡ listed "sess_1" (write_all writes new_memory_store).chain_runs)
list_session_chains-ids_example =
    list_session_chains-ids (write_all writes new_memory_store) "sess_1"
      write_all-Consistent_example

abbrev stored : MemoryStore
stored = save_chain 3 chain hello new_memory_store

get_chain-save_chain_example : get_chain "chain_1" stored ≡ some (chain, hello)
get_chain-save_chain_example = get_chain-save_chain 3 chain hello new_memory_store "chain_1"

get_chain-append_chain_messages_example :
    (s' : MemoryStore) × (append_chain_messages 4 "chain_1" "run_1" hello stored ≡ some s')
    × (get_chain "chain_1" s' ≡ some (record chain { message_count_cached = 2 }, hello ++ hello))
get_chain-append_chain_messages_example =
    get_chain-append_chain_messages 4 "chain_1" "run_1" hello stored chain hello "chain_1"
      get_chain-save_chain_example

abbrev scope : IdempotencyScope
scope = record {
  org_id = "org";
  principal_id = "p";
  chain_id = "chain_1";
  operation = "run.start";
  idempotency_key = "key";
}

abbrev saved : IdempotencyRecord
saved = record {
  id = "idem_1";
  scope = scope;
  request_hash = "hash";
  result_ref = null;
  created_at = 3;
  expires_at = 0;
}

get_idempotency-save_idempotency_example :
    get_idempotency 9 scope (save_idempotency saved new_memory_store) ≡ some saved
unfolding idempotency_map_key is_expired
get_idempotency-save_idempotency_example =
    get_idempotency-save_idempotency 9 scope saved new_memory_store
