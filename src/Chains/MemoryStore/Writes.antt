-- ===== src/Chains/MemoryStore/Writes.antt =====
-- Every sequence of writes keeps the store consistent.
use vai_gateway.Prelude.{
  ℕ, refl, String, inl, inr, Option, none, some, List, [], ◌∷◌, Option-cases, texts_comparable,
}
use vai_gateway.Prelude.Assoc.{Assoc, lookup}
use vai_gateway.Types.{Json, Message}
use vai_gateway.Chains.Model.{ChainRecord}
use vai_gateway.Chains.MemoryStore.{
  listed, contains, upsert_session, save_chain, update_chain, append_chain_messages,
  set_chain_resume_token_hash, create_run, update_run, append_run_items, save_effective_request,
  save_attachment, close_attachment, save_idempotency,
}
use vai_gateway.Chains.MemoryStore.Records.{
  SessionRecord, ChainRunRecord, EffectiveRequest, AttachmentRecord, IdempotencyRecord, MemoryStore,
  new_memory_store,
}
use vai_gateway.Chains.MemoryStore.Invariant.{
  Known-insert, Known-insert_self, Named-mono, Named-add, Keyed-insert, id_of_run, Consistent,
}
use vai_gateway.Chains.MemoryStore.Keeps.{
  upsert_session-Consistent, save_chain-Consistent, Kept, Kept-some, Kept-none, update_chain-Kept,
  append_chain_messages-Kept,
}

-- A call of the store that writes, and the time at which it is made.
pub data Write : Type 0 where
  upsert_session_write : SessionRecord → Write
  save_chain_write : ℕ → ChainRecord → List Message → Write
  update_chain_write : ChainRecord → Write
  append_write : ℕ → (chain_id run_id : String) → List Message → Write
  resume_write : (chain_id hash : String) → Write
  create_run_write update_run_write : ChainRunRecord → Write
  items_write : String → List Json → Write
  request_write : EffectiveRequest → Write
  attachment_write : AttachmentRecord → Write
  close_write : (id reason : String) → ℕ → Write
  idempotency_write : IdempotencyRecord → Write

-- `none` is ErrNotFound.
unfoldable pub write : Write → MemoryStore → Option MemoryStore
write (upsert_session_write r) s = some (upsert_session r s)
write (save_chain_write now c h) s = some (save_chain now c h s)
write (update_chain_write c) s = update_chain c s
write (append_write now c r ms) s = append_chain_messages now c r ms s
write (resume_write c hash) s = set_chain_resume_token_hash c hash s
write (create_run_write r) s = some (create_run r s)
write (update_run_write r) s = update_run r s
write (items_write r items) s = append_run_items r items s
write (request_write r) s = some (save_effective_request r s)
write (attachment_write a) s = some (save_attachment a s)
write (close_write id reason at) s = close_attachment id reason at s
write (idempotency_write r) s = some (save_idempotency r s)

-- A write that fails leaves the store.
unfoldable pub write_all : List Write → MemoryStore → MemoryStore
write_all [] s = s
write_all (w ∷ ws) s = elim (write w s) [ none ↦ write_all ws s | some s' ↦ write_all ws s' ]

-- The maps that stand alone may be anything.
Consistent-alone :
    (s : MemoryStore) (resume : Assoc String) (items : Assoc (List Json))
    (requests : Assoc EffectiveRequest) (attachments : Assoc AttachmentRecord)
    (idempotency : Assoc IdempotencyRecord)
    → Consistent s
    → Consistent (record s {
      chain_resume = resume;
      run_items = items;
      effective_request = requests;
      attachments = attachments;
      idempotency = idempotency;
    })
Consistent-alone s resume items requests attachments idempotency h = record {
  described = h.described;
  linked = h.linked;
  started = h.started;
  external = h.external;
  chains = h.chains;
  runs = h.runs;
}

set_chain_resume_token_hash-Kept :
    (id hash : String) (s : MemoryStore)
    → Consistent s
    → Kept (set_chain_resume_token_hash id hash s)
unfolding set_chain_resume_token_hash
set_chain_resume_token_hash-Kept id hash s h = elim (Option-cases (lookup id s.chains)) [
  | inl missing ↦ rw (missing, set_chain_resume_token_hash) Kept-none
  | inr (c, found) ↦
      rw (found, set_chain_resume_token_hash) (Kept-some _ (Consistent-alone s _ _ _ _ _ h))
]

append_run_items-Kept :
    (id : String) (items : List Json) (s : MemoryStore)
    → Consistent s
    → Kept (append_run_items id items s)
unfolding append_run_items
append_run_items-Kept id items s h = elim (Option-cases (lookup id s.runs)) [
  | inl missing ↦ rw (missing, append_run_items) Kept-none
  | inr (r, found) ↦ rw (found, append_run_items) (Kept-some _ (Consistent-alone s _ _ _ _ _ h))
]

close_attachment-Kept :
    (id reason : String) (at : ℕ) (s : MemoryStore)
    → Consistent s
    → Kept (close_attachment id reason at s)
unfolding close_attachment
close_attachment-Kept id reason at s h = elim (Option-cases (lookup id s.attachments)) [
  | inl missing ↦ rw (missing, close_attachment) Kept-none
  | inr (r, found) ↦ rw (found, close_attachment) (Kept-some _ (Consistent-alone s _ _ _ _ _ h))
]

create_run-Consistent :
    (r : ChainRunRecord) (s : MemoryStore) → Consistent s → Consistent (create_run r s)
unfolding create_run
create_run-Consistent r s h = record {
  described = h.described;
  linked = h.linked;
  started =
      Named-add r.chain_id r.id s.chain_runs _ (Known-insert_self s.runs r.id r)
        (Named-mono s.chain_runs s.runs _ (λ id. Known-insert s.runs r.id id r) h.started);
  external = h.external;
  chains = h.chains;
  runs = Keyed-insert id_of_run r.id r s.runs refl h.runs;
}

update_run-Kept : (r : ChainRunRecord) (s : MemoryStore) → Consistent s → Kept (update_run r s)
unfolding update_run
update_run-Kept r s h = elim (Option-cases (lookup r.id s.runs)) [
  | inl missing ↦ rw (missing, update_run) Kept-none
  | inr (old, found) ↦
      rw (found, update_run)
        (Kept-some _ (record {
          described = h.described;
          linked = h.linked;
          started =
              Named-mono s.chain_runs s.runs _ (λ id. Known-insert s.runs r.id id r) h.started;
          external = h.external;
          chains = h.chains;
          runs = Keyed-insert id_of_run r.id r s.runs refl h.runs;
        }))
]

write-Kept : (w : Write) (s : MemoryStore) → Consistent s → Kept (write w s)
unfolding write save_effective_request save_attachment save_idempotency
write-Kept (upsert_session_write r) s h = Kept-some _ (upsert_session-Consistent r s h)
write-Kept (save_chain_write now c ms) s h = Kept-some _ (save_chain-Consistent now c ms s h)
write-Kept (update_chain_write c) s h = update_chain-Kept c s h
write-Kept (append_write now c r ms) s h = append_chain_messages-Kept now c r ms s h
write-Kept (resume_write c hash) s h = set_chain_resume_token_hash-Kept c hash s h
write-Kept (create_run_write r) s h = Kept-some _ (create_run-Consistent r s h)
write-Kept (update_run_write r) s h = update_run-Kept r s h
write-Kept (items_write r items) s h = append_run_items-Kept r items s h
write-Kept (request_write r) s h = Kept-some _ (Consistent-alone s _ _ _ _ _ h)
write-Kept (attachment_write a) s h = Kept-some _ (Consistent-alone s _ _ _ _ _ h)
write-Kept (close_write id reason at) s h = close_attachment-Kept id reason at s h
write-Kept (idempotency_write r) s h = Kept-some _ (Consistent-alone s _ _ _ _ _ h)

write_all-Kept : (ws : List Write) (s : MemoryStore) → Consistent s → Consistent (write_all ws s)
unfolding write_all
write_all-Kept [] s h = h
write_all-Kept (w ∷ ws) s h = elim (Option-cases (write w s)) [
  | inl missing ↦ rw (missing, write_all) (write_all-Kept ws s h)
  | inr (s', done) ↦ rw (done, write_all) (write_all-Kept ws s' (write-Kept w s h s' done))
]

Consistent-new : Consistent new_memory_store
unfolding listed contains lookup
Consistent-new = record {
  described = λ id. tt;
  linked = λ k id there. cc;
  started = λ k id there. cc;
  external = λ k id there. cc;
  chains = λ k a found. cc;
  runs = λ k a found. cc;
}

-- Whatever is written to a new store, also where writes fail, leaves it consistent: the stored
-- messages of a chain are those of its history, numbered from 1 in their order, with ids made of
-- the chain's id and the number; each chain that is listed for a session, each run that is listed
-- for a chain and each session that has an external id is stored; and chains and runs stand under
-- their own ids.
pub write_all-Consistent : (ws : List Write) → Consistent (write_all ws new_memory_store)
write_all-Consistent ws = write_all-Kept ws new_memory_store Consistent-new
