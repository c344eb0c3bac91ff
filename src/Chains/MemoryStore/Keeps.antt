-- ===== src/Chains/MemoryStore/Keeps.antt =====
-- The writes to sessions and chains keep the store consistent.
use vai_gateway.Prelude.{
  ℕ, ◌+◌, ◌≡◌, refl, subst, String, Bool, true, false, ◌&&◌, not, inl, inr, Option, none, some,
  List, ◌++◌, length, Bool-cases, Option-cases, ◌==◌, texts_comparable, arith, if◌then◌else◌,
}
use vai_gateway.Prelude.Assoc.{Assoc, lookup, insert}
use vai_gateway.Types.{Message}
use vai_gateway.Chains.Model.{ChainRecord}
use vai_gateway.Chains.MemoryStore.{
  listed, contains, touch_session, link_chain, session_external_key, upsert_session, save_chain,
  update_chain, append_chain_messages, append_to,
}
use vai_gateway.Chains.MemoryStore.Records.{SessionRecord, MemoryStore}
use vai_gateway.Chains.MemoryStore.Messages.{build_chain_message_records}
use vai_gateway.Chains.MemoryStore.Invariant.{
  Describes, length-Describes, build_records-Describes, Describes-append, Described-insert, Known,
  Known-insert, Known-insert_self, Named, Named-mono, Named-add, Pointed, Pointed-mono,
  Pointed-insert, Keyed-insert, id_of_chain, Consistent,
}

build_chain_message_records-Describes :
    (now : ℕ) (id run_id : String) (ms : List Message) (offset at : ℕ)
    → Describes id offset ms (build_chain_message_records now id run_id ms offset at)
unfolding build_chain_message_records
build_chain_message_records-Describes now id run_id ms offset at =
    build_records-Describes id run_id ms offset _

touch_session-Known :
    (c : ChainRecord) (m : Assoc SessionRecord) (id : String)
    → Known m id
    → Known (touch_session c m) id
unfolding touch_session
touch_session-Known c m id known = elim (Option-cases (lookup c.session_id m)) [
  | inl missing ↦ rw (missing, touch_session) known
  | inr (r, found) ↦ rw (found, touch_session) (Known-insert m c.session_id id _ known)
]

link_chain-Named :
    (c : ChainRecord) (names : Assoc (List String)) (m : Assoc ChainRecord)
    → Known m c.id
    → Named names m
    → Named (link_chain c names) m
unfolding link_chain
link_chain-Named c names m known named =
    elim (Bool-cases (contains (listed c.session_id names) c.id)) [
      | inl there ↦ rw (there, link_chain) named
      | inr new ↦ rw (new, link_chain) (Named-add c.session_id c.id names m known named)
    ]

pub upsert_session-Consistent :
    (r : SessionRecord) (s : MemoryStore) → Consistent s → Consistent (upsert_session r s)
unfolding upsert_session
upsert_session-Consistent r s h = record {
  described = h.described;
  linked = h.linked;
  started = h.started;
  external = external (not (r.external_session_id == "") && not (r.org_id == ""));
  chains = h.chains;
  runs = h.runs;
}
  where
    kept : Pointed s.session_by_external (insert r.id r s.sessions)
    kept =
        Pointed-mono s.session_by_external s.sessions _ (λ id. Known-insert s.sessions r.id id r)
          h.external

    external :
        (b : Bool)
        → Pointed
            (if b
              then insert
                  (session_external_key r.org_id r.external_session_id)
                  r.id
                  s.session_by_external
              else s.session_by_external)
            (insert r.id r s.sessions)
    external true = Pointed-insert _ r.id _ _ (Known-insert_self s.sessions r.id r) kept
    external false = kept

pub save_chain-Consistent :
    (now : ℕ) (c : ChainRecord) (ms : List Message) (s : MemoryStore)
    → Consistent s
    → Consistent (save_chain now c ms s)
unfolding save_chain
save_chain-Consistent now c ms s h = record {
  described =
      Described-insert c.id ms _ s.chain_history s.chain_messages
        (build_chain_message_records-Describes now c.id "" ms 0 c.created_at) h.described;
  linked = linked (c.session_id == "");
  started = h.started;
  external = external (c.session_id == "");
  chains = Keyed-insert id_of_chain c.id c s.chains refl h.chains;
  runs = h.runs;
}
  where
    kept : Named s.session_chains (insert c.id c s.chains)
    kept = Named-mono s.session_chains s.chains _ (λ id. Known-insert s.chains c.id id c) h.linked

    linked :
        (b : Bool)
        → Named
            (if b then s.session_chains else link_chain c s.session_chains)
            (insert c.id c s.chains)
    linked true = kept
    linked false = link_chain-Named c s.session_chains _ (Known-insert_self s.chains c.id c) kept

    external :
        (b : Bool)
        → Pointed s.session_by_external (if b then s.sessions else touch_session c s.sessions)
    external true = h.external
    external false =
        Pointed-mono s.session_by_external s.sessions _ (touch_session-Known c s.sessions)
          h.external

-- What a write that may fail leaves is consistent.
abbrev pub Kept : Option MemoryStore → Type 0
Kept r = (s' : MemoryStore) → r ≡ some s' → Consistent s'

pub Kept-some : (s : MemoryStore) → Consistent s → Kept (some s)
Kept-some s h s' same = let there : s ≡ s' = cc in subst Consistent there h

pub Kept-none : Kept none
Kept-none s' same = cc

pub update_chain-Kept : (c : ChainRecord) (s : MemoryStore) → Consistent s → Kept (update_chain c s)
unfolding update_chain
update_chain-Kept c s h = elim (Option-cases (lookup c.id s.chains)) [
  | inl missing ↦ rw (missing, update_chain) Kept-none
  | inr (old, found) ↦
      rw (found, update_chain)
        (Kept-some _ (record {
          described = h.described;
          linked =
              Named-mono s.session_chains s.chains _ (λ id. Known-insert s.chains c.id id c)
                h.linked;
          started = h.started;
          external = external (c.session_id == "");
          chains = Keyed-insert id_of_chain c.id c s.chains refl h.chains;
          runs = h.runs;
        }))
]
  where
    external :
        (b : Bool)
        → Pointed s.session_by_external (if b then s.sessions else touch_session c s.sessions)
    external true = h.external
    external false =
        Pointed-mono s.session_by_external s.sessions _ (touch_session-Known c s.sessions)
          h.external

pub append_chain_messages-Kept :
    (now : ℕ) (id run_id : String) (ms : List Message) (s : MemoryStore)
    → Consistent s
    → Kept (append_chain_messages now id run_id ms s)
unfolding append_chain_messages append_to
append_chain_messages-Kept now id run_id ms s h = elim (Option-cases (lookup id s.chains)) [
  | inl missing ↦ rw (missing, append_chain_messages) Kept-none
  | inr (c, found) ↦
      let before = h.described id in
      let old = listed id s.chain_messages in
      let counted : length old ≡ 0 + length (listed id s.chain_history) =
        omega (arith, length-Describes id 0 _ _ before) in
      let added = build_chain_message_records now id run_id ms (length old) now in
      rw (found, append_chain_messages)
        (Kept-some _ (record {
          described =
              Described-insert id _ (old ++ added) s.chain_history s.chain_messages
                (Describes-append id 0 _ ms old added before (
                  subst (λ n. Describes id n ms added) counted
                    (build_chain_message_records-Describes now id run_id ms (length old) now)))
                h.described;
          linked =
              Named-mono s.session_chains s.chains _ (λ j. Known-insert s.chains id j _) h.linked;
          started = h.started;
          external = h.external;
          chains = Keyed-insert id_of_chain id _ s.chains (h.chains id c found) h.chains;
          runs = h.runs;
        }))
]
