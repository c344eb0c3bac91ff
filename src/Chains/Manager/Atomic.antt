-- ===== src/Chains/Manager/Atomic.antt =====
-- executor.go: a start of a run that fails, at whatever point, is undone.
use vai_gateway.Prelude.{
  ◌+◌, ◌≡◌, refl, sym, ap, ◌∙◌, String, true, ◌⊎◌, inl, inr, Option, none, some, List, ◌++◌, ◌==◌,
  length, texts_comparable, Bool-cases, Option-cases, arith, eq_refl, eq_iff,
}
use vai_gateway.Prelude.Text.{is_blank}
use vai_gateway.Types.{Message}
use vai_gateway.Chains.Model.{running, run_running, ChainError, ChainDefaults, ActiveRun, HotChain}
use vai_gateway.Chains.MemoryStore.Records.{ChainRunRecord}
use vai_gateway.Chains.Access.{Outcome, done, denied, authorize_chain_mutation}
use vai_gateway.Chains.Manager.{Environment}
use vai_gateway.Chains.Manager.Calls.{StoreLog, call_all}
use vai_gateway.Chains.Manager.Start.{
  RunStart, FreshRun, Begun, begun, entered, is_active, rolled_back, rollback,
}
use vai_gateway.Chains.Manager.Launch.{
  start_calls, stored, store_run, Recalled, start_anew, start_recalled, start_run,
}
use vai_gateway.Chains.Manager.Runs.{Kept, Enters, begin_run-Enters}

-- The run that a start has entered, in what the chain was.
abbrev pub Starts : RunStart → FreshRun → HotChain → ChainRunRecord → HotChain → Type 0
Starts start fresh c run c' =
    (c.active_run ≡ none)
    × ((r : ActiveRun) × (c'.active_run ≡ some r) × (r.run_id ≡ run.id))
    × (run.id ≡ fresh.run_id)
    × (run.status ≡ run_running)
    × (c'.history ≡ c.history ++ start.input)
    × (c'.info.status ≡ running)
    × (c'.info.chain_version ≡ c.info.chain_version + 1)
    × (c'.info.message_count_cached ≡ length c'.history)

-- What a start that is refused, or has failed, leaves: all but the writer; and what one that is
-- granted does: the run of the earlier request with the same key, or a new one.
unfoldable pub Started :
    RunStart → FreshRun → Option Recalled → HotChain → Outcome ChainRunRecord → HotChain → Type 0
Started start fresh recalled c (denied e) c' = Kept c c'
Started start fresh recalled c (done run) c' =
    ((c' ≡ c) × (recalled ≡ some (record { request_hash = start.request_hash; run = some run })))
    ⊎ Starts start fresh c run c'

own_run : (r : ActiveRun) → is_active r.run_id (some r) ≡ true
unfolding is_active
own_run r = ground (arith, eq_refl r.run_id)

undone :
    (start : RunStart) (fresh : FreshRun) (c held : HotChain) (id : String)
    (effective : ChainDefaults) (b : Begun)
    → Kept c held
    → held.active_run ≡ none
    → b ≡ begun start fresh id effective held
    → Kept c (rolled_back b (entered fresh b held))
unfolding rolled_back
undone start fresh c held id effective b kept free entry = (
  ap (λ x. x.previous_history) entry ∙ kept.0,
  rw (own_run b.active) (sym free ∙ kept.1),
  kept.2,
  rw entry kept.3,
)

module _ (to_lower : String → String)
    (validate_capability : String → List Message → ChainDefaults → Option ChainError) where
  starts :
      (start : RunStart) (fresh : FreshRun) (c held c' : HotChain) (id : String)
      (effective : ChainDefaults) (b : Begun)
      → Kept c held
      → held.active_run ≡ none
      → b ≡ begun start fresh id effective held
      → c' ≡ entered fresh b held
      → Starts start fresh c b.run c'
  starts start fresh c held c' id effective b kept free entry after =
      rw (after, entry)
        (
          sym kept.1 ∙ free,
          ((begun start fresh id effective held).active, refl, refl),
          refl,
          refl,
          ap (λ x. x ++ start.input) kept.0,
          refl,
          ap (λ x. x.chain_version + 1) kept.3,
          refl,
        )

  stored-Started :
      (start : RunStart) (fresh : FreshRun) (recalled : Option Recalled) (c c' : HotChain)
      (b : Begun) (r : Option ChainError × StoreLog)
      → Enters to_lower validate_capability start fresh c (done b) c'
      → Started start fresh recalled c (stored b c' r).0 (stored b c' r).1
  unfolding Enters Started stored rollback
  stored-Started start fresh recalled c c' b (none, log) (held, id, kept, free, entry, after) =
      inr (starts start fresh c held c' id _ b kept free entry after)
  stored-Started start fresh recalled c c' b (some e, log) (held, id, kept, free, entry, after) =
      rw after (undone start fresh c held id _ b kept free entry)

  store_run-Started :
      (env : Environment) (start : RunStart) (fresh : FreshRun) (recalled : Option Recalled)
      (c c' : HotChain) (o : Outcome Begun) (log : StoreLog)
      → Enters to_lower validate_capability start fresh c o c'
      → Started start fresh recalled c
          (store_run env start fresh (o, c') log).0
          (store_run env start fresh (o, c') log).1
  unfolding Enters Started store_run
  store_run-Started env start fresh recalled c c' (denied e) log kept = kept
  store_run-Started env start fresh recalled c c' (done b) log enters =
      stored-Started start fresh recalled c c' b (call_all (start_calls env start fresh b c') log)
        enters

  start_anew-Started :
      (env : Environment) (start : RunStart) (fresh : FreshRun) (recalled : Option Recalled)
      (c : HotChain) (log : StoreLog)
      → Started start fresh recalled c
          (start_anew to_lower validate_capability env start fresh c log).0
          (start_anew to_lower validate_capability env start fresh c log).1
  unfolding start_anew
  start_anew-Started env start fresh recalled c log =
      store_run-Started env start fresh recalled c _ _ log
        (begin_run-Enters to_lower validate_capability env start fresh c)

  Kept-self : (c : HotChain) → Kept c c
  Kept-self c = (refl, refl, refl, refl)

  recalled_run :
      (r : Recalled) (hash : String) (run : ChainRunRecord)
      → r.request_hash ≡ hash
      → r.run ≡ some run
      → some r ≡ some (record { request_hash = hash; run = some run })
  recalled_run r hash run e f = cc (e, f)

  start_recalled-Started :
      (env : Environment) (start : RunStart) (fresh : FreshRun) (c : HotChain) (log : StoreLog)
      (recalled : Option Recalled)
      → Started start fresh recalled c
          (start_recalled to_lower validate_capability env start fresh c log recalled).0
          (start_recalled to_lower validate_capability env start fresh c log recalled).1
  unfolding start_recalled Started
  start_recalled-Started env start fresh c log none = start_anew-Started env start fresh none c log
  start_recalled-Started env start fresh c log (some r) =
      elim (Bool-cases (r.request_hash == start.request_hash)) [
        | inl same ↦ elim (Option-cases r.run) [
          | inl gone ↦
              rw (same, gone, start_recalled)
                (start_anew-Started env start fresh
                  (some (record { request_hash = r.request_hash; run = none })) c log)
          | inr (run, found) ↦
              rw (same, found, start_recalled, Started)
                (inl (
                  refl,
                  recalled_run r start.request_hash run
                      ((eq_iff r.request_hash start.request_hash).0 same) found,
                ))
        ]
        | inr other ↦ rw (other, start_recalled, Started) (Kept-self c)
      ]

  -- Whatever the store answers, a start of a run that is refused or fails leaves the history, the
  -- active run, the event ids and the record of the chain as they were, but for the attachment
  -- that the record names; and one that is granted gives the run of an earlier request with the
  -- same key and hash and changes nothing, or enters one new run, in a chain that had none, with
  -- its input at the end of the history.
  pub start_run-Started :
      (env : Environment) (start : RunStart) (fresh : FreshRun) (recalled : Option Recalled)
      (c : HotChain) (log : StoreLog)
      → Started start fresh recalled c
          (start_run to_lower validate_capability env start fresh recalled c log).0
          (start_run to_lower validate_capability env start fresh recalled c log).1
  unfolding start_run Started
  start_run-Started env start fresh recalled c log =
      elim (Bool-cases (is_blank start.idempotency_key)) [
        | inl blank ↦ rw (blank, start_run, Started) (Kept-self c)
        | inr keyed ↦ elim (Option-cases (authorize_chain_mutation c env.principal)) [
          | inl fine ↦
              rw (keyed, fine, start_run) (start_recalled-Started env start fresh c log recalled)
          | inr (e, refused) ↦ rw (keyed, refused, start_run, Started) (Kept-self c)
        ]
      ]
