-- ===== src/Chains/Manager/Runs.antt =====
-- What the locked sections of the manager and the executor do to the active run of a chain.
use vai_gateway.Prelude.{
  ℕ, ◌≡◌, refl, sym, ap, ◌∙◌, String, true, false, not, ◌⊎◌, inl, inr, Option, none, some, List,
  ◌++◌, ◌==◌, ◌&&◌, texts_comparable, Bool-cases, Option-cases,
}
use vai_gateway.Types.{Message}
use vai_gateway.Chains.Model.{
  closed, expired, ChainError, ChainDefaults, ServerEvent, ReplayStatus, WriterLease, ActiveRun,
  HotChain,
}
use vai_gateway.Chains.Defaults.{merge_defaults}
use vai_gateway.Chains.Replay.{Replayed, unavailable, replayed}
use vai_gateway.Chains.Access.{Outcome, done, denied}
use vai_gateway.Chains.Manager.{
  Environment, is_status, hold, is_held, AttachFrame, Fresh, attached, recorded, record_attachment,
  after_replay, attach_actor, attach_chain, detach, detach_writer, detached, acquire,
}
use vai_gateway.Chains.Manager.Calls.{StoreLog}
use vai_gateway.Chains.Manager.Start.{
  RunStart, FreshRun, Begun, begun, lease_of, entered, is_running, refusal, enter, begin_run,
  is_active, rolled_back,
}
use vai_gateway.Chains.Manager.Finish.{ended, end_run, commit_history}
use vai_gateway.Chains.Manager.Update.{ChainUpdate, FreshUpdate, numbered, patch_held, patch_chain}
use vai_gateway.Chains.Manager.Leases.{acquire-done}
use vai_gateway.Chains.Manager.Writer.{
  Action, attach_action, detach_action, begin_action, rollback_action, end_action, commit_action,
  patch_action, act,
}

-- All but the writer and what is said of it in the record.
abbrev pub Kept : HotChain → HotChain → Type 0
Kept c c' =
    (c'.history ≡ c.history)
    × (c'.active_run ≡ c.active_run)
    × (c'.next_event_id ≡ c.next_event_id)
    × (c'.info ≡ record c.info { active_attachment = c'.info.active_attachment })

Kept-same : (c c' : HotChain) → c' ≡ c → Kept c c'
Kept-same c c' e =
    (ap (λ x. x.history) e, ap (λ x. x.active_run) e, ap (λ x. x.next_event_id) e, rw e refl)

Kept-hold :
    (env : Environment) (id : String) (now : ℕ) (c c' : HotChain)
    → c' ≡ hold env id "" now c
    → Kept c c'
unfolding hold
Kept-hold env id now c c' e =
    (ap (λ x. x.history) e, ap (λ x. x.active_run) e, ap (λ x. x.next_event_id) e, rw e refl)

pub acquire-Kept :
    (env : Environment) (id : String) (now : ℕ) (c held : HotChain)
    → acquire env id now c ≡ done held
    → Kept c held
acquire-Kept env id now c held e = elim (acquire-done env id now c held e) [
  | inl same ↦ Kept-same c held same
  | inr (same, free, request) ↦ Kept-hold env id now c held same
]

module _ (to_lower : String → String)
    (validate_capability : String → List Message → ChainDefaults → Option ChainError) where
  -- A refused entry leaves all but the writer; a run is entered in a chain that has none.
  unfoldable pub Enters : RunStart → FreshRun → HotChain → Outcome Begun → HotChain → Type 0
  Enters start fresh c (denied e) c' = Kept c c'
  Enters start fresh c (done b) c' =
      (held : HotChain) × (id : String) × Kept c held
      × (held.active_run ≡ none)
      × (b ≡ begun start fresh id (merge_defaults held.info.defaults start.overrides) held)
      × (c' ≡ entered fresh b held)

  not_running : (r : Option ActiveRun) → is_running r ≡ false → r ≡ none
  unfolding is_running
  not_running none e = refl
  not_running (some r) e = cc e

  refusal-none :
      (env : Environment) (effective : ChainDefaults) (history : List Message) (c : HotChain)
      → refusal to_lower validate_capability env effective history c ≡ none
      → c.active_run ≡ none
  unfolding refusal
  refusal-none env effective history c e = elim (Bool-cases (is_running c.active_run)) [
    | inl on ↦ cc (rw (on, refusal) at e)
    | inr off ↦ not_running c.active_run off
  ]

  enter-Enters :
      (env : Environment) (start : RunStart) (fresh : FreshRun) (c : HotChain)
      (r : Outcome HotChain)
      → r ≡ acquire env fresh.attachment_id fresh.now c
      → Enters start fresh c
          (enter to_lower validate_capability env start fresh c r).0
          (enter to_lower validate_capability env start fresh c r).1
  unfolding enter Enters
  enter-Enters env start fresh c (denied e) same = Kept-same c c refl
  enter-Enters env start fresh c (done held) same =
      let effective = merge_defaults held.info.defaults start.overrides in
      let kept : Kept c held = acquire-Kept env fresh.attachment_id fresh.now c held (sym same) in
      elim (Option-cases
        (refusal to_lower validate_capability env effective (held.history ++ start.input) held)) [
          | inl fine ↦
              rw (fine, enter, Enters)
                (
                  held,
                  lease_of env fresh,
                  kept,
                  refusal-none env effective (held.history ++ start.input) held fine,
                  refl,
                  refl,
                )
          | inr (e, refused) ↦ rw (refused, enter, Enters) kept
        ]

  pub begin_run-Enters :
      (env : Environment) (start : RunStart) (fresh : FreshRun) (c : HotChain)
      → Enters start fresh c
          (begin_run to_lower validate_capability env start fresh c).0
          (begin_run to_lower validate_capability env start fresh c).1
  unfolding begin_run Enters
  begin_run-Enters env start fresh c = elim (Bool-cases (is_status c.info.status closed)) [
    | inl over ↦ rw (over, begin_run) (Kept-same c c refl)
    | inr on ↦
        rw (on, begin_run)
          (enter-Enters env start fresh c (acquire env fresh.attachment_id fresh.now c) refl)
  ]

rolled_back-active_run :
    (b : Begun) (c : HotChain)
    → ((rolled_back b c).active_run ≡ c.active_run)
      ⊎ (((rolled_back b c).active_run ≡ none) × (is_active b.active.run_id c.active_run ≡ true))
unfolding rolled_back
rolled_back-active_run b c = elim (Bool-cases (is_active b.active.run_id c.active_run)) [
  | inl own ↦ rw (own, rolled_back) (inr (refl, refl))
  | inr other ↦ rw (other, rolled_back) (inl refl)
]

end_run-active_run :
    (r : ActiveRun) (now : ℕ) (c : HotChain) (log : StoreLog)
    → ((end_run r now c log).0.active_run ≡ c.active_run)
      ⊎ (((end_run r now c log).0.active_run ≡ none) × (is_active r.run_id c.active_run ≡ true))
unfolding end_run ended
end_run-active_run r now c log = elim (Bool-cases (is_active r.run_id c.active_run)) [
  | inl own ↦ rw (own, end_run) (inr (refl, refl))
  | inr other ↦ rw (other, end_run) (inl refl)
]

detach_writer-active_run :
    (id reason : String) (now : ℕ) (c : HotChain) (log : StoreLog) (w : Option WriterLease)
    → (detach_writer id reason now c log w).0.active_run ≡ c.active_run
unfolding detach_writer detached
detach_writer-active_run id reason now c log none = refl
detach_writer-active_run id reason now c log (some w) =
    elim (Bool-cases (not (id == "") && not (w.id == id))) [
      | inl other ↦ rw (other, detach_writer) refl
      | inr named ↦ rw (named, detach_writer) refl
    ]

numbered-active_run :
    (c : HotChain) (r : Option ChainError × StoreLog) → (numbered c r).1.active_run ≡ c.active_run
unfolding numbered
numbered-active_run c (some e, log) = refl
numbered-active_run c (none, log) = refl

patch_held-active_run :
    (env : Environment) (update : ChainUpdate) (fresh : FreshUpdate) (c : HotChain) (log : StoreLog)
    (r : Outcome HotChain)
    → r ≡ acquire env fresh.attachment_id fresh.now c
    → (patch_held update fresh c log r).1.active_run ≡ c.active_run
unfolding patch_held
patch_held-active_run env update fresh c log (denied e) same = refl
patch_held-active_run env update fresh c log (done held) same =
    rw numbered-active_run (acquire-Kept env fresh.attachment_id fresh.now c held (sym same)).1

module _ (hash_token : String → String) (unmarshal : List ℕ → Option ServerEvent) where
  recorded-active_run :
      (fresh : Fresh) (actor : String) (status : ReplayStatus) (events : List ServerEvent)
      (c : HotChain) (r : Option ChainError × StoreLog)
      → (recorded hash_token unmarshal fresh actor status events c r).1.active_run ≡ c.active_run
  unfolding recorded attached
  recorded-active_run fresh actor status events c (some e, log) = refl
  recorded-active_run fresh actor status events c (none, log) = refl

  after_replay-active_run :
      (env : Environment) (fresh : Fresh) (actor : String) (r : Replayed) (c : HotChain)
      (log : StoreLog)
      → (after_replay hash_token unmarshal env fresh actor r c log).1.active_run ≡ c.active_run
  unfolding after_replay record_attachment hold
  after_replay-active_run env fresh actor (unavailable e) c log = refl
  after_replay-active_run env fresh actor (replayed status events) c log =
      recorded-active_run fresh actor status events _ _

  attach_actor-active_run :
      (env : Environment) (frame : AttachFrame) (fresh : Fresh) (c : HotChain) (log : StoreLog)
      (r : Outcome String)
      → (attach_actor hash_token unmarshal env frame fresh c log r).1.active_run ≡ c.active_run
  unfolding attach_actor
  attach_actor-active_run env frame fresh c log (denied e) = refl
  attach_actor-active_run env frame fresh c log (done actor) =
      elim (Bool-cases (is_status c.info.status expired)) [
        | inl old ↦ rw (old, attach_actor) refl
        | inr live ↦ elim (Bool-cases (is_held c.writer && not frame.takeover)) [
          | inl taken ↦ rw (live, taken, attach_actor) refl
          | inr free ↦ rw (live, free, attach_actor) (after_replay-active_run env fresh actor _ c _)
        ]
      ]

-- The runs that an action may put in the place of the chain's active one.
unfoldable pub ReplacesRun : Action → HotChain → Option ActiveRun → Type 0
ReplacesRun (begin_action env start fresh) c after =
    (c.active_run ≡ none) × ((r : ActiveRun) × (after ≡ some r) × (r.run_id ≡ fresh.run_id))
ReplacesRun (rollback_action b) c after =
    (after ≡ none) × (is_active b.active.run_id c.active_run ≡ true)
ReplacesRun (end_action r now log) c after =
    (after ≡ none) × (is_active r.run_id c.active_run ≡ true)
ReplacesRun _ c after = ⊥

module _ (hash_token : String → String) (unmarshal : List ℕ → Option ServerEvent)
    (to_lower : String → String)
    (validate_capability : String → List Message → ChainDefaults → Option ChainError) where
  begun-active_run :
      (env : Environment) (start : RunStart) (fresh : FreshRun) (c c' : HotChain)
      (o : Outcome Begun)
      → Enters to_lower validate_capability start fresh c o c'
      → (c'.active_run ≡ c.active_run) ⊎ ReplacesRun (begin_action env start fresh) c c'.active_run
  unfolding Enters ReplacesRun
  begun-active_run env start fresh c c' (denied e) kept = inl kept.1
  begun-active_run env start fresh c c' (done b) (held, id, kept, free, entry, after) =
      inr (
        sym kept.1 ∙ free,
        (b.active, ap (λ x. x.active_run) after, ap (λ x. x.active.run_id) entry),
      )

  -- A chain has at most one active run: an action leaves it as it is, enters a new one in a chain
  -- that has none, or, at the end of this run or its rollback, takes it away.
  pub act-active_run :
      (a : Action) (c : HotChain)
      → ((act hash_token unmarshal to_lower validate_capability a c).active_run ≡ c.active_run)
        ⊎ ReplacesRun a c (act hash_token unmarshal to_lower validate_capability a c).active_run
  unfolding act attach_chain detach commit_history patch_chain ReplacesRun
  act-active_run (attach_action env frame fresh log) c =
      inl (attach_actor-active_run hash_token unmarshal env frame fresh c log _)
  act-active_run (detach_action id reason now log) c =
      inl (detach_writer-active_run id reason now c log c.writer)
  act-active_run (begin_action env start fresh) c =
      begun-active_run env start fresh c _ _
        (begin_run-Enters to_lower validate_capability env start fresh c)
  act-active_run (rollback_action b) c = rolled_back-active_run b c
  act-active_run (end_action r now log) c = end_run-active_run r now c log
  act-active_run (commit_action run_id status messages now log) c = inl refl
  act-active_run (patch_action env update fresh log) c = inl (
      patch_held-active_run env update fresh c log (acquire env fresh.attachment_id fresh.now c)
        refl)
