-- ===== src/Chains/Manager/Writer.antt =====
-- The sections of the manager and the executor that run under a chain's lock, as actions on the
-- chain, and what each of them does to its writer.
use vai_gateway.Prelude.{
  ℕ, ◌≡◌, refl, sym, String, Bool, true, false, ◌&&◌, not, ◌⊎◌, inl, inr, Option, none, some, List,
  Bool-cases, arith,
}
use vai_gateway.Types.{Message}
use vai_gateway.Chains.Model.{
  ChainStatus, expired, ChainError, ChainDefaults, ServerEvent, ReplayStatus, WriterLease,
  ActiveRun, HotChain,
}
use vai_gateway.Chains.Replay.{Replayed, unavailable, replayed, replay_after}
use vai_gateway.Chains.Access.{Outcome, done, denied, authorize_attach}
use vai_gateway.Chains.Manager.{
  Environment, is_status, new_lease, hold, is_held, AttachFrame, Fresh, attached, recorded,
  record_attachment, after_replay, attach_actor, attach_chain, detach, close_old, acquire,
}
use vai_gateway.Chains.Manager.Calls.{StoreLog}
use vai_gateway.Chains.Manager.Start.{RunStart, FreshRun, Begun, begin_run, rolled_back}
use vai_gateway.Chains.Manager.Finish.{end_run, commit_history}
use vai_gateway.Chains.Manager.Update.{ChainUpdate, FreshUpdate, patch_chain}
use vai_gateway.Chains.Manager.Leases.{
  Takes, Drops, Leaves, begin_run-writer, rolled_back-writer, end_run-writer, detach_writer-writer,
  patch_held-writer,
}

pub data Action : Type 0 where
  attach_action : Environment → AttachFrame → Fresh → StoreLog → Action
  detach_action : (attachment_id reason : String) → ℕ → StoreLog → Action
  begin_action : Environment → RunStart → FreshRun → Action
  rollback_action : Begun → Action
  end_action : ActiveRun → ℕ → StoreLog → Action
  commit_action : (run_id : String) → ChainStatus → List Message → ℕ → StoreLog → Action
  patch_action : Environment → ChainUpdate → FreshUpdate → StoreLog → Action

module _ (hash_token : String → String) (unmarshal : List ℕ → Option ServerEvent)
    (to_lower : String → String)
    (validate_capability : String → List Message → ChainDefaults → Option ChainError) where
  -- The chain that an action leaves.
  unfoldable pub act : Action → HotChain → HotChain
  act (attach_action env frame fresh log) c =
      (attach_chain hash_token unmarshal env frame fresh c log).1
  act (detach_action id reason now log) c = (detach id reason now c log).0
  act (begin_action env start fresh) c =
      (begin_run to_lower validate_capability env start fresh c).1
  act (rollback_action b) c = rolled_back b c
  act (end_action r now log) c = (end_run r now c log).0
  act (commit_action run_id status messages now log) c =
      (commit_history run_id status messages now c log).0
  act (patch_action env update fresh log) c = (patch_chain env update fresh c log).1

  -- The lease of an attachment, for a principal with the chain's token that displaces no other
  -- writer unless it says so.
  abbrev pub Grants : Environment → AttachFrame → Fresh → HotChain → Option WriterLease → Type 0
  Grants env frame fresh c after =
      (after ≡ some (new_lease env fresh.attachment_id (hash_token fresh.resume_token) fresh.now))
      × ((actor : String) × (authorize_attach hash_token c env.principal frame.resume_token
            ≡ done actor))
      × ((c.writer ≡ none) ⊎ (frame.takeover ≡ true))

  -- The writers that an action may put in the place of the chain's.
  unfoldable pub Replaces : Action → HotChain → Option WriterLease → Type 0
  Replaces (attach_action env frame fresh log) c after = Grants env frame fresh c after
  Replaces (detach_action id reason now log) c after = Leaves id c after
  Replaces (begin_action env start fresh) c after = Takes env fresh.attachment_id fresh.now c after
  Replaces (rollback_action b) c after = Drops b.active.attachment_id c after
  Replaces (end_action r now log) c after = Drops r.attachment_id c after
  Replaces (commit_action run_id status messages now log) c after = ⊥
  Replaces (patch_action env update fresh log) c after =
      Takes env fresh.attachment_id fresh.now c after

  recorded-writer :
      (fresh : Fresh) (actor : String) (status : ReplayStatus) (events : List ServerEvent)
      (c : HotChain) (r : Option ChainError × StoreLog)
      → (recorded hash_token unmarshal fresh actor status events c r).1.writer ≡ c.writer
  unfolding recorded attached
  recorded-writer fresh actor status events c (some e, log) = refl
  recorded-writer fresh actor status events c (none, log) = refl

  record_attachment-writer :
      (env : Environment) (fresh : Fresh) (actor : String) (status : ReplayStatus)
      (events : List ServerEvent) (c : HotChain) (log : StoreLog)
      → (record_attachment hash_token unmarshal env fresh actor status events c log).1.writer
        ≡ some (new_lease env fresh.attachment_id (hash_token fresh.resume_token) fresh.now)
  unfolding record_attachment hold
  record_attachment-writer env fresh actor status events c log =
      recorded-writer fresh actor status events _ _

  after_replay-writer :
      (env : Environment) (fresh : Fresh) (actor : String) (r : Replayed) (c : HotChain)
      (log : StoreLog)
      → ((after_replay hash_token unmarshal env fresh actor r c log).1.writer ≡ c.writer)
        ⊎ ((after_replay hash_token unmarshal env fresh actor r c log).1.writer
            ≡ some (new_lease env fresh.attachment_id (hash_token fresh.resume_token) fresh.now))
  unfolding after_replay
  after_replay-writer env fresh actor (unavailable e) c log = inl refl
  after_replay-writer env fresh actor (replayed status events) c log =
      inr (record_attachment-writer env fresh actor status events c log)

  is_held-not : (w : Option WriterLease) → is_held w ≡ false → w ≡ none
  unfolding is_held
  is_held-not none e = refl
  is_held-not (some w) e = cc e

  free-or :
      (w : Option WriterLease) (takeover : Bool)
      → (is_held w && not takeover) ≡ false
      → (w ≡ none) ⊎ (takeover ≡ true)
  free-or w true e = inr refl
  free-or w false e = inl (is_held-not w (ground (arith, e)))

  attach_actor-writer :
      (env : Environment) (frame : AttachFrame) (fresh : Fresh) (c : HotChain) (log : StoreLog)
      (r : Outcome String)
      → r ≡ authorize_attach hash_token c env.principal frame.resume_token
      → ((attach_actor hash_token unmarshal env frame fresh c log r).1.writer ≡ c.writer)
        ⊎ Grants env frame fresh c
            (attach_actor hash_token unmarshal env frame fresh c log r).1.writer
  unfolding attach_actor
  attach_actor-writer env frame fresh c log (denied e) same = inl refl
  attach_actor-writer env frame fresh c log (done actor) same =
      elim (Bool-cases (is_status c.info.status expired)) [
        | inl old ↦ rw (old, attach_actor) (inl refl)
        | inr live ↦ elim (Bool-cases (is_held c.writer && not frame.takeover)) [
          | inl taken ↦ rw (live, taken, attach_actor) (inl refl)
          | inr free ↦
              let r = replay_after unmarshal frame.after_event_id frame.require_exact_replay c in
              rw (live, free, attach_actor)
                (elim (after_replay-writer env fresh actor r c
                  (close_old hash_token unmarshal c c.writer log)) [
                    | inl kept ↦ inl kept
                    | inr new ↦ inr (new, (actor, sym same), free-or c.writer frame.takeover free)
                  ])
        ]
      ]

  -- An action leaves the writer of the chain as it is, or replaces it as it may: an attachment by
  -- a principal that has the chain's token takes the place of no writer, or of one on a takeover;
  -- a request's own lease takes the place of no writer; a detachment ends the lease that it names,
  -- or any; the end of a run and its rollback end the run's own lease; and a commit of the history
  -- has no effect on it.
  pub act-writer :
      (a : Action) (c : HotChain) → ((act a c).writer ≡ c.writer) ⊎ Replaces a c (act a c).writer
  unfolding act attach_chain detach commit_history patch_chain Replaces
  act-writer (attach_action env frame fresh log) c =
      attach_actor-writer env frame fresh c log
        (authorize_attach hash_token c env.principal frame.resume_token) refl
  act-writer (detach_action id reason now log) c =
      detach_writer-writer id reason now c log c.writer refl
  act-writer (begin_action env start fresh) c =
      begin_run-writer to_lower validate_capability env start fresh c
  act-writer (rollback_action b) c = rolled_back-writer b c
  act-writer (end_action r now log) c = end_run-writer r now c log
  act-writer (commit_action run_id status messages now log) c = inl refl
  act-writer (patch_action env update fresh log) c =
      patch_held-writer env update fresh c log (acquire env fresh.attachment_id fresh.now c) refl
