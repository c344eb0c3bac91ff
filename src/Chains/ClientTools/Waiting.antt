-- ===== src/Chains/ClientTools/Waiting.antt =====
-- The end of a wait for client tools: every call has its result, in the order of the calls.
use vai_gateway.Prelude.{
  ℕ, ◌+◌, ◌≡◌, refl, sym, ap, ◌∙◌, String, Bool, true, false, Option, none, some, List, [], ◌∷◌,
  ◌==◌, texts_comparable, eq_iff, All, Bool-cases, inl, inr,
}
use vai_gateway.Prelude.Assoc.{Assoc, lookup, insert, lookup-insert, lookup-insert_self}
use vai_gateway.Types.{ContentBlock, ToolUse}
use vai_gateway.RunLoop.Model.{ContextError}
use vai_gateway.Chains.ClientTools.WriteOnce.{some_inj}
use vai_gateway.Chains.ClientTools.{
  PendingExecution, ClientToolResultFrame, answered_by, resolve, submit, settled, settle_one,
  timeout_pending, listed, Wake, submitted, stopped, Waited, is_resolved, look, all_there, given_up,
  wait, enqueue_from, enqueue, waiting_execution,
}

-- The call is known under its own id.
abbrev pub Posted : Assoc PendingExecution → String → Type 0
Posted pending k = (x : PendingExecution) × (lookup k pending ≡ some x) × (x.execution_id ≡ k)

-- One resolved execution for each call, in their order.
unfoldable pub Matches : List ToolUse → List PendingExecution → Type 0
Matches [] [] = Unit
Matches (u ∷ us) (x ∷ xs) = (x.execution_id ≡ u.id) × (x.resolved ≡ true) × Matches us xs
Matches [] (x ∷ xs) = ⊥
Matches (u ∷ us) [] = ⊥

abbrev pub AllPosted : Assoc PendingExecution → List ToolUse → Type 0
AllPosted pending uses = All (λ (u : ToolUse). Posted pending u.id) uses

insert-Posted :
    (id k : String) (y : PendingExecution) (pending : Assoc PendingExecution)
    → Posted pending k
    → (id ≡ k → y.execution_id ≡ k)
    → Posted (insert id y pending) k
insert-Posted id k y pending (x, found, own) named = elim (Bool-cases (id == k)) [
  | inl here ↦ (y, rw (lookup-insert, here) refl, named ((eq_iff id k).0 here))
  | inr there ↦ (x, rw (lookup-insert, there) found, own)
]

-- What is found under a call's id is the call.
Posted-own :
    (id k : String) (y : PendingExecution) (pending : Assoc PendingExecution)
    → Posted pending k
    → lookup id pending ≡ some y
    → id ≡ k
    → y.execution_id ≡ k
Posted-own id k y pending (x, found, own) e same =
    ap (λ z. z.execution_id) (some_inj y x (sym e ∙ ap (λ j. lookup j pending) same ∙ found)) ∙ own

all-Posted :
    (p q : Assoc PendingExecution) (uses : List ToolUse)
    → ((k : String) → Posted p k → Posted q k)
    → AllPosted p uses
    → AllPosted q uses
all-Posted p q [] f h = tt
all-Posted p q (u ∷ us) f h = (f u.id h.0, all-Posted p q us f h.1)

enqueue_from-Posted :
    (deadline i : ℕ) (uses : List ToolUse) (k : String) (pending : Assoc PendingExecution)
    → Posted pending k
    → Posted (enqueue_from deadline i uses pending) k
unfolding enqueue_from
enqueue_from-Posted deadline i [] k pending h = h
enqueue_from-Posted deadline i (u ∷ us) k pending h =
    enqueue_from-Posted deadline (i + 1) us k _
      (insert-Posted u.id k (waiting_execution u deadline i) pending h (λ same. same))

enqueue_from-AllPosted :
    (deadline i : ℕ) (uses : List ToolUse) (pending : Assoc PendingExecution)
    → AllPosted (enqueue_from deadline i uses pending) uses
unfolding enqueue_from
enqueue_from-AllPosted deadline i [] pending = tt
enqueue_from-AllPosted deadline i (u ∷ us) pending = (
  enqueue_from-Posted deadline (i + 1) us u.id _ (
    waiting_execution u deadline i,
    lookup-insert_self u.id (waiting_execution u deadline i) pending,
    refl,
  ),
  enqueue_from-AllPosted deadline (i + 1) us _,
)

unfoldable pub stops : List Wake → Bool
stops [] = false
stops (submitted active_run frame ∷ ws) = stops ws
stops (stopped cause ∷ ws) = true

module _ (hash_payload : List ContentBlock → Bool → String) (hash_text : String → String) where
  resolve-Posted :
      (frame : ClientToolResultFrame) (k : String) (pending : Assoc PendingExecution)
      (found : Option PendingExecution)
      → lookup frame.execution_id pending ≡ found
      → Posted pending k
      → Posted (resolve hash_payload hash_text frame pending found).1 k
  unfolding resolve
  resolve-Posted frame k pending none e h = h
  resolve-Posted frame k pending (some y) e h = elim (Bool-cases y.resolved) [
    | inl old ↦ rw (old, resolve) h
    | inr new ↦
        rw (new, resolve)
          (insert-Posted frame.execution_id k (answered_by hash_payload hash_text frame y) pending h
            (Posted-own frame.execution_id k y pending h e))
  ]

  submit-Posted :
      (active_run : Option String) (frame : ClientToolResultFrame) (k : String)
      (pending : Assoc PendingExecution)
      → Posted pending k
      → Posted (submit hash_payload hash_text active_run frame pending).1 k
  unfolding submit
  submit-Posted none frame k pending h = h
  submit-Posted (some run_id) frame k pending h = elim (Bool-cases (run_id == frame.run_id)) [
    | inl mine ↦
        rw (mine, submit)
          (resolve-Posted frame k pending (lookup frame.execution_id pending) refl h)
    | inr other ↦ rw (other, submit) h
  ]

  settled-own :
      (cause : ContextError) (x : PendingExecution)
      → ((settled hash_payload hash_text cause x).execution_id ≡ x.execution_id)
        × ((settled hash_payload hash_text cause x).resolved ≡ true)
  unfolding settled
  settled-own cause x = elim (Bool-cases x.resolved) [
    | inl old ↦ rw (old, settled) (refl, refl)
    | inr new ↦ rw (new, settled) (refl, refl)
  ]

  settle_one-Posted :
      (cause : ContextError) (id k : String) (pending : Assoc PendingExecution)
      (found : Option PendingExecution)
      → lookup id pending ≡ found
      → Posted pending k
      → Posted (settle_one hash_payload hash_text cause id pending found) k
  unfolding settle_one
  settle_one-Posted cause id k pending none e h = h
  settle_one-Posted cause id k pending (some y) e h =
      insert-Posted id k (settled hash_payload hash_text cause y) pending h
        (λ same. (settled-own cause y).0 ∙ Posted-own id k y pending h e same)

  -- The call that is settled is found resolved.
  settle_one-here :
      (cause : ContextError) (k : String) (pending : Assoc PendingExecution)
      → Posted pending k
      → (x : PendingExecution) × (lookup k
            (settle_one hash_payload hash_text cause k pending (lookup k pending))
          ≡ some x)
        × (x.execution_id ≡ k)
        × (x.resolved ≡ true)
  unfolding settle_one
  settle_one-here cause k pending (x, found, own) =
      let y = settled hash_payload hash_text cause x in
      (
        y,
        rw (found, settle_one) (lookup-insert_self k y pending),
        (settled-own cause x).0 ∙ own,
        (settled-own cause x).1,
      )

  Matches-listed :
      (u : ToolUse) (us : List ToolUse) (x : PendingExecution) (found : Option PendingExecution)
      (out : List PendingExecution)
      → found ≡ some x
      → x.execution_id ≡ u.id
      → x.resolved ≡ true
      → Matches us out
      → Matches (u ∷ us) (listed found out)
  unfolding Matches listed
  Matches-listed u us x found out e own done rest = rw (e, listed) (own, done, rest)

  timeout_pending-Matches :
      (cause : ContextError) (uses : List ToolUse) (pending : Assoc PendingExecution)
      → AllPosted pending uses
      → Matches uses (timeout_pending hash_payload hash_text cause uses pending).0
  unfolding timeout_pending Matches
  timeout_pending-Matches cause [] pending h = tt
  timeout_pending-Matches cause (u ∷ us) pending h =
      let settle = settle_one hash_payload hash_text cause u.id pending (lookup u.id pending) in
      let (x, found, own, done) = settle_one-here cause u.id pending h.0 in
      Matches-listed u us x (lookup u.id settle) _ found own done (
        timeout_pending-Matches cause us settle (
          all-Posted pending settle us
            (λ k. settle_one-Posted cause u.id k pending (lookup u.id pending) refl) h.1))

  look-Matches :
      (uses : List ToolUse) (pending : Assoc PendingExecution)
      → AllPosted pending uses
      → (look uses pending).0 ≡ true
      → Matches uses (look uses pending).1
  unfolding look Matches is_resolved
  look-Matches [] pending h ready = tt
  look-Matches (u ∷ us) pending ((x, found, own), rest) ready =
      elim (Bool-cases (is_resolved (lookup u.id pending))) [
        | inl done ↦
            let ready' : (look us pending).0 ≡ true = rw (done, look) at ready in
            rw (done, look)
              (Matches-listed u us x (lookup u.id pending) (look us pending).1 found own
                (ap is_resolved (sym found) ∙ done) (look-Matches us pending rest ready'))
        | inr waits ↦ cc (rw (waits, look) at ready)
      ]

  wait-Matches :
      (uses : List ToolUse) (ws : List Wake) (pending : Assoc PendingExecution)
      → AllPosted pending uses
      → stops ws ≡ true
      → (w : Waited) × (wait hash_payload hash_text uses ws pending ≡ some w)
        × Matches uses w.results
  unfolding wait stops
  wait-Matches uses [] pending h s = cc s
  wait-Matches uses (submitted active_run frame ∷ ws) pending h s =
      elim (Bool-cases (look uses pending).0) [
        | inl ready ↦
            (all_there uses pending, rw (ready, wait) refl, look-Matches uses pending h ready)
        | inr waits ↦
            rw (waits, wait)
              (wait-Matches uses ws _
                (all-Posted pending _ uses (λ k. submit-Posted active_run frame k pending) h) s)
      ]
  wait-Matches uses (stopped cause ∷ ws) pending h s = elim (Bool-cases (look uses pending).0) [
    | inl ready ↦ (all_there uses pending, rw (ready, wait) refl, look-Matches uses pending h ready)
    | inr waits ↦ (
      given_up hash_payload hash_text cause uses pending,
      rw (waits, wait) refl,
      timeout_pending-Matches cause uses pending h,
    )
  ]

  -- A wait for calls that have been queued ends at the latest when its timer or its context does,
  -- and then every call has its result, in the order of the calls, whatever is submitted before.
  pub wait-enqueue :
      (deadline : ℕ) (uses : List ToolUse) (ws : List Wake) (pending : Assoc PendingExecution)
      → stops ws ≡ true
      → (w : Waited) × (wait hash_payload hash_text uses ws (enqueue deadline uses pending)
          ≡ some w)
        × Matches uses w.results
  wait-enqueue deadline uses ws pending s =
      wait-Matches uses ws (enqueue deadline uses pending)
        (enqueue_from-AllPosted deadline 0 uses pending) s
