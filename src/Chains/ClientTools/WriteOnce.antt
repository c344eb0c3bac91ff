-- ===== src/Chains/ClientTools/WriteOnce.antt =====
-- The results of client tools as registers that are written once: the contract of
-- SubmitClientToolResult and timeoutPending.
use vai_gateway.Prelude.{
  ◌≡◌, refl, sym, ap, ◌∙◌, String, Bool, true, false, Option, none, some, List, [], ◌∷◌, ◌==◌,
  texts_comparable, subst, arith, eq_iff, eq_refl, Bool-cases, inl, inr, if◌then◌else◌,
}
use vai_gateway.Prelude.Assoc.{Assoc, lookup, insert, lookup-insert, lookup-insert_self}
use vai_gateway.Types.{ContentBlock, ToolUse}
use vai_gateway.RunLoop.Model.{ContextError}
use vai_gateway.Chains.Model.{ChainError}
use vai_gateway.Chains.ClientTools.{
  PendingExecution, ClientToolResultFrame, normalize, conflict, answered_by, resolve, submit,
  settled, settle_one, timeout_pending, Wake, submitted, stopped,
}

pub record ToolAnswer : Type 0 where
  pub content : List ContentBlock
  pub is_error : Bool
  pub payload_hash : String

abbrev pub given : PendingExecution → ToolAnswer
given x = record { content = x.content; is_error = x.is_error; payload_hash = x.payload_hash }

-- A call is unknown, or waits, or has an answer.
unfoldable pub answer_of : Option PendingExecution → Option (Option ToolAnswer)
answer_of none = none
answer_of (some x) = some (if x.resolved then some (given x) else none)

abbrev pub view : Assoc PendingExecution → String → Option (Option ToolAnswer)
view pending id = answer_of (lookup id pending)

-- The answer is kept by a register that waits.
unfoldable pub write : ToolAnswer → Option (Option ToolAnswer) → Option (Option ToolAnswer)
write a none = none
write a (some none) = some (some a)
write a (some (some b)) = some (some b)

-- The reply to a submission, out of what the register holds after it.
unfoldable pub reply : (hash : String) → Option (Option ToolAnswer) → Option ChainError
reply hash none = some (conflict "tool execution is not pending")
reply hash (some none) = none
reply hash (some (some a)) =
    if a.payload_hash == hash
    then none
    else some (conflict "tool result payload conflicts with the existing resolution")

-- The call has its answer.
abbrev pub IsAnswered : String → PendingExecution → Assoc PendingExecution → Type 0
IsAnswered j x pending = (lookup j pending ≡ some x) × (x.resolved ≡ true)

pub some_inj {ℓ} : {A : Type ℓ} (a b : A) → some a ≡ some b → a ≡ b
some_inj a b e = cc e

pub found-here :
    (id j : String) (x y : PendingExecution) (pending : Assoc PendingExecution)
    → lookup j pending ≡ some x
    → lookup id pending ≡ some y
    → id ≡ j
    → y ≡ x
found-here id j x y pending e f same = some_inj y x (sym f ∙ ap (λ k. lookup k pending) same ∙ e)

module _ (hash_payload : List ContentBlock → Bool → String) (hash_text : String → String) where
  abbrev pub submitted_answer : ClientToolResultFrame → ToolAnswer
  submitted_answer frame = record {
    content = normalize frame.content;
    is_error = frame.is_error;
    payload_hash = hash_payload frame.content frame.is_error;
  }

  -- One register after a step that writes one.
  abbrev pub Writes : ToolAnswer → String → Assoc PendingExecution → Assoc PendingExecution → Type 0
  Writes a id pending pending' =
      (j : String)
      → view pending' j ≡ (if id == j then write a (view pending j) else view pending j)

  view-insert :
      (id j : String) (x : PendingExecution) (pending : Assoc PendingExecution)
      → view (insert id x pending) j ≡ (if id == j then answer_of (some x) else view pending j)
  view-insert id j x pending = elim (Bool-cases (id == j)) [
    | inl here ↦ rw (lookup-insert, here) refl
    | inr there ↦ rw (lookup-insert, there) refl
  ]

  unwritten :
      (a : ToolAnswer) (id : String) (pending : Assoc PendingExecution)
      → write a (view pending id) ≡ view pending id
      → Writes a id pending pending
  unwritten a id pending e j = elim (Bool-cases (id == j)) [
    | inl here ↦
        rw here
          (sym (subst (λ k. write a (view pending k) ≡ view pending k) ((eq_iff id j).0 here) e))
    | inr there ↦ rw there refl
  ]

  written :
      (a : ToolAnswer) (id : String) (x : PendingExecution) (pending : Assoc PendingExecution)
      → answer_of (some x) ≡ write a (view pending id)
      → Writes a id pending (insert id x pending)
  written a id x pending e j = elim (Bool-cases (id == j)) [
    | inl here ↦
        rw (view-insert, here)
          (subst (λ k. answer_of (some x) ≡ write a (view pending k)) ((eq_iff id j).0 here) e)
    | inr there ↦ rw (view-insert, there) refl
  ]

  -- What a submission promises.
  abbrev pub WritesOnce :
      ClientToolResultFrame
      → Assoc PendingExecution
      → Option ChainError × Assoc PendingExecution
      → Type 0
  WritesOnce frame pending r =
      Writes (submitted_answer frame) frame.execution_id pending r.1
      × (r.0 ≡ reply (hash_payload frame.content frame.is_error) (view r.1 frame.execution_id))

  resolve-WritesOnce :
      (frame : ClientToolResultFrame) (pending : Assoc PendingExecution)
      (found : Option PendingExecution)
      → lookup frame.execution_id pending ≡ found
      → WritesOnce frame pending (resolve hash_payload hash_text frame pending found)
  unfolding resolve answer_of write reply
  resolve-WritesOnce frame pending none here =
      (unwritten (submitted_answer frame) frame.execution_id pending (rw here refl), rw here refl)
  resolve-WritesOnce frame pending (some x) here = elim (Bool-cases x.resolved) [
    | inl old ↦
        rw (old, resolve)
          (
            unwritten (submitted_answer frame) frame.execution_id pending (rw (here, old) refl),
            rw (here, old) refl,
          )
    | inr new ↦
        rw (new, resolve)
          (
            written (submitted_answer frame) frame.execution_id
                (answered_by hash_payload hash_text frame x) pending (rw (here, new) refl),
            rw (lookup-insert_self)
                (ground (arith, eq_refl (hash_payload frame.content frame.is_error))),
          )
  ]

  -- A result that is submitted to the active run is the answer of its call if the call waits for
  -- one, and else changes no answer; no other call's answer changes; and the reply is an error
  -- exactly if the call is unknown or its answer then has another hash than the result.
  pub submit-WritesOnce :
      (frame : ClientToolResultFrame) (pending : Assoc PendingExecution)
      → WritesOnce frame pending (submit hash_payload hash_text (some frame.run_id) frame pending)
  unfolding submit
  submit-WritesOnce frame pending =
      let mine : frame.run_id == frame.run_id ≡ true = ground (arith, eq_refl frame.run_id) in
      rw (mine, submit) (resolve-WritesOnce frame pending (lookup frame.execution_id pending) refl)

  -- The calls after a step of the client, or after the end of a wait for the given calls.
  unfoldable pub step : List ToolUse → Wake → Assoc PendingExecution → Assoc PendingExecution
  step uses (submitted active_run frame) pending =
      (submit hash_payload hash_text active_run frame pending).1
  step uses (stopped cause) pending = (timeout_pending hash_payload hash_text cause uses pending).1

  unfoldable pub steps : List ToolUse → List Wake → Assoc PendingExecution → Assoc PendingExecution
  steps uses [] pending = pending
  steps uses (w ∷ ws) pending = steps uses ws (step uses w pending)

  -- A write at a call leaves an answered call as it is, if it writes what is there.
  insert-keeps :
      (id j : String) (x y : PendingExecution) (pending : Assoc PendingExecution)
      → IsAnswered j x pending
      → (id ≡ j → y ≡ x)
      → IsAnswered j x (insert id y pending)
  insert-keeps id j x y pending h same = elim (Bool-cases (id == j)) [
    | inl here ↦ (rw (lookup-insert, here) (ap some (same ((eq_iff id j).0 here))), h.1)
    | inr there ↦ (rw (lookup-insert, there) h.0, h.1)
  ]

  settled_lem :
      (cause : ContextError) (x : PendingExecution)
      → x.resolved ≡ true
      → settled hash_payload hash_text cause x ≡ x
  unfolding settled
  settled_lem cause x old = rw (old, settled) refl

  settle_one-keeps :
      (cause : ContextError) (id j : String) (x : PendingExecution)
      (pending : Assoc PendingExecution) (found : Option PendingExecution)
      → lookup id pending ≡ found
      → IsAnswered j x pending
      → IsAnswered j x (settle_one hash_payload hash_text cause id pending found)
  unfolding settle_one
  settle_one-keeps cause id j x pending none e h = h
  settle_one-keeps cause id j x pending (some y) e h =
      insert-keeps id j x (settled hash_payload hash_text cause y) pending h (λ same.
        let one = found-here id j x y pending h.0 e same in
        ap (settled hash_payload hash_text cause) one ∙ settled_lem cause x h.1)

  timeout_pending-keeps :
      (cause : ContextError) (uses : List ToolUse) (j : String) (x : PendingExecution)
      (pending : Assoc PendingExecution)
      → IsAnswered j x pending
      → IsAnswered j x (timeout_pending hash_payload hash_text cause uses pending).1
  unfolding timeout_pending
  timeout_pending-keeps cause [] j x pending h = h
  timeout_pending-keeps cause (u ∷ us) j x pending h =
      timeout_pending-keeps cause us j x _
        (settle_one-keeps cause u.id j x pending (lookup u.id pending) refl h)

  resolve-keeps :
      (frame : ClientToolResultFrame) (j : String) (x : PendingExecution)
      (pending : Assoc PendingExecution) (found : Option PendingExecution)
      → lookup frame.execution_id pending ≡ found
      → IsAnswered j x pending
      → IsAnswered j x (resolve hash_payload hash_text frame pending found).1
  unfolding resolve
  resolve-keeps frame j x pending none e h = h
  resolve-keeps frame j x pending (some y) e h = elim (Bool-cases y.resolved) [
    | inl old ↦ rw (old, resolve) h
    | inr new ↦
        rw (new, resolve)
          (insert-keeps frame.execution_id j x (answered_by hash_payload hash_text frame y) pending
            h
            (λ same.
              absurd (is_new y x new h.1 (found-here frame.execution_id j x y pending h.0 e same))))
  ]
    where
      is_new : (y x : PendingExecution) → y.resolved ≡ false → x.resolved ≡ true → y ≡ x → ⊥
      is_new y x new old one = cc (new, old, ap (λ z. z.resolved) one)

  submit-keeps :
      (active_run : Option String) (frame : ClientToolResultFrame) (j : String)
      (x : PendingExecution) (pending : Assoc PendingExecution)
      → IsAnswered j x pending
      → IsAnswered j x (submit hash_payload hash_text active_run frame pending).1
  unfolding submit
  submit-keeps none frame j x pending h = h
  submit-keeps (some run_id) frame j x pending h = elim (Bool-cases (run_id == frame.run_id)) [
    | inl mine ↦
        rw (mine, submit)
          (resolve-keeps frame j x pending (lookup frame.execution_id pending) refl h)
    | inr other ↦ rw (other, submit) h
  ]

  -- A call that has its answer keeps it, whatever is submitted after and whenever the wait ends.
  pub steps-IsAnswered :
      (uses : List ToolUse) (ws : List Wake) (j : String) (x : PendingExecution)
      (pending : Assoc PendingExecution)
      → IsAnswered j x pending
      → IsAnswered j x (steps uses ws pending)
  unfolding steps step
  steps-IsAnswered uses [] j x pending h = h
  steps-IsAnswered uses (submitted active_run frame ∷ ws) j x pending h =
      steps-IsAnswered uses ws j x _ (submit-keeps active_run frame j x pending h)
  steps-IsAnswered uses (stopped cause ∷ ws) j x pending h =
      steps-IsAnswered uses ws j x _ (timeout_pending-keeps cause uses j x pending h)
