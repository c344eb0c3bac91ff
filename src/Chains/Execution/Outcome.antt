-- ===== src/Chains/Execution/Outcome.antt =====
-- The end of a run: its client, its chain and its result have the same history.
use vai_gateway.Prelude.{
  ℕ, suc, zero, ◌+◌, ◌≡◌, refl, sym, ap, ◌∙◌, true, Option, none, some, List, [], ◌∷◌, ◌++◌,
  append-nil, append_assoc, arith, Bool-cases, Option-cases, inl, inr,
}
use vai_gateway.Types.{Message}
use vai_gateway.RunLoop.Model.{ContextError}
use vai_gateway.RunLoop.Client.{follow}
use vai_gateway.Chains.Model.{ActiveRun, HotChain}
use vai_gateway.Chains.MemoryStore.Records.{ChainRunRecord}
use vai_gateway.Chains.Manager.Calls.{StoreLog}
use vai_gateway.Chains.Manager.Start.{is_active}
use vai_gateway.Chains.Manager.Finish.{end_run, ended}
use vai_gateway.Chains.ClientTools.Waiting.{stops}
use vai_gateway.Chains.ClientTools.Batch.{stop_of}
use vai_gateway.Chains.Execution.{
  Runner, RunFailure, stopped_by, Progress, Pass, on, over, finish_run, run_step, after_step,
  run_steps, close_run, begin_progress, execute_run,
}
use vai_gateway.Chains.Execution.Answers.{Answers, Turns}
use vai_gateway.Chains.Execution.Moves.{Synced, Moved, Reports, Announces}
use vai_gateway.Chains.Execution.Ends.{Passes, begin_step-Passes}

module _ (start : List Message) (r : Runner) (ends : (i : ℕ) → stops (r.wakes i) ≡ true) where
  -- What a run leaves behind.
  abbrev Ended : Progress → Progress → Option RunFailure → Type 0
  Ended p q f =
      (added : List Message) × Moved start p q added × Reports f q × (Announces r → Turns added)

  stopped-Passes :
      (p : Progress) (e : ContextError)
      → Synced start p
      → Passes start r p (
          over
            (finish_run (stop_of e) (some (stopped_by e)) (r.now p.step_index) p)
            (some (stopped_by e)))
  unfolding Passes finish_run Reports Turns
  stopped-Passes p e s = ([], (s, sym (append-nil p.history)), tt, λ h. tt)

  run_step-Passes :
      (p : Progress) → Synced start p → (x : Pass) × (run_step r p ≡ some x) × Passes start r p x
  unfolding run_step
  run_step-Passes p s = elim (Option-cases (r.context_ended p.step_index)) [
    | inl live ↦ rw (live, run_step) (begin_step-Passes start r ends p s)
    | inr (e, stopped) ↦ (_, rw (stopped, run_step) refl, stopped-Passes p e s)
  ]

  Turns-append :
      (a t : Message) (rest : List Message) → Answers a t → Turns rest → Turns (a ∷ t ∷ rest)
  unfolding Turns
  Turns-append a t rest h turns = (h, turns)

  -- The rest of a run, after a pass of it.
  Ended-after :
      (p p' q : Progress) (f : Option RunFailure) (a t : Message)
      → Moved start p p' (a ∷ t ∷ [])
      → (Announces r → Answers a t)
      → Ended p' q f
      → Ended p q f
  Ended-after p p' q f a t moved answers (added, moved', reports, turns) = (
    a ∷ t ∷ added,
    (moved'.0, moved'.1 ∙ ap (λ h. h ++ added) moved.1 ∙ append_assoc p.history (a ∷ t ∷ []) added),
    reports,
    λ h. Turns-append a t added (answers h) (turns h),
  )

  -- A run whose context ends after so many more steps ends in as many passes and one.
  EndsIn : ℕ → Type 0
  EndsIn n =
      (p : Progress) (e : ContextError)
      → Synced start p
      → r.context_ended (p.step_index + n) ≡ some e
      → (q : Progress) × (f : Option RunFailure) × (run_steps (suc n) r p ≡ some (q, f))
        × Ended p q f

  -- The pass of a run that is over.
  over-Ended :
      (n : ℕ) (p q : Progress) (f : Option RunFailure)
      → run_step r p ≡ some (over q f)
      → Passes start r p (over q f)
      → (q : Progress) × (f : Option RunFailure) × (run_steps (suc n) r p ≡ some (q, f))
        × Ended p q f
  unfolding run_steps after_step Passes
  over-Ended n p q f e ended_here = (q, f, rw (run_steps, e) refl, ended_here)

  on-Ended :
      (n : ℕ) (p p' : Progress) (e : ContextError)
      → EndsIn n
      → run_step r p ≡ some (on p')
      → Passes start r p (on p')
      → r.context_ended (p.step_index + suc n) ≡ some e
      → (q : Progress) × (f : Option RunFailure) × (run_steps (suc (suc n)) r p ≡ some (q, f))
        × Ended p q f
  unfolding run_steps after_step Passes EndsIn
  on-Ended n p p' e rest same (a, t, moved, index, answers) stopped =
      let here : p'.step_index + n ≡ p.step_index + suc n = omega (arith, index) in
      let (q, f, ended_rest, done) = rest p' e moved.0 (ap r.context_ended here ∙ stopped) in
      (q, f, rw (run_steps, same) ended_rest, Ended-after p p' q f a t moved answers done)

  next-Ended :
      (n : ℕ) (p : Progress) (e : ContextError) (x : Pass)
      → EndsIn n
      → run_step r p ≡ some x
      → Passes start r p x
      → r.context_ended (p.step_index + suc n) ≡ some e
      → (q : Progress) × (f : Option RunFailure) × (run_steps (suc (suc n)) r p ≡ some (q, f))
        × Ended p q f
  next-Ended n p e (on p') rest same moves stopped = on-Ended n p p' e rest same moves stopped
  next-Ended n p e (over q f) rest same moves stopped = over-Ended (suc n) p q f same moves

  run_steps-EndsIn : (n : ℕ) → EndsIn n
  unfolding EndsIn run_step
  run_steps-EndsIn zero p e s stopped =
      let here : p.step_index + 0 ≡ p.step_index = omega arith in
      let stopped' : r.context_ended p.step_index ≡ some e =
        sym (ap r.context_ended here) ∙ stopped in
      let q = finish_run (stop_of e) (some (stopped_by e)) (r.now p.step_index) p in
      over-Ended 0 p q (some (stopped_by e)) (rw (stopped', run_step) refl) (stopped-Passes p e s)
  run_steps-EndsIn (suc n) p e s stopped =
      let (x, passed, moves) = run_step-Passes p s in
      next-Ended n p e x (run_steps-EndsIn n) passed moves stopped

-- The end of a run changes no history.
end_run-history :
    (active : ActiveRun) (now : ℕ) (c : HotChain) (calls : StoreLog)
    → (end_run active now c calls).0.history ≡ c.history
unfolding end_run ended
end_run-history active now c calls = elim (Bool-cases (is_active active.run_id c.active_run)) [
  | inl mine ↦ rw (mine, end_run) refl
  | inr other ↦ rw (other, end_run) refl
]

-- The messages of the result of a run that has ended without an error.
unfoldable pub Told : Option RunFailure → Progress → Type 0
Told none q = q.result.messages ≡ q.chain.history
Told (some e) q = Unit

module _ (r : Runner) (ends : (i : ℕ) → stops (r.wakes i) ≡ true) where
  run_steps-begin :
      (n : ℕ) (e : ContextError) (c : HotChain) (calls : StoreLog) (run : ChainRunRecord)
      → r.context_ended n ≡ some e
      → (q : Progress) × (f : Option RunFailure) × (run_steps (suc n) r (begin_progress c calls run)
          ≡ some (q, f))
        × Ended c.history r ends (begin_progress c calls run) q f
  unfolding EndsIn follow
  run_steps-begin n e c calls run stopped =
      let first : 0 + n ≡ n = omega arith in
      run_steps-EndsIn c.history r ends n (begin_progress c calls run) e (refl, refl)
        (ap r.context_ended first ∙ stopped)

  -- What a run that has ended leaves, once it is closed.
  abbrev Closed : List Message → Progress → Option RunFailure → Type 0
  Closed start q f =
      (follow start q.events ≡ some q.chain.history)
      × Told f q
      × (added : List Message) × (q.chain.history ≡ start ++ added)
      × (Announces r → Turns added)

  Told-Reports :
      (f : Option RunFailure) (p q : Progress)
      → q.result ≡ p.result
      → q.chain.history ≡ p.history
      → Reports f p
      → Told f q
  unfolding Told Reports
  Told-Reports none p q result same told = ap (λ x. x.messages) result ∙ told ∙ sym same
  Told-Reports (some e) p q result same told = tt

  Closed-close_run :
      (active : ActiveRun) (now : ℕ) (c : HotChain) (calls : StoreLog) (run : ChainRunRecord)
      (q : Progress) (f : Option RunFailure)
      → Ended c.history r ends (begin_progress c calls run) q f
      → Closed c.history (close_run active now q) f
  unfolding close_run
  Closed-close_run active now c calls run q f (added, ((same, seen), grown), reports, turns) =
      let kept = end_run-history active now q.chain q.calls in
      (
        seen ∙ ap some (sym same ∙ sym kept),
        Told-Reports f q (close_run active now q) refl (kept ∙ same) reports,
        added,
        kept ∙ same ∙ grown,
        turns,
      )

  execute_run-Closed :
      (n : ℕ) (e : ContextError) (active : ActiveRun) (now : ℕ) (c : HotChain) (calls : StoreLog)
      (run : ChainRunRecord)
      → r.context_ended n ≡ some e
      → (q : Progress) × (f : Option RunFailure) × (execute_run (suc n) r active now c calls run
          ≡ some (q, f))
        × Closed c.history q f
  unfolding execute_run
  execute_run-Closed n e active now c calls run stopped =
      let (q, f, ran, done) = run_steps-begin n e c calls run stopped in
      (
        close_run active now q,
        f,
        rw (execute_run, ran) refl,
        Closed-close_run active now c calls run q f done,
      )

-- A run whose context has ended by its step n, and in which every wait for the client comes to an
-- end, is over within n + 1 passes. A client that applies the run's events in order to the history
-- that the run began with has then the history of the chain, and so has the result of a run that
-- ends without an error.
pub execute_run-Told :
    (r : Runner) (n : ℕ) (e : ContextError) (active : ActiveRun) (now : ℕ) (c : HotChain)
    (calls : StoreLog) (run : ChainRunRecord)
    → ((i : ℕ) → stops (r.wakes i) ≡ true)
    → r.context_ended n ≡ some e
    → (q : Progress) × (f : Option RunFailure) × (execute_run (suc n) r active now c calls run
        ≡ some (q, f))
      × (follow c.history q.events ≡ some q.chain.history)
      × Told f q
execute_run-Told r n e active now c calls run ends stopped =
    let (q, f, ran, (seen, told, added, grown, turns)) =
      execute_run-Closed r ends n e active now c calls run stopped in
    (q, f, ran, seen, told)

-- A run whose calls are all announced without an error, whose context has ended by its step n and
-- in which every wait for the client comes to an end, is over within n + 1 passes. It keeps the
-- history of its chain and adds answers of the model, each followed by one message of the user with
-- exactly one result for each of its calls; only the last may be an answer alone.
pub execute_run-Turns :
    (r : Runner) (n : ℕ) (e : ContextError) (active : ActiveRun) (now : ℕ) (c : HotChain)
    (calls : StoreLog) (run : ChainRunRecord)
    → Announces r
    → ((i : ℕ) → stops (r.wakes i) ≡ true)
    → r.context_ended n ≡ some e
    → (q : Progress) × (f : Option RunFailure) × (added : List Message) × (execute_run
          (suc n)
          r
          active
          now
          c
          calls
          run
        ≡ some (q, f))
      × (q.chain.history ≡ c.history ++ added)
      × Turns added
execute_run-Turns r n e active now c calls run announces ends stopped =
    let (q, f, ran, (seen, told, added, grown, turns)) =
      execute_run-Closed r ends n e active now c calls run stopped in
    (q, f, added, ran, grown, turns announces)
