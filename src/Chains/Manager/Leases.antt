-- ===== src/Chains/Manager/Leases.antt =====
-- How the writer of a chain changes: which section may replace it, and whose lease ends when.
use vai_gateway.Prelude.{
  ℕ, ◌≡◌, refl, sym, ap, String, Bool, true, false, ◌&&◌, not, ◌⊎◌, inl, inr, Option, none, some,
  List, ◌++◌, ◌==◌, texts_comparable, eq_iff, Bool-cases, Option-cases, arith,
}
use vai_gateway.Types.{Message}
use vai_gateway.Chains.Model.{closed, ChainError, ChainDefaults, WriterLease, ActiveRun, HotChain}
use vai_gateway.Chains.Defaults.{merge_defaults}
use vai_gateway.Chains.Access.{Outcome, done, denied}
use vai_gateway.Chains.Manager.{
  Environment, is_request_mode, is_status, same_mode, new_lease, hold, holds, is_held,
  request_lease, socket_lease, acquire, detach_writer, detached,
}
use vai_gateway.Chains.Manager.Calls.{StoreLog}
use vai_gateway.Chains.Manager.Start.{
  RunStart, FreshRun, Begun, refusal, enter, begin_run, rolled_back, is_active,
}
use vai_gateway.Chains.Manager.Finish.{ended, end_run}
use vai_gateway.Chains.Manager.Update.{ChainUpdate, FreshUpdate, numbered, patch_held}

done_inj {ℓ} : {A : Type ℓ} (a b : A) → done a ≡ done b → a ≡ b
done_inj a b e = cc e

request_lease-done :
    (env : Environment) (id : String) (now : ℕ) (c held : HotChain) (w : Option WriterLease)
    → request_lease env id now c w ≡ done held
    → (held ≡ hold env id "" now c) × (w ≡ none)
unfolding request_lease
request_lease-done env id now c held none e = (sym (done_inj _ held e), refl)
request_lease-done env id now c held (some w) e = cc e

socket_lease-done :
    (env : Environment) (c held : HotChain) (w : Option WriterLease)
    → socket_lease env c w ≡ done held
    → held ≡ c
unfolding socket_lease
socket_lease-done env c held none e = cc e
socket_lease-done env c held (some w) e = elim (Bool-cases (same_mode w.mode env.mode)) [
  | inl same ↦ sym (done_inj c held (rw (same, socket_lease) at e))
  | inr other ↦ cc (rw (other, socket_lease) at e)
]

-- A lease is granted, or the socket has one that stays.
pub acquire-done :
    (env : Environment) (id : String) (now : ℕ) (c held : HotChain)
    → acquire env id now c ≡ done held
    → (held ≡ c)
      ⊎ ((held ≡ hold env id "" now c) × (c.writer ≡ none) × (is_request_mode env.mode ≡ true))
unfolding acquire
acquire-done env id now c held e = elim (Bool-cases (is_request_mode env.mode)) [
  | inl request ↦
      let (same, free) =
        request_lease-done env id now c held c.writer (rw (request, acquire) at e) in
      inr (same, free, request)
  | inr socket ↦ inl (socket_lease-done env c held c.writer (rw (socket, acquire) at e))
]

-- A new lease, for a caller that had none to displace.
abbrev pub Takes : Environment → (id : String) → ℕ → HotChain → Option WriterLease → Type 0
Takes env id now c after =
    (after ≡ some (new_lease env id "" now)) × (c.writer ≡ none) × (is_request_mode env.mode ≡ true)

acquire-writer :
    (env : Environment) (id : String) (now : ℕ) (c held : HotChain)
    → acquire env id now c ≡ done held
    → (held.writer ≡ c.writer) ⊎ Takes env id now c held.writer
unfolding hold
acquire-writer env id now c held e = elim (acquire-done env id now c held e) [
  | inl same ↦ inl (ap (λ x. x.writer) same)
  | inr (same, free, request) ↦ inr (ap (λ x. x.writer) same, free, request)
]

-- A run that is asked for now would get a lease of its own.
unfoldable pub can_hold : Environment → HotChain → Bool
can_hold env c =
    is_request_mode env.mode && not (is_held c.writer) && not (is_status c.info.status closed)

module _ (to_lower : String → String)
    (validate_capability : String → List Message → ChainDefaults → Option ChainError) where
  enter-held :
      (env : Environment) (start : RunStart) (fresh : FreshRun) (c held : HotChain)
      → (enter to_lower validate_capability env start fresh c (done held)).1.writer ≡ held.writer
  unfolding enter
  enter-held env start fresh c held =
      let effective = merge_defaults held.info.defaults start.overrides in
      elim (Option-cases
        (refusal to_lower validate_capability env effective (held.history ++ start.input) held)) [
          | inl fine ↦ rw (fine, enter) refl
          | inr (e, refused) ↦ rw (refused, enter) refl
        ]

  enter-writer :
      (env : Environment) (start : RunStart) (fresh : FreshRun) (c : HotChain)
      (r : Outcome HotChain)
      → r ≡ acquire env fresh.attachment_id fresh.now c
      → ((enter to_lower validate_capability env start fresh c r).1.writer ≡ c.writer)
        ⊎ Takes env fresh.attachment_id fresh.now c
            (enter to_lower validate_capability env start fresh c r).1.writer
  unfolding enter
  enter-writer env start fresh c (denied e) same = inl refl
  enter-writer env start fresh c (done held) same =
      rw (enter-held env start fresh c held)
        (acquire-writer env fresh.attachment_id fresh.now c held (sym same))

  pub begin_run-writer :
      (env : Environment) (start : RunStart) (fresh : FreshRun) (c : HotChain)
      → ((begin_run to_lower validate_capability env start fresh c).1.writer ≡ c.writer)
        ⊎ Takes env fresh.attachment_id fresh.now c
            (begin_run to_lower validate_capability env start fresh c).1.writer
  unfolding begin_run
  begin_run-writer env start fresh c = elim (Bool-cases (is_status c.info.status closed)) [
    | inl over ↦ rw (over, begin_run) (inl refl)
    | inr on ↦
        rw (on, begin_run)
          (enter-writer env start fresh c (acquire env fresh.attachment_id fresh.now c) refl)
  ]

  -- What a refused request leaves: the chain as it was, or held by the request's lease.
  abbrev Leftover : Environment → FreshRun → HotChain → HotChain → Type 0
  Leftover env fresh c after =
      (after ≡ c)
      ⊎ ((after ≡ hold env fresh.attachment_id "" fresh.now c)
          × (c.writer ≡ none)
          × (is_request_mode env.mode ≡ true)
          × (is_status c.info.status closed ≡ false))

-- The run's own lease is taken away.
abbrev pub Drops : String → HotChain → Option WriterLease → Type 0
Drops id c after = (after ≡ none) × (holds id c.writer ≡ true)

pub rolled_back-writer :
    (b : Begun) (c : HotChain)
    → ((rolled_back b c).writer ≡ c.writer)
      ⊎ Drops b.active.attachment_id c (rolled_back b c).writer
unfolding rolled_back
rolled_back-writer b c =
    elim (Bool-cases
      (not (b.active.attachment_id == "") && holds b.active.attachment_id c.writer)) [
        | inl own ↦ rw (own, rolled_back) (inr (refl, ground arith))
        | inr other ↦ rw (other, rolled_back) (inl refl)
      ]

ended-writer :
    (r : ActiveRun) (now : ℕ) (c : HotChain)
    → ((ended r now c).writer ≡ c.writer) ⊎ Drops r.attachment_id c (ended r now c).writer
unfolding ended
ended-writer r now c = elim (Bool-cases (r.ephemeral_writer && holds r.attachment_id c.writer)) [
  | inl own ↦ rw (own, ended) (inr (refl, ground arith))
  | inr other ↦ rw (other, ended) (inl refl)
]

pub end_run-writer :
    (r : ActiveRun) (now : ℕ) (c : HotChain) (log : StoreLog)
    → ((end_run r now c log).0.writer ≡ c.writer)
      ⊎ Drops r.attachment_id c (end_run r now c log).0.writer
unfolding end_run
end_run-writer r now c log = elim (Bool-cases (is_active r.run_id c.active_run)) [
  | inl mine ↦ rw (mine, end_run) (ended-writer r now c)
  | inr other ↦ rw (other, end_run) (inl refl)
]

-- A detachment names the lease, or any.
abbrev pub Leaves : String → HotChain → Option WriterLease → Type 0
Leaves id c after = (after ≡ none) × ((id ≡ "") ⊎ (holds id c.writer ≡ true))

lease-named :
    (id : String) (w : WriterLease)
    → (not (id == "") && not (w.id == id)) ≡ false
    → (id ≡ "") ⊎ (holds id (some w) ≡ true)
unfolding holds
lease-named id w named = elim (Bool-cases (id == "")) [
  | inl any ↦ inl ((eq_iff id "").0 any)
  | inr one ↦ inr (ground (arith, one, named))
]

pub detach_writer-writer :
    (id reason : String) (now : ℕ) (c : HotChain) (log : StoreLog) (w : Option WriterLease)
    → c.writer ≡ w
    → ((detach_writer id reason now c log w).0.writer ≡ c.writer)
      ⊎ Leaves id c (detach_writer id reason now c log w).0.writer
unfolding detach_writer detached
detach_writer-writer id reason now c log none e = inl refl
detach_writer-writer id reason now c log (some w) e =
    elim (Bool-cases (not (id == "") && not (w.id == id))) [
      | inl other ↦ rw (other, detach_writer) (inl refl)
      | inr named ↦ rw (named, detach_writer) (inr (refl, rw e (lease-named id w named)))
    ]

numbered-writer :
    (c : HotChain) (r : Option ChainError × StoreLog) → (numbered c r).1.writer ≡ c.writer
unfolding numbered
numbered-writer c (some e, log) = refl
numbered-writer c (none, log) = refl

pub patch_held-writer :
    (env : Environment) (update : ChainUpdate) (fresh : FreshUpdate) (c : HotChain) (log : StoreLog)
    (r : Outcome HotChain)
    → r ≡ acquire env fresh.attachment_id fresh.now c
    → ((patch_held update fresh c log r).1.writer ≡ c.writer)
      ⊎ Takes env fresh.attachment_id fresh.now c (patch_held update fresh c log r).1.writer
unfolding patch_held
patch_held-writer env update fresh c log (denied e) same = inl refl
patch_held-writer env update fresh c log (done held) same =
    rw numbered-writer (acquire-writer env fresh.attachment_id fresh.now c held (sym same))
