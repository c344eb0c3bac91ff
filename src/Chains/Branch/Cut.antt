-- ===== src/Chains/Branch/Cut.antt =====
-- Where the messages of a chain are cut for the regeneration of a run.
use vai_gateway.Prelude.{
  ℕ, zero, suc, ◌≡◌, refl, sym, ap, ◌∙◌, String, true, false, List, [], ◌∷◌, ◌++◌, map, take, All,
  arith, Bool-cases, Option-cases, inl, inr, Option, none, some, subst, numbers_comparable,
}
use vai_gateway.Types.{Message}
use vai_gateway.Chains.Model.{Principal, HotChain, ChainRecord, run_completed, RunStatus}
use vai_gateway.Chains.Access.{Outcome, done, denied, authorize_chain_mutation}
use vai_gateway.Chains.MemoryStore.Records.{ChainMessageRecord, ChainRunRecord, MemoryStore}
use vai_gateway.Chains.MemoryStore.{list_chain_messages}
use vai_gateway.Chains.Branch.Preview.{
  ForkPreview, RunRegenerateRequest, message_of, messages_from_records, is_of_run, run_messages,
  before_run, is_outside, regenerated, is_completed, preview_messages, preview_run,
}

abbrev pub IsOther : String → ChainMessageRecord → Type 0
IsOther run_id m = is_of_run run_id m ≡ false

-- The first message of a run, and those before and after it.
abbrev pub Cut :
    String
    → List ChainMessageRecord
    → (before : List ChainMessageRecord) → ChainMessageRecord
    → List ChainMessageRecord
    → Type 0
Cut run_id ms before m after =
    (ms ≡ before ++ m ∷ after) × All (IsOther run_id) before × (is_of_run run_id m ≡ true)

run_messages-Cut :
    (run_id : String) (ms : List ChainMessageRecord) (m : ChainMessageRecord)
    (own : List ChainMessageRecord)
    → run_messages run_id ms ≡ m ∷ own
    → (after : List ChainMessageRecord) × Cut run_id ms (before_run run_id ms) m after
      × (run_messages run_id (m ∷ after) ≡ m ∷ own)
unfolding run_messages before_run
run_messages-Cut run_id [] m own e = cc
run_messages-Cut run_id (x ∷ ms) m own e = elim (Bool-cases (is_of_run run_id x)) [
  | inl mine ↦
      let same : x ≡ m = ground arith in
      let rest : run_messages run_id ms ≡ own = ground arith in
      let mine' : is_of_run run_id m ≡ true = ap (is_of_run run_id) (sym same) ∙ mine in
      (ms, rw mine (ap (λ y. y ∷ ms) same, tt, mine'), rw mine' (ap (λ l. m ∷ l) rest))
  | inr other ↦
      let tail : run_messages run_id ms ≡ m ∷ own = ground arith in
      let (after, (split, others, mine), own') = run_messages-Cut run_id ms m own tail in
      (after, rw other (ap (λ l. x ∷ l) split, (other, others), mine), own')
]

-- Some of a run's messages from its first one on, and the others.
abbrev pub Begins :
    ChainMessageRecord → List ChainMessageRecord → List Message → List Message → Type 0
Begins m own input rest =
    (input ++ rest ≡ map message_of own) × (more : List Message) × (input ≡ message_of m ∷ more)

take-rest :
    (n : ℕ) (xs : List ChainMessageRecord)
    → (rest : List Message) × (map message_of (take n xs) ++ rest ≡ map message_of xs)
take-rest zero xs = (map message_of xs, refl)
take-rest (suc n) [] = ([], refl)
take-rest (suc n) (x ∷ xs) = let (rest, e) = take-rest n xs in (rest, ap (λ l. message_of x ∷ l) e)

take-Begins :
    (n : ℕ) (m : ChainMessageRecord) (own : List ChainMessageRecord)
    → is_outside n (m ∷ own) ≡ false
    → (rest : List Message) × Begins m (m ∷ own) (messages_from_records (take n (m ∷ own))) rest
unfolding messages_from_records
take-Begins zero m own e = cc
take-Begins (suc n) m own e =
    let (rest, same) = take-rest n own in (rest, (ap (λ l. message_of m ∷ l) same, _, refl))

-- A preview of a run whose messages are these.
abbrev pub Previews : ChainRunRecord → List ChainMessageRecord → ForkPreview → Type 0
Previews run messages preview =
    (before : List ChainMessageRecord) × (m : ChainMessageRecord) × (after : List
      ChainMessageRecord)
    × (rest : List Message) × Cut run.id messages before m after
    × (preview.history ≡ map message_of before)
    × Begins m (run_messages run.id (m ∷ after)) preview.input rest

-- The same of a preview that has not been denied.
abbrev pub PreviewsIf : ChainRunRecord → List ChainMessageRecord → Outcome ForkPreview → Type 0
PreviewsIf run messages (done preview) = Previews run messages preview
PreviewsIf run messages (denied e) = Unit

regenerated-PreviewsIf :
    (payload : RunRegenerateRequest) (run : ChainRunRecord) (info : ChainRecord)
    (messages own : List ChainMessageRecord) (count : ℕ)
    → run_messages run.id messages ≡ own
    → PreviewsIf run messages (regenerated payload run info messages own count)
unfolding regenerated messages_from_records
regenerated-PreviewsIf payload run info messages [] count e = tt
regenerated-PreviewsIf payload run info messages (m ∷ own) count e =
    elim (Bool-cases (is_outside count (m ∷ own))) [
      | inl outside ↦ rw (outside, regenerated) tt
      | inr inside ↦
          let (after, cut, same) = run_messages-Cut run.id messages m own e in
          let (rest, begins) = take-Begins count m own inside in
          rw (inside, regenerated)
            (before_run run.id messages, m, after, rest, cut, refl, rw same begins)
    ]

-- What an authorized preview of a completed run is.
abbrev pub Authorized : Principal → ChainRunRecord → HotChain → MemoryStore → ForkPreview → Type 0
Authorized p run c s preview =
    (authorize_chain_mutation c p ≡ none)
    × (run.status ≡ run_completed)
    × (messages : List ChainMessageRecord) × (list_chain_messages run.chain_id s ≡ some messages)
    × Previews run messages preview

is_completed_iff : (status : RunStatus) → is_completed status ≡ true → status ≡ run_completed
unfolding is_completed
is_completed_iff run_completed e = refl
is_completed_iff _ e = cc

module _ (int_of : String → ℕ) where
  preview_messages-Previews :
      (payload : RunRegenerateRequest) (run : ChainRunRecord) (c : HotChain)
      (found : Option (List ChainMessageRecord)) (preview : ForkPreview)
      → preview_messages int_of payload run c found ≡ done preview
      → (messages : List ChainMessageRecord) × (found ≡ some messages)
        × Previews run messages preview
  unfolding preview_messages
  preview_messages-Previews payload run c none preview h = cc
  preview_messages-Previews payload run c (some messages) preview h = (
    messages,
    refl,
    subst (PreviewsIf run messages) h
        (regenerated-PreviewsIf payload run c.info messages (run_messages run.id messages) _ refl),
  )

  pub preview_run-Authorized :
      (p : Principal) (payload : RunRegenerateRequest) (run : ChainRunRecord) (c : HotChain)
      (s : MemoryStore) (preview : ForkPreview)
      → preview_run int_of p payload run c s ≡ done preview
      → Authorized p run c s preview
  unfolding preview_run
  preview_run-Authorized p payload run c s preview h =
      elim (Option-cases (authorize_chain_mutation c p)) [
        | inr (e, refused) ↦ cc
        | inl allowed ↦ elim (Bool-cases (is_completed run.status)) [
          | inr unfinished ↦ cc
          | inl completed ↦
              let opened : preview_run int_of p payload run c s
                  ≡ preview_messages int_of payload run c (list_chain_messages run.chain_id s) =
                rw (allowed, completed, preview_run) refl in
              let (messages, listed_there, previews) =
                preview_messages-Previews payload run c (list_chain_messages run.chain_id s) preview
                  (sym opened ∙ h) in
              (allowed, is_completed_iff run.status completed, messages, listed_there, previews)
        ]
      ]
