-- ===== src/Chains/Branch/Regenerated.antt =====
-- What the regeneration of a run makes.
use vai_gateway.Prelude.{
  ℕ, ◌≡◌, refl, sym, ap, subst, ◌∙◌, String, Option, none, some, ◌==◌, texts_comparable,
  if◌then◌else◌,
}
use vai_gateway.Chains.Model.{Principal, HotChain, ChainRecord}
use vai_gateway.Chains.Access.{Outcome, done, denied}
use vai_gateway.Chains.MemoryStore.Records.{ChainRunRecord, MemoryStore}
use vai_gateway.Chains.MemoryStore.{get_chain, get_run, get_idempotency}
use vai_gateway.Chains.Branch.{
  FreshFork, ForkCall, ChainForkResponse, forked_record, create_forked_chain, fork_once, scope_of,
  regenerate_run,
}
use vai_gateway.Chains.Branch.Loading.{Registry, require_chain}
use vai_gateway.Chains.Branch.Preview.{
  ForkPreview, RunRegenerateRequest, preview_found, preview_run, preview_run_found,
  preview_regenerate_run,
}
use vai_gateway.Chains.Branch.Created.{
  Held, require_chain-Held, create_forked_chain-forked, get_chain-forked,
}
use vai_gateway.Chains.Branch.Again.{with_key-done, fork_previewed-done}
use vai_gateway.Chains.Branch.Cut.{Authorized, preview_run-Authorized}

preview_found-some :
    (g : Registry) (preview_of : HotChain → MemoryStore → Outcome ForkPreview)
    (found : Option (HotChain × Registry)) (preview : ForkPreview)
    → (preview_found g preview_of found).0 ≡ done preview
    → (c : HotChain) × (found ≡ some (c, (preview_found g preview_of found).1))
      × (preview_of c (preview_found g preview_of found).1.store ≡ done preview)
unfolding preview_found
preview_found-some g preview_of none preview h = cc
preview_found-some g preview_of (some (c, g')) preview h = (c, refl, h)

-- The run that a preview is of, and its chain.
abbrev Regenerates : Principal → String → Registry → Registry → ForkPreview → Type 0
Regenerates p run_id g g1 preview =
    (run : ChainRunRecord) × (source : HotChain) × (get_run run_id g.store ≡ some run)
    × (require_chain run.chain_id g ≡ some (source, g1))
    × Authorized p run source g1.store preview

module _ (int_of : String → ℕ) where
  preview_run_found-Regenerates :
      (p : Principal) (run_id : String) (payload : RunRegenerateRequest) (g : Registry)
      (found : Option ChainRunRecord) (preview : ForkPreview)
      → get_run run_id g.store ≡ found
      → (preview_run_found int_of p payload g found).0 ≡ done preview
      → Regenerates p run_id g (preview_run_found int_of p payload g found).1 preview
  unfolding preview_run_found
  preview_run_found-Regenerates p run_id payload g none preview e h = cc
  preview_run_found-Regenerates p run_id payload g (some run) preview e h =
      let (c, found, shown) =
        preview_found-some g (preview_run int_of p payload run) (require_chain run.chain_id g)
          preview h in
      (run, c, e, found, preview_run-Authorized int_of p payload run c _ preview shown)

-- The chain that regenerates a run, out of the messages of the run's chain before its first one.
abbrev pub Forks : (j : String) → Registry → ForkPreview → ChainForkResponse → Registry → Type 0
Forks j g preview resp g' =
    (resp.input ≡ preview.input)
    × (info : ChainRecord) × (get_chain j g'.store
        ≡ (if resp.chain_id == j then some (info, preview.history) else get_chain j g.store))

-- The same of an outcome that is not denied.
abbrev ForksIf :
    (j : String) → Registry → ForkPreview → Outcome ChainForkResponse × Registry → Type 0
ForksIf j g preview (done resp, g') = Forks j g preview resp g'
ForksIf j g preview (denied e, g') = Unit

create_forked_chain-ForksIf :
    (j : String) (p : Principal) (preview : ForkPreview) (call : ForkCall) (fresh : FreshFork)
    (g : Registry)
    → ForksIf j g preview (create_forked_chain p preview call fresh g)
create_forked_chain-ForksIf j p preview call fresh g =
    subst (ForksIf j g preview) (sym (create_forked_chain-forked p preview call fresh g))
      (refl, forked_record p preview fresh, get_chain-forked p preview call fresh g j)

Forks-same :
    (j : String) (g g1 : Registry) (preview : ForkPreview) (resp : ChainForkResponse)
    (g' : Registry)
    → g1.store ≡ g.store
    → Forks j g1 preview resp g'
    → Forks j g preview resp g'
Forks-same j g g1 preview resp g' same (input, info, stored) = (input, info, rw (sym same) stored)

-- A run is regenerated under a new key only if it is completed and the principal may change its
-- chain. The new chain is stored with the messages of that chain before the first one of the run as
-- its history; the answer's input is some of the messages of the run, from the first one on. Every
-- other id has in the store the chain and the history that it had.
pub regenerate_run-Forks :
    (int_of : String → ℕ) (hash : RunRegenerateRequest → String) (fresh : FreshFork) (p : Principal)
    (run_id : String) (payload : RunRegenerateRequest) (key : String) (g g' : Registry)
    (resp : ChainForkResponse) (j : String)
    → ((chain_id : String)
        → get_idempotency fresh.now (scope_of p chain_id "run.regenerate" key) g.store ≡ none)
    → regenerate_run int_of hash fresh p run_id payload key g ≡ (done resp, g')
    → (run : ChainRunRecord) × (source : HotChain) × (g1 : Registry) × (preview : ForkPreview)
      × (get_run run_id g.store ≡ some run)
      × (require_chain run.chain_id g ≡ some (source, g1))
      × Authorized p run source g.store preview
      × Forks j g preview resp g'
unfolding regenerate_run preview_regenerate_run fork_once
regenerate_run-Forks int_of hash fresh p run_id payload key g g' resp j new forks =
    let call_of : ForkPreview → ForkCall = λ preview. record {
      scope = scope_of p preview.source_chain.id "run.regenerate" key;
      request_hash = hash payload;
    } in
    let x = preview_regenerate_run int_of p run_id payload g in
    let (given, previews) = with_key-done key g _ resp g' forks in
    let (preview, shown, once) = fork_previewed-done p call_of fresh x resp g' previews in
    let (run, source, found, required, authorized) =
      preview_run_found-Regenerates int_of p run_id payload g (get_run run_id g.store) preview refl
        shown in
    let same = (subst (Held run.chain_id g) required (require_chain-Held run.chain_id g)).1 in
    let call = call_of preview in
    let none_there : get_idempotency fresh.now call.scope x.1.store ≡ none =
      ap (get_idempotency fresh.now call.scope) same ∙ new preview.source_chain.id in
    let made : create_forked_chain p preview call fresh x.1 ≡ (done resp, g') =
      ap (fork_once p preview call fresh x.1) (sym none_there) ∙ once in
    let made_here : Forks j x.1 preview resp g' =
      subst (ForksIf j x.1 preview) made (create_forked_chain-ForksIf j p preview call fresh x.1) in
    (
      run,
      source,
      x.1,
      preview,
      found,
      required,
      subst (λ s. Authorized p run source s preview) same authorized,
      Forks-same j g x.1 preview resp g' same made_here,
    )
