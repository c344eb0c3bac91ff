-- ===== src/Chains/Replay/Tests.antt =====
-- A chain whose buffer holds two events, and a client that reconnects to it.
use vai_gateway.Prelude.{
  ℕ, zero, suc, ◌≡◌, refl, ◌==◌, numbers_comparable, texts_comparable, if◌then◌else◌, true, Option,
  none, some, List, [], ◌∷◌, ◌++◌, arith,
}
use vai_gateway.Chains.Model.{
  full, chain_started, idle, no_defaults, ServerEvent, HotChain, ManagerConfig,
}
use vai_gateway.Chains.Replay.{buffer, next_event, emit_event, replay_after, replayed}
use vai_gateway.Chains.Replay.Bounds.{IsCounted, Trimmed, buffer-Trimmed, total_bytes}
use vai_gateway.Chains.Replay.Exact.{History, replay_after-answer}
use vai_gateway.Chains.Replay.Emission.{Emitted, entries, entry_of, emit_event-Emitted}

abbrev event : ℕ → ServerEvent
event i = record {
  event_id = i;
  chain_version = 1;
  chain_id = "chain_1";
  body = chain_started "token";
}

-- The bytes of an event are as many as its id.
abbrev bytes_of : ℕ → List ℕ
bytes_of zero = []
bytes_of (suc i) = 0 ∷ bytes_of i

abbrev id_of : List ℕ → ℕ
id_of [] = 0
id_of (b ∷ bs) = suc (id_of bs)

abbrev unmarshal : List ℕ → Option ServerEvent
unmarshal bytes = some (event (id_of bytes))

abbrev chain : HotChain
chain = record {
  info = record {
    id = "chain_1";
    org_id = "org";
    session_id = "";
    external_session_id = "";
    parent_chain_id = "";
    forked_from_run_id = "";
    created_by_principal_id = "p";
    created_by_principal_type = "key";
    actor_id = "";
    status = idle;
    chain_version = 1;
    message_count_cached = 0;
    defaults = record no_defaults { model = "m" };
    metadata = none;
    active_attachment = none;
    created_at = 0;
    updated_at = 0;
  };
  history = [];
  replay =
      record { event_id = 2; bytes = bytes_of 2 }
      ∷ record { event_id = 3; bytes = bytes_of 3 }
      ∷ [];
  replay_bytes = 5;
  next_event_id = 3;
  org_id = "org";
  actor_id = "";
  resume_token_hash = "hash";
  writer = none;
  active_run = none;
}

abbrev config : ManagerConfig
config = record { replay_event_limit = 2; replay_byte_limit = 100 }

abbrev log : List ServerEvent
log = event 1 ∷ event 2 ∷ event 3 ∷ []

counted : IsCounted chain
unfolding total_bytes
counted = refl

buffer-Trimmed_example :
    (c' : HotChain) × (buffer config (event 4) (bytes_of 4) chain ≡ some c')
    × IsCounted c'
    × Trimmed config
        (chain.replay ++ record { event_id = 4; bytes = bytes_of 4 } ∷ [])
        (c'.replay, c'.replay_bytes)
buffer-Trimmed_example = buffer-Trimmed config (event 4) (bytes_of 4) chain counted

tracked : History unmarshal chain log
tracked = record {
  lost = event 1 ∷ [];
  kept = event 2 ∷ event 3 ∷ [];
  split = refl;
  numbered = (refl, (refl, tt));
  encodes = (refl, refl, (refl, refl, tt));
  last = refl;
  counted = counted;
}

replay_after-answer_example : replay_after unmarshal 2 true chain ≡ replayed full (event 3 ∷ [])
replay_after-answer_example =
    replay_after-answer unmarshal 2 true chain log tracked (omega arith) (omega arith)

-- A marshaller that fails for every event of another chain.
abbrev marshal : ServerEvent → Option (List ℕ)
marshal v = if v.chain_id == "chain_1" then some (bytes_of v.event_id) else none

emitted : Emitted marshal chain log
unfolding entries entry_of
emitted = record {
  numbered = (refl, (refl, (refl, tt)));
  last = refl;
  dropped = 1;
  held = refl;
  counted = counted;
}

emit_event-Emitted_example :
    (c' : HotChain) × (emit_event marshal config (chain_started "token") chain ≡ some c')
    × Emitted marshal c' (log ++ next_event (chain_started "token") chain ∷ [])
emit_event-Emitted_example =
    emit_event-Emitted marshal config (chain_started "token") chain log emitted
