-- ===== src/Chains/Replay.antt =====
-- pkg/gateway/chains/manager.go: hotChain.bufferAndEmit and hotChain.replayAfter, the buffer of
-- events that a reconnecting client is sent again. `marshal` is json.Marshal and `unmarshal` is
-- UnmarshalChainServerEventStrict, each `none` on an error. Event ids do not pass 2^63.
pub mod Bounds
pub mod Exact
pub mod Emission
mod Tests
use vai_gateway.Prelude.{
  ℕ, zero, suc, ◌+◌, ◌-◌, Bool, ◌||◌, Option, none, some, List, [], ◌∷◌, ◌++◌, ltb, length,
  if◌then◌else◌,
}
use vai_gateway.Chains.Model.{
  ReplayStatus, full, partial, none_replayed, ChainError, canonical_error, chain_replay_unavailable,
  EventBody, ServerEvent, ReplayEntry, HotChain, ManagerConfig,
}

-- The loop that drops the oldest entries while there are too many or they are too long; `none` is
-- the panic of a read of the first entry of an empty buffer.
unfoldable pub trim : ManagerConfig → List ReplayEntry → ℕ → Option (List ReplayEntry × ℕ)
trim cfg [] bytes =
    if ltb cfg.replay_event_limit 0 || ltb cfg.replay_byte_limit bytes
    then none
    else some ([], bytes)
trim cfg (e ∷ es) bytes =
    let rest = trim cfg es (bytes - length e.bytes) in
    if ltb cfg.replay_event_limit (length (e ∷ es)) || ltb cfg.replay_byte_limit bytes
    then rest
    else some (e ∷ es, bytes)

-- The locked section of bufferAndEmit, for an event that has been marshalled.
unfoldable pub buffer : ManagerConfig → ServerEvent → List ℕ → HotChain → Option HotChain
buffer cfg event bytes c =
    let entry : ReplayEntry = record { event_id = event.event_id; bytes = bytes } in
    elim (trim cfg (c.replay ++ entry ∷ []) (c.replay_bytes + length bytes)) [
      | none ↦ none
      | some (replay, total) ↦ some (record c { replay = replay; replay_bytes = total })
    ]

-- The event that takes the next id.
unfoldable pub next_event : EventBody → HotChain → ServerEvent
next_event body c = record {
  event_id = c.next_event_id + 1;
  chain_version = c.info.chain_version;
  chain_id = c.info.id;
  body = body;
}

-- What the two steps of an emission leave: the next id is taken, and the event is buffered under
-- it. A marshalling error keeps the id.
unfoldable pub emit_event :
    (ServerEvent → Option (List ℕ)) → ManagerConfig → EventBody → HotChain → Option HotChain
emit_event marshal cfg body c =
    let event = next_event body c in
    let c' = record c { next_event_id = c.next_event_id + 1 } in
    elim (marshal event) [ none ↦ some c' | some bytes ↦ buffer cfg event bytes c' ]

-- The entries from the first one past the id on; `none` if there is no such entry.
unfoldable pub from_after : ℕ → List ReplayEntry → Option (List ReplayEntry)
from_after after [] = none
from_after after (e ∷ es) = if ltb after e.event_id then some (e ∷ es) else from_after after es

-- Entries that do not decode are passed over.
unfoldable pub decode : (List ℕ → Option ServerEvent) → List ReplayEntry → List ServerEvent
decode unmarshal [] = []
decode unmarshal (e ∷ es) = elim (unmarshal e.bytes) [
  | none ↦ decode unmarshal es
  | some event ↦ event ∷ decode unmarshal es
]

pub data Replayed : Type 0 where
  unavailable : ChainError → Replayed
  replayed : ReplayStatus → List ServerEvent → Replayed

-- An exact replay is refused, any other goes on without the events.
refuse : Bool → ReplayStatus → Replayed
refuse require_exact status =
    if require_exact
    then unavailable (canonical_error chain_replay_unavailable "exact replay is unavailable")
    else replayed status []

replay_from :
    (List ℕ → Option ServerEvent) → ℕ → Bool → ReplayEntry → Option (List ReplayEntry) → Replayed
unfolding refuse
replay_from unmarshal after require_exact first none = replayed none_replayed []
replay_from unmarshal after require_exact first (some entries) =
    if ltb (after + 1) first.event_id
    then refuse require_exact partial
    else replayed full (decode unmarshal entries)

replay_entries : (List ℕ → Option ServerEvent) → ℕ → Bool → List ReplayEntry → Replayed
unfolding replay_from refuse
replay_entries unmarshal after require_exact [] = refuse require_exact none_replayed
replay_entries unmarshal after require_exact (e ∷ es) =
    replay_from unmarshal after require_exact e (from_after after (e ∷ es))

-- replayAfter; an id of 0 or less is 0 here, and asks for nothing.
unfoldable pub replay_after : (List ℕ → Option ServerEvent) → ℕ → Bool → HotChain → Replayed
unfolding replay_entries
replay_after unmarshal zero require_exact c = replayed none_replayed []
replay_after unmarshal (suc n) require_exact c =
    replay_entries unmarshal (suc n) require_exact c.replay
