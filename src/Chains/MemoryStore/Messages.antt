-- ===== src/Chains/MemoryStore/Messages.antt =====
-- pkg/gateway/chains/clone_helpers.go: buildChainMessageRecords, and the %d of its ids.
use vai_gateway.Prelude.{
  ℕ, zero, suc, ◌+◌, ◌/◌, ◌%◌, String, ◌<>◌, List, [], ◌∷◌, ltb, ◌==◌, numbers_comparable,
  if◌then◌else◌,
}
use vai_gateway.Types.{Message}
use vai_gateway.Chains.MemoryStore.Records.{ChainMessageRecord}

-- A number of one digit.
unfoldable pub digit : ℕ → String
digit zero = "0"
digit (suc zero) = "1"
digit (suc (suc zero)) = "2"
digit (suc (suc (suc zero))) = "3"
digit (suc (suc (suc (suc zero)))) = "4"
digit (suc (suc (suc (suc (suc zero))))) = "5"
digit (suc (suc (suc (suc (suc (suc zero)))))) = "6"
digit (suc (suc (suc (suc (suc (suc (suc zero))))))) = "7"
digit (suc (suc (suc (suc (suc (suc (suc (suc zero)))))))) = "8"
digit _ = "9"

-- The decimal digits of a number below 10 ^ fuel.
unfoldable pub digits : ℕ → ℕ → String
digits zero n = ""
digits (suc fuel) n =
    let rest = digits fuel (n / 10) in if ltb n 10 then digit n else rest <> digit (n % 10)

-- %d: a number is below 10 to its own power.
unfoldable pub decimal : ℕ → String
decimal n = digits (n + 1) n

unfoldable pub message_id : String → ℕ → String
message_id chain_id n = chain_id <> "_msg_" <> decimal n

-- The loop of buildChainMessageRecords, after its test for a zero time.
unfoldable pub build_records :
    (chain_id run_id : String) → List Message → ℕ → ℕ → List ChainMessageRecord
build_records chain_id run_id [] offset at = []
build_records chain_id run_id (m ∷ ms) offset at =
    record {
      id = message_id chain_id (offset + 1);
      chain_id = chain_id;
      run_id = run_id;
      role = m.role;
      sequence_in_chain = offset + 1;
      content = m.content;
      created_at = at;
    }
    ∷ build_records chain_id run_id ms (offset + 1) at

unfoldable pub build_chain_message_records :
    (now : ℕ) → (chain_id run_id : String) → List Message → ℕ → ℕ → List ChainMessageRecord
build_chain_message_records now chain_id run_id ms offset created_at =
    build_records chain_id run_id ms offset (if created_at == 0 then now else created_at)
