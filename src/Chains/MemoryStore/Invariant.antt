-- ===== src/Chains/MemoryStore/Invariant.antt =====
-- What holds of every store that writes can reach: the stored messages describe the history, the
-- ids that one map keeps for another are keys of it, and records stand under their own ids.
use vai_gateway.Prelude.{
  ℕ, ◌+◌, ◌≡◌, refl, ap, subst, String, true, ◌||◌, inl, inr, some, List, [], ◌∷◌, ◌++◌, length,
  Bool-cases, ◌==◌, texts_comparable, eq_iff, arith, if◌then◌else◌,
}
use vai_gateway.Prelude.Assoc.{Assoc, lookup, insert, lookup-insert, lookup-insert_self}
use vai_gateway.Types.{Message}
use vai_gateway.Chains.MemoryStore.{listed, contains}
use vai_gateway.Chains.MemoryStore.Records.{ChainMessageRecord, ChainRunRecord, MemoryStore}
use vai_gateway.Chains.MemoryStore.Messages.{message_id, build_records}
use vai_gateway.Chains.Model.{ChainRecord}

-- The records are those of the messages, numbered in their order, the first after `offset`.
abbrev pub Describes : String → ℕ → List Message → List ChainMessageRecord → Type 0
Describes id offset [] [] = Unit
Describes id offset (m ∷ ms) (r ∷ rs) =
    (r.id ≡ message_id id (offset + 1))
    × (r.chain_id ≡ id)
    × (r.sequence_in_chain ≡ offset + 1)
    × (r.role ≡ m.role)
    × (r.content ≡ m.content)
    × Describes id (offset + 1) ms rs
Describes id offset _ _ = ⊥

pub length-Describes :
    (id : String) (offset : ℕ) (ms : List Message) (rs : List ChainMessageRecord)
    → Describes id offset ms rs
    → length rs ≡ length ms
length-Describes id offset [] [] d = refl
length-Describes id offset (m ∷ ms) (r ∷ rs) (_, _, _, _, _, d) =
    omega (arith, length-Describes id (offset + 1) ms rs d)
length-Describes id offset [] (r ∷ rs) d = absurd d
length-Describes id offset (m ∷ ms) [] d = absurd d

pub build_records-Describes :
    (id run_id : String) (ms : List Message) (offset at : ℕ)
    → Describes id offset ms (build_records id run_id ms offset at)
unfolding build_records
build_records-Describes id run_id [] offset at = tt
build_records-Describes id run_id (m ∷ ms) offset at =
    (refl, refl, refl, refl, refl, build_records-Describes id run_id ms (offset + 1) at)

pub Describes-append :
    (id : String) (offset : ℕ) (ms more : List Message) (rs added : List ChainMessageRecord)
    → Describes id offset ms rs
    → Describes id (offset + length ms) more added
    → Describes id offset (ms ++ more) (rs ++ added)
Describes-append id offset [] more [] added d e =
    let same : offset + length {A = Message} [] ≡ offset = omega arith in
    subst (λ n. Describes id n more added) same e
Describes-append id offset (m ∷ ms) more (r ∷ rs) added (a, b, c, x, y, d) e =
    let same : offset + length (m ∷ ms) ≡ offset + 1 + length ms = omega arith in
    (
      a,
      b,
      c,
      x,
      y,
      Describes-append id (offset + 1) ms more rs added d
          (subst (λ n. Describes id n more added) same e),
    )
Describes-append id offset [] more (r ∷ rs) added d e = absurd d
Describes-append id offset (m ∷ ms) more [] added d e = absurd d

abbrev pub Described : Assoc (List Message) → Assoc (List ChainMessageRecord) → Type 0
Described h r = (id : String) → Describes id 0 (listed id h) (listed id r)

pub listed-insert {ℓ} :
    {A : Type ℓ} (k j : String) (xs : List A) (m : Assoc (List A))
    → listed j (insert k xs m) ≡ (if k == j then xs else listed j m)
unfolding listed
listed-insert k j xs m = ground (arith, lookup-insert k j xs m)

pub Described-insert :
    (id : String) (ms : List Message) (rs : List ChainMessageRecord) (h : Assoc (List Message))
    (r : Assoc (List ChainMessageRecord))
    → Describes id 0 ms rs
    → Described h r
    → Described (insert id ms h) (insert id rs r)
Described-insert id ms rs h r d all j = elim (Bool-cases (id == j)) [
  | inl same ↦
      let there : id ≡ j = (eq_iff id j).0 same in
      rw (listed-insert id j ms h, listed-insert id j rs r, same)
        (subst (λ k. Describes k 0 ms rs) there d)
  | inr other ↦ rw (listed-insert id j ms h, listed-insert id j rs r, other) (all j)
]

module _ {ℓ} {A : Type ℓ} where
  abbrev pub Known : Assoc A → String → Type ℓ
  Known m id = (a : A) × (lookup id m ≡ some a)

  pub Known-insert : (m : Assoc A) (k id : String) (v : A) → Known m id → Known (insert k v m) id
  Known-insert m k id v (a, found) = elim (Bool-cases (k == id)) [
    | inl same ↦ (v, rw (lookup-insert, same) refl)
    | inr other ↦ (a, rw (lookup-insert, other) found)
  ]

  pub Known-insert_self : (m : Assoc A) (k : String) (v : A) → Known (insert k v m) k
  Known-insert_self m k v = (v, lookup-insert_self k v m)

  -- Every id of the lists is a key of the map.
  abbrev pub Named : Assoc (List String) → Assoc A → Type ℓ
  Named names m = (k id : String) → contains (listed k names) id ≡ true → Known m id

  abbrev pub Pointed : Assoc String → Assoc A → Type ℓ
  Pointed names m = (k id : String) → lookup k names ≡ some id → Known m id

contains-append :
    (xs : List String) (x y : String) → contains (xs ++ x ∷ []) y ≡ (contains xs y || x == y)
unfolding contains
contains-append [] x y = ground arith
contains-append (z ∷ zs) x y = ground (arith, contains-append zs x y)

module _ {ℓ} {A : Type ℓ} where
  pub Named-mono :
      (names : Assoc (List String)) (m m' : Assoc A)
      → ((id : String) → Known m id → Known m' id)
      → Named names m
      → Named names m'
  Named-mono names m m' keep named k id there = keep id (named k id there)

  pub Pointed-mono :
      (names : Assoc String) (m m' : Assoc A)
      → ((id : String) → Known m id → Known m' id)
      → Pointed names m
      → Pointed names m'
  Pointed-mono names m m' keep pointed k id there = keep id (pointed k id there)

  -- One more id is put on the list of a key.
  pub Named-add :
      (k id : String) (names : Assoc (List String)) (m : Assoc A)
      → Known m id
      → Named names m
      → Named (insert k (listed k names ++ id ∷ []) names) m
  Named-add k id names m known named j i there = elim (Bool-cases (id == i)) [
    | inl same ↦ subst (λ x. Known m x) ((eq_iff id i).0 same) known
    | inr other ↦ named j i (
        ground (
          arith,
          listed-insert k j (listed k names ++ id ∷ []) names,
          contains-append (listed k names) id i,
          eq_iff k j,
        ))
  ]

  pub Pointed-insert :
      (k id : String) (names : Assoc String) (m : Assoc A)
      → Known m id
      → Pointed names m
      → Pointed (insert k id names) m
  Pointed-insert k id names m known pointed j i there = elim (Bool-cases (k == j)) [
    | inl same ↦
        let this : id ≡ i = ground (arith, lookup-insert k j id names) in
        subst (λ x. Known m x) this known
    | inr other ↦ pointed j i (ground (arith, lookup-insert k j id names))
  ]

  -- Records stand under their own ids.
  abbrev pub Keyed : (A → String) → Assoc A → Type ℓ
  Keyed id_of m = (k : String) (a : A) → lookup k m ≡ some a → id_of a ≡ k

  pub Keyed-insert :
      (id_of : A → String) (k : String) (a : A) (m : Assoc A)
      → id_of a ≡ k
      → Keyed id_of m
      → Keyed id_of (insert k a m)
  Keyed-insert id_of k a m own keyed j b found = elim (Bool-cases (k == j)) [
    | inl same ↦
        let this : a ≡ b = ground (arith, lookup-insert k j a m) in
        cc (ap id_of this, own, (eq_iff k j).0 same)
    | inr other ↦ keyed j b (ground (arith, lookup-insert k j a m))
  ]

abbrev pub id_of_chain : ChainRecord → String
id_of_chain c = c.id

abbrev pub id_of_run : ChainRunRecord → String
id_of_run r = r.id

-- The stored messages describe the history of their chain; the chains of a session, the runs of a
-- chain and the session of an external id are stored; chains and runs stand under their own ids.
pub record Consistent (s : MemoryStore) : Type 0 where
  pub described : Described s.chain_history s.chain_messages
  pub linked : Named s.session_chains s.chains
  pub started : Named s.chain_runs s.runs
  pub external : Pointed s.session_by_external s.sessions
  pub chains : Keyed id_of_chain s.chains
  pub runs : Keyed id_of_run s.runs
