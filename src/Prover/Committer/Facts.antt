-- ===== src/Prover/Committer/Facts.antt =====
-- The database that create_facts_db_from_storage_proof (crates/starknet-transaction-prover-wasm/src/
-- running/committer_utils.rs) builds holds every node that the proof names, with its children.
use snip_36_prover_web.Prelude.{
  ℕ, List, [], ◌∷◌, none, ◌≡◌, ◌≢◌, ◌⊎◌, inl, inr, refl, sym, ap, ◌∙◌, arith,
}
use snip_36_prover_web.Prelude.Result.{Result, ok, >>=-parts, ok_injective}
use snip_36_prover_web.Prelude.Maps.{Map, Eq, get, insert, get-insert, get-insert_self, nat_key}
use snip_36_prover_web.Prover.Errors.{ProverError}
use snip_36_prover_web.Prover.Committer.{
  MerkleNode, insert_leaf_node, insert_leaves, or_insert, for_each,
}

module _ {K V : Type 0} ⦃eq_key : Eq K⦄ where
  abbrev pub Has : Map K V → K → Type 0
  Has db k = get k db ≢ none

  pub Has-insert : (k j : K) (v : V) (db : Map K V) → Has db k → Has (insert j v db) k
  Has-insert k j v db h e = ground (arith, get-insert j k v db, h)

  -- What is stored stays.
  unfoldable pub Keeps : Map K V → Map K V → K → Type 0
  Keeps db db' k = (get k db ≡ none) ⊎ (get k db' ≡ get k db)

  pub Keeps-refl : (db : Map K V) (k : K) → Keeps db db k
  unfolding Keeps
  Keeps-refl db k = inr refl

  pub Has-Keeps : (db db' : Map K V) (k : K) → Keeps db db' k → Has db k → Has db' k
  unfolding Keeps
  Has-Keeps db db' k (inl e) h = absurd (h e)
  Has-Keeps db db' k (inr e) h = λ n. h (sym e ∙ n)

  pub Keeps-trans : (a b c : Map K V) (k : K) → Keeps a b k → Keeps b c k → Keeps a c k
  unfolding Keeps
  Keeps-trans a b c k h g = ground arith

  pub Keeps-or_insert : (j k : K) (v : V) (db : Map K V) → Keeps db (or_insert j v db) k
  unfolding Keeps or_insert
  Keeps-or_insert j k v db = ground (arith, get-insert j k v db, eq_key.beq_iff j k)

  pub Has-or_insert : (j : K) (v : V) (db : Map K V) → Has (or_insert j v db) j
  unfolding or_insert
  Has-or_insert j v db = ground (arith, get-insert_self j v db)

  pub Has-insert_leaves :
      (leaves : List (Result ProverError (K × V))) (db db' : Map K V) (k : K)
      → insert_leaves db leaves ≡ ok db'
      → Has db k
      → Has db' k
  unfolding insert_leaves insert_leaf_node
  Has-insert_leaves [] db db' k e h = λ n. h (ap (get k) (ok_injective e) ∙ n)
  Has-insert_leaves (leaf ∷ rest) db db' k e h =
      >>=-parts (insert_leaf_node db leaf) _ e λ out p e1. >>=-parts leaf _ p λ kv q e2.
        Has-insert_leaves rest out db' k e1
          (λ n. Has-insert k kv.0 kv.1 db h (ap (get k) (ok_injective e2) ∙ n))

  -- What a step keeps or adds for each trie, the loop over the tries has at its end.
  pub Has-for_each :
      (f : Map K V → Map ℕ MerkleNode → Result ProverError (Map K V))
      → ((db db' : Map K V) (nodes : Map ℕ MerkleNode) (k : K)
          → f db nodes ≡ ok db'
          → Has db k
          → Has db' k)
      → (tries : List (Map ℕ MerkleNode)) (db db' : Map K V) (k : K) → for_each f db tries ≡ ok db'
      → Has db k
      → Has db' k
  unfolding for_each
  Has-for_each f g [] db db' k e h = λ n. h (ap (get k) (ok_injective e) ∙ n)
  Has-for_each f g (nodes ∷ rest) db db' k e h =
      >>=-parts (f db nodes) _ e
        λ out p e1. Has-for_each f g rest out db' k e1 (g db out nodes k p h)
