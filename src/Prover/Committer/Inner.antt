-- ===== src/Prover/Committer/Inner.antt =====
-- The nodes that insert_inner_nodes and add_dummy_nodes_for_orphan_hashes (crates/
-- starknet-transaction-prover-wasm/src/running/committer_utils.rs) leave in the database.
use mathlib.Core.Path.{subst}
use snip_36_prover_web.Prelude.{
  All-weaken, ℕ, List, [], ◌∷◌, ◌++◌, map, some, All, ◌≡◌, inl, inr, ap, ◌∙◌, arith, Option-cases,
  Bool-cases, ◌==◌, ==_iff,
}
use snip_36_prover_web.Prelude.Result.{ok, >>=-parts, ok_injective}
use snip_36_prover_web.Prelude.Maps.{Map, Eq, get, insert, get-insert_self, nat_key}
use snip_36_prover_web.Prover.Committer.{
  MerkleNode, binary, edge, FactsLib, insert_inner_nodes, add_dummy_node_for_orphan_child,
  add_dummies, add_dummy_nodes_for_orphan_hashes,
}
use snip_36_prover_web.Prover.Committer.Facts.{
  Has, Has-insert, Has-Keeps, Keeps, Keeps-or_insert, Keeps-trans, Keeps-refl, Has-or_insert,
}

-- The hashes under a node, and those under all nodes of a trie.
unfoldable pub children : MerkleNode → List ℕ
children (binary left right) = left ∷ right ∷ []
children (edge path len child) = child ∷ []

unfoldable pub children_of : Map ℕ MerkleNode → List ℕ
children_of [] = []
children_of ((_, node) ∷ rest) = children node ++ children_of rest

abbrev pub hashes_of : Map ℕ MerkleNode → List ℕ
hashes_of = map λ e. e.0

member_of_get {ℓ} :
    (P : ℕ → Type ℓ) (child : ℕ) (nodes : Map ℕ MerkleNode) (node : MerkleNode)
    → get child nodes ≡ some node
    → All P (hashes_of nodes)
    → P child
unfolding get
member_of_get P child [] node e h = absurd cc
member_of_get P child ((hash, n) ∷ rest) node e h = elim (Bool-cases (hash == child)) [
  | inl same ↦ subst P ((==_iff hash child).0 same) h.0
  | inr other ↦ member_of_get P child rest node (rw other at e) h.1
]

module _ {K V : Type 0} ⦃eq_key : Eq K⦄ (L : FactsLib K V) where
  abbrev pub HasNode : Map K V → ℕ → Type 0
  HasNode db hash = Has db (L.inner_key hash)

  pub Has-insert_inner_nodes :
      (nodes : Map ℕ MerkleNode) (db db' : Map K V) (k : K)
      → insert_inner_nodes L db nodes ≡ ok db'
      → Has db k
      → Has db' k
  unfolding insert_inner_nodes
  Has-insert_inner_nodes [] db db' k e h = λ n. h (ap (get k) (ok_injective e) ∙ n)
  Has-insert_inner_nodes ((hash, node) ∷ rest) db db' k e h =
      >>=-parts (L.inner_value hash node) _ e λ value p e1.
        Has-insert_inner_nodes rest (insert (L.inner_key hash) value db) db' k e1
          (Has-insert k (L.inner_key hash) value db h)

  pub inner_nodes-held :
      (nodes : Map ℕ MerkleNode) (db db' : Map K V)
      → insert_inner_nodes L db nodes ≡ ok db'
      → All (HasNode db') (hashes_of nodes)
  unfolding insert_inner_nodes
  inner_nodes-held [] db db' e = tt
  inner_nodes-held ((hash, node) ∷ rest) db db' e =
      >>=-parts (L.inner_value hash node) _ e λ value p e1.
        let db1 = insert (L.inner_key hash) value db in
        (
          Has-insert_inner_nodes rest db1 db' (L.inner_key hash) e1
              (λ n. absurd (cc (get-insert_self (L.inner_key hash) value db, n))),
          inner_nodes-held rest db1 db' e1,
        )

  Keeps-orphan :
      (db : Map K V) (child : ℕ) (nodes : Map ℕ MerkleNode) (dummy : V) (k : K)
      → Keeps db (add_dummy_node_for_orphan_child L db child nodes dummy) k
  unfolding add_dummy_node_for_orphan_child Keeps
  Keeps-orphan db child nodes dummy k =
      ground (arith, Keeps-or_insert (L.inner_key child) k dummy db)

  -- A child is a node of the trie, which is held, or gets a dummy.
  orphan-held :
      (db : Map K V) (child : ℕ) (nodes : Map ℕ MerkleNode) (dummy : V)
      → All (HasNode db) (hashes_of nodes)
      → HasNode (add_dummy_node_for_orphan_child L db child nodes dummy) child
  unfolding add_dummy_node_for_orphan_child
  orphan-held db child nodes dummy h = elim (Option-cases (get child nodes)) [
    | inl orphan ↦
        rw (orphan, add_dummy_node_for_orphan_child) (Has-or_insert (L.inner_key child) dummy db)
    | inr (node, found) ↦
        rw (found, add_dummy_node_for_orphan_child)
          (member_of_get (HasNode db) child nodes node found h)
  ]

  -- Every child of a node of the trie is held once the dummies are added.
  pub Keeps-dummies :
      (rest : Map ℕ MerkleNode) (db : Map K V) (nodes : Map ℕ MerkleNode) (dummy : V) (k : K)
      → Keeps db (add_dummies L db nodes dummy rest) k
  unfolding add_dummies
  Keeps-dummies [] db nodes dummy k = Keeps-refl db k
  Keeps-dummies ((_, binary left right) ∷ rest) db nodes dummy k =
      let db1 = add_dummy_node_for_orphan_child L db left nodes dummy in
      let db2 = add_dummy_node_for_orphan_child L db1 right nodes dummy in
      Keeps-trans db db2 _ k
        (Keeps-trans db db1 db2 k (Keeps-orphan db left nodes dummy k)
          (Keeps-orphan db1 right nodes dummy k))
        (Keeps-dummies rest db2 nodes dummy k)
  Keeps-dummies ((_, edge path len child) ∷ rest) db nodes dummy k =
      let db1 = add_dummy_node_for_orphan_child L db child nodes dummy in
      Keeps-trans db db1 _ k (Keeps-orphan db child nodes dummy k)
        (Keeps-dummies rest db1 nodes dummy k)

  HasNode-kept :
      (db db' : Map K V)
      → ((k : K) → Keeps db db' k)
      → (hs : List ℕ) → All (HasNode db) hs
      → All (HasNode db') hs
  HasNode-kept db db' g =
      All-weaken (HasNode db) (HasNode db')
        (λ c h. Has-Keeps db db' (L.inner_key c) (g (L.inner_key c)) h)

  children-held :
      (rest : Map ℕ MerkleNode) (db : Map K V) (nodes : Map ℕ MerkleNode) (dummy : V)
      → All (HasNode db) (hashes_of nodes)
      → All (HasNode (add_dummies L db nodes dummy rest)) (children_of rest)
  unfolding add_dummies children_of children
  children-held [] db nodes dummy h = tt
  children-held ((_, binary left right) ∷ rest) db nodes dummy h =
      let db1 = add_dummy_node_for_orphan_child L db left nodes dummy in
      let db2 = add_dummy_node_for_orphan_child L db1 right nodes dummy in
      let h1 = HasNode-kept db db1 (Keeps-orphan db left nodes dummy) (hashes_of nodes) h in
      let h2 = HasNode-kept db1 db2 (Keeps-orphan db1 right nodes dummy) (hashes_of nodes) h1 in
      let both : All (HasNode db2) (left ∷ right ∷ []) = (
        Has-Keeps db1 db2 (L.inner_key left) (Keeps-orphan db1 right nodes dummy (L.inner_key left))
            (orphan-held db left nodes dummy h),
        (orphan-held db1 right nodes dummy h1, tt),
      ) in
      let (held_left, (held_right, _)) =
        HasNode-kept db2 _ (Keeps-dummies rest db2 nodes dummy) (left ∷ right ∷ []) both in
      (held_left, (held_right, children-held rest db2 nodes dummy h2))
  children-held ((_, edge path len child) ∷ rest) db nodes dummy h =
      let db1 = add_dummy_node_for_orphan_child L db child nodes dummy in
      let h1 = HasNode-kept db db1 (Keeps-orphan db child nodes dummy) (hashes_of nodes) h in
      (
        Has-Keeps db1 _ (L.inner_key child) (Keeps-dummies rest db1 nodes dummy (L.inner_key child))
            (orphan-held db child nodes dummy h),
        children-held rest db1 nodes dummy h1,
      )

  pub Has-dummy_nodes :
      (db db' : Map K V) (nodes : Map ℕ MerkleNode) (k : K)
      → add_dummy_nodes_for_orphan_hashes L db nodes ≡ ok db'
      → Has db k
      → Has db' k
  unfolding add_dummy_nodes_for_orphan_hashes
  Has-dummy_nodes db db' nodes k e h = >>=-parts (L.inner_value 0 (binary 0 0)) _ e λ dummy p e1.
      let kept = Has-Keeps db _ k (Keeps-dummies nodes db nodes dummy k) h in
      λ n. kept (ap (get k) (ok_injective e1) ∙ n)

  pub dummy_nodes-held :
      (db db' : Map K V) (nodes : Map ℕ MerkleNode)
      → add_dummy_nodes_for_orphan_hashes L db nodes ≡ ok db'
      → All (HasNode db) (hashes_of nodes)
      → All (HasNode db') (children_of nodes)
  unfolding add_dummy_nodes_for_orphan_hashes
  dummy_nodes-held db db' nodes e h = >>=-parts (L.inner_value 0 (binary 0 0)) _ e λ dummy p e1.
      subst (λ d. All (HasNode d) (children_of nodes)) (ok_injective e1)
        (children-held nodes db nodes dummy h)
