-- ===== src/Prover/StorageProofs.antt =====
-- crates/starknet-transaction-prover-wasm/src/running/storage_proofs.rs: one query for storage
-- proofs split into requests of at most `MAX_KEYS_PER_REQUEST` keys, and the answers merged. A
-- panic of the source (a failed `assert!` or `expect`) is the error `panic`.
pub mod Items
pub mod Splitting
pub mod Merge
pub mod Addresses
pub mod Coverage
pub mod Indices
pub mod Merging
pub mod Fetching
pub mod Queries
pub mod Prepared
pub mod Commitments
pub mod Unchanged
pub mod Provider
pub mod Provided
use snip_36_prover_web.Prelude.{
  ℕ, zero, suc, ◌+◌, Bool, true, false, List, [], ◌∷◌, ◌++◌, map, Option, none, some, length, take,
  drop, leb, ltb, ◌==◌, if◌then◌else◌, ◌≡◌, refl,
}
use snip_36_prover_web.Prelude.Result.{Result, ok, err}
use snip_36_prover_web.Prover.Errors.{ProverError, panic}

abbrev pub max_keys_per_request : ℕ
max_keys_per_request = 100

pub record ContractStorageKeys : Type 0 where
  pub contract_address : ℕ
  pub storage_keys : List ℕ

pub record RpcStorageProofsQuery : Type 0 where
  pub class_hashes : List ℕ
  pub contract_addresses : List ℕ
  pub contract_storage_keys : List ContractStorageKeys

-- `RpcStorageProofsQuery::default`
abbrev pub no_query : RpcStorageProofsQuery
no_query = record { class_hashes = []; contract_addresses = []; contract_storage_keys = [] }

pub count_storage_keys : List ContractStorageKeys → ℕ
count_storage_keys [] = 0
count_storage_keys (csk ∷ rest) = length csk.storage_keys + count_storage_keys rest

unfoldable pub count_total_keys : RpcStorageProofsQuery → ℕ
unfolding count_storage_keys
count_total_keys query =
    length query.class_hashes
    + length query.contract_addresses
    + count_storage_keys query.contract_storage_keys

pub data QueryItem : Type 0 where
  class_hash : ℕ → QueryItem
  contract : ℕ → QueryItem
  storage_key : ℕ → ℕ → QueryItem

flatten_storage_keys : List ContractStorageKeys → List QueryItem
flatten_storage_keys [] = []
flatten_storage_keys (csk ∷ rest) =
    map (storage_key csk.contract_address) csk.storage_keys ++ flatten_storage_keys rest

unfoldable pub flatten_query : RpcStorageProofsQuery → List QueryItem
unfolding flatten_storage_keys
flatten_query query =
    map class_hash query.class_hashes
    ++ map contract query.contract_addresses
    ++ flatten_storage_keys query.contract_storage_keys

-- The key goes to the last entry if that has the address, else to a new entry at the end.
unfoldable pub push_storage_key : ℕ → ℕ → List ContractStorageKeys → List ContractStorageKeys
push_storage_key address key [] =
    record { contract_address = address; storage_keys = key ∷ [] } ∷ []
push_storage_key address key (last ∷ []) =
    if last.contract_address == address
    then record {
      contract_address = last.contract_address;
      storage_keys = last.storage_keys ++ (key ∷ []);
    }
      ∷ []
    else last ∷ record { contract_address = address; storage_keys = key ∷ [] } ∷ []
push_storage_key address key (csk ∷ next ∷ rest) = csk ∷ push_storage_key address key (next ∷ rest)

unfoldable pub collect_item : RpcStorageProofsQuery → QueryItem → RpcStorageProofsQuery
collect_item query (class_hash h) = record {
  class_hashes = query.class_hashes ++ (h ∷ []);
  contract_addresses = query.contract_addresses;
  contract_storage_keys = query.contract_storage_keys;
}
collect_item query (contract a) = record {
  class_hashes = query.class_hashes;
  contract_addresses = query.contract_addresses ++ (a ∷ []);
  contract_storage_keys = query.contract_storage_keys;
}
collect_item query (storage_key address key) = record {
  class_hashes = query.class_hashes;
  contract_addresses = query.contract_addresses;
  contract_storage_keys = push_storage_key address key query.contract_storage_keys;
}

unfoldable pub collect_items : RpcStorageProofsQuery → List QueryItem → RpcStorageProofsQuery
collect_items query [] = query
collect_items query (item ∷ items) = collect_items (collect_item query item) items

unfoldable pub collect_query : List QueryItem → RpcStorageProofsQuery
collect_query items = collect_items no_query items

-- `slice::chunks`; a fuel of the list's length is enough, as a chunk takes an element or more.
unfoldable pub chunks {ℓ} : {A : Type ℓ} → ℕ → ℕ → List A → List (List A)
chunks zero n xs = []
chunks (suc fuel) n [] = []
chunks (suc fuel) n (x ∷ xs) = take n (x ∷ xs) ∷ chunks fuel n (drop n (x ∷ xs))

unfoldable pub split_query :
    RpcStorageProofsQuery → ℕ → Result ProverError (List RpcStorageProofsQuery)
split_query query max_keys =
    let items = flatten_query query in
    if ltb 0 max_keys
    then ok (map collect_query (chunks (length items) max_keys items))
    else err panic
