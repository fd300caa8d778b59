-- ===== src/Counter/Sessions.antt =====
-- The sessions that the handlers of apps/counter/src/routes.rs read and update. The server's state
-- that holds them is another crate's: `get_session` and `update_session_with` are an interface.
use snip_36_prover_web.Prelude.{ℕ, String, Option, some, ◌≡◌, ◌≢◌}
use snip_36_prover_web.Core.Types.{Session}

-- `St` is the state of all sessions.
pub record SessionStore (St : Type 0) : Type 0 where
  pub get_session : String → St → Session
  pub update_session_with : String → (Session → Session) → St → St

-- An update is seen in its session and in no other.
pub record IsSessionStore {St : Type 0} (store : SessionStore St) : Type 0 where
  pub same :
      (id : String) (f : Session → Session) (st : St)
      → store.get_session id (store.update_session_with id f st) ≡ f (store.get_session id st)
  pub other :
      (id other_id : String) (f : Session → Session) (st : St)
      → other_id ≢ id
      → store.get_session other_id (store.update_session_with id f st)
        ≡ store.get_session other_id st

unfoldable pub set_last_invoke_tx : String → Session → Session
set_last_invoke_tx tx_hash session = record session { last_invoke_tx = some tx_hash }

unfoldable pub set_invoke_block : ℕ → Session → Session
set_invoke_block block session = record session { invoke_block = some block }

unfoldable pub set_deployed : String → String → Option ℕ → Session → Session
set_deployed contract_address class_hash block_number session = record session {
  contract_address = some contract_address;
  class_hash = some class_hash;
  deploy_block = block_number;
  last_reference_block = block_number;
}

unfoldable pub set_last_reference_block : ℕ → Session → Session
set_last_reference_block block session = record session { last_reference_block = some block }
