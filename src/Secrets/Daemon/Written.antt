-- ===== src/Secrets/Daemon/Written.antt =====
-- What is written is read back.
use open_sesame.Prelude.{ℕ, ◌≡◌, refl, sym, ap, ◌∙◌, subst, true, Option, none, some, [], arith}
use open_sesame.Prelude.Text.{Text, codes}
use open_sesame.Prelude.Maps.{Map, list_eq, get, insert, get-insert, get-remove}
use open_sesame.Secrets.Jit.{
  JitDelivery, resolve, flush, cached_value, fetch, Instants, SecretsStore,
}
use open_sesame.Secrets.Daemon.{
  Outcome, ok, err, Vault, World, VaultState, Daemon, MessageContext, Message, has, Event,
  SecretDenialReason, secret_get_response, secret_set_response, secret_delete_response, not_found,
}
use open_sesame.Secrets.Daemon.Opening.{vault_for, put_vault}
use open_sesame.Secrets.Daemon.Gates.{gate, Denied}
use open_sesame.Secrets.Daemon.Crud.{
  got, get_from, get_passed, handle_secret_get, set_passed, handle_secret_set, set_in, write_vault,
  delete_in, delete_found, delete_passed, handle_secret_delete, store_get, written,
}
use open_sesame.Secrets.Daemon.Access.{
  gate-state, vault_for-has, vault_for-key, vault_for-open, vault_for-master_keys,
  vault_for-active_profiles,
}
use open_sesame.Secrets.Daemon.Bounded.{IsUnlocked}

-- The profile's vault is open, its cache is empty, and its store holds this for the key.
pub record IsFresh (s : VaultState) (profile key : Text) (stored : Option Text) : Type 0 where
  pub active : has profile s.active_profiles ≡ true
  pub unlocked : IsUnlocked s profile
  pub vault : Vault
  pub loaded : get s.vaults profile ≡ some vault
  pub empty_cache : vault.jit.cache ≡ []
  pub entry : get vault.store key ≡ stored

abbrev IsReady : VaultState → Text → Type 0
IsReady s profile = (has profile s.active_profiles ≡ true) × IsUnlocked s profile

vault_for-IsReady :
    (world : World) (profile : Text) (s : VaultState) (vault : Vault)
    → (vault_for world profile s).0 ≡ ok vault
    → IsReady (vault_for world profile s).1 profile
vault_for-IsReady world profile s vault h =
    let (key, present) = vault_for-key world profile s vault h in
    (
      ap (has profile) (vault_for-active_profiles world profile s)
          ∙ vault_for-has world profile s vault h,
      (key, ap (λ m. get m profile) (vault_for-master_keys world profile s) ∙ present),
    )

module _ (profile key : Text) where
  put_vault-IsFresh :
      (s : VaultState) (vault : Vault) (store : Map Text Text) (stored : Option Text)
      → IsReady s profile
      → get store key ≡ stored
      → IsFresh
          (put_vault profile (record { store = store; jit = flush vault.jit }) s)
          profile
          key
          stored
  unfolding flush
  put_vault-IsFresh s vault store stored ready e = record {
    active = ready.0;
    unlocked = ready.1;
    vault = record { store = store; jit = flush vault.jit };
    loaded = get-insert profile _ s.vaults;
    empty_cache = refl;
    entry = e;
  }

  set_in-IsFresh :
      (world : World) (value : Text) (r : Outcome Vault × VaultState)
      → ((vault : Vault) → r.0 ≡ ok vault → IsReady r.1 profile)
      → (set_in world profile key value r).0 ≡ none
      → IsFresh (set_in world profile key value r).1 profile key (some value)
  set_in-IsFresh world value (err e, s) ready h = absurd (differ h)
    where
      differ : (set_in world profile key value (err e, s)).0 ≡ none → ⊥
      differ h = cc
  set_in-IsFresh world value (ok vault, s) ready h = wrote world.store_error h
    where
      wrote :
          (o : Option Text)
          → (write_vault o profile (insert key value vault.store) vault s).0 ≡ none
          → IsFresh
              (write_vault o profile (insert key value vault.store) vault s).1
              profile
              key
              (some value)
      wrote none e =
          put_vault-IsFresh s vault _ (some value) (ready vault refl)
            (get-insert key value vault.store)
      wrote (some x) e = absurd (fails e)
        where
          fails : (write_vault (some x) profile (insert key value vault.store) vault s).0 ≡ none → ⊥
          fails e = cc

  resolve-empty :
      (store : SecretsStore) (at : Instants) (jit : JitDelivery)
      → jit.cache ≡ []
      → (resolve store key at jit).0 ≡ store at.answered key
  unfolding resolve cached_value fetch get
  resolve-empty store at jit e = rw e (ground arith)

  -- The answer to a get of what is stored.
  abbrev pub answer : Option Text → Event
  answer none = secret_get_response key [] (some not_found)
  answer (some value) = secret_get_response key value none

  got-answer :
      (msg : Message) (d : Daemon) (vault : Vault) (o : Option Text)
      → (got msg profile key d vault o).event ≡ some (answer o)
  got-answer msg d vault none = refl
  got-answer msg d vault (some value) = refl

  store_get-entry :
      (world : World) (store : Map Text Text) (time : ℕ)
      → world.store_error ≡ none
      → store_get world.store_error store time key ≡ get store key
  store_get-entry world store time works = rw works refl

  get_from-IsFresh :
      (world : World) (msg : Message) (d : Daemon) (stored : Option Text)
      → world.store_error ≡ none
      → IsFresh d.vault_state profile key stored
      → (get_from world msg profile key d (vault_for world profile d.vault_state)).event
        ≡ some (answer stored)
  get_from-IsFresh world msg d stored works f =
      rw (vault_for-open world profile d.vault_state f.vault f.active f.unlocked f.loaded)
        (got-answer msg _ f.vault _ ∙ ap (λ o. some (answer o)) value)
    where
      value :
          (resolve (store_get world.store_error f.vault.store) key world.instants f.vault.jit).0
          ≡ stored
      value =
          resolve-empty (store_get world.store_error f.vault.store) world.instants f.vault.jit
            f.empty_cache
          ∙ (store_get-entry world f.vault.store world.instants.answered works ∙ f.entry)

  get_passed-IsFresh :
      (world : World) (msg : Message) (stored : Option Text) (r : Option Denied × Daemon)
      → world.store_error ≡ none
      → r.0 ≡ none
      → IsFresh r.1.vault_state profile key stored
      → (get_passed world msg profile key r).event ≡ some (answer stored)
  get_passed-IsFresh world msg stored (none, e) works open_gate f =
      get_from-IsFresh world msg e stored works f
  get_passed-IsFresh world msg stored (some denied, e) works open_gate f = cc

  handle_secret_get-IsFresh :
      (world : World) (ctx : MessageContext) (msg : Message) (d : Daemon) (stored : Option Text)
      → world.store_error ≡ none
      → (gate world ctx msg profile key d).0 ≡ none
      → IsFresh d.vault_state profile key stored
      → (handle_secret_get world ctx msg profile key d).event ≡ some (answer stored)
  unfolding handle_secret_get
  handle_secret_get-IsFresh world ctx msg d stored works open_gate f =
      get_passed-IsFresh world msg stored _ works open_gate
        (subst (λ s. IsFresh s profile key stored) (sym (gate-state world ctx msg profile key d)) f)

  -- A set that was answered with success.
  set_passed-IsFresh :
      (world : World) (msg : Message) (value : Text) (r : Option Denied × Daemon)
      → (set_passed world msg profile key value r).event ≡ some (secret_set_response true none)
      → IsFresh
          (set_passed world msg profile key value r).after.vault_state
          profile
          key
          (some value)
  set_passed-IsFresh world msg value (some denied, e) h = absurd (differ h)
    where
      differ : none ≡ some (secret_set_response true none) → ⊥
      differ h = cc
  set_passed-IsFresh world msg value (none, e) h =
      set_in-IsFresh world value (vault_for world profile e.vault_state)
        (vault_for-IsReady world profile e.vault_state)
        (success (set_in world profile key value (vault_for world profile e.vault_state)).0 h)
    where
      success :
          (o : Option SecretDenialReason)
          → (written (codes "set") secret_set_response msg profile key o e).event
            ≡ some (secret_set_response true none)
          → o ≡ none
      success none h = refl
      success (some x) h = cc

  -- A secret that was set with success is what the next get delivers, whatever the cache held before,
  -- if the get passes the gates and the disk works.
  pub set-get :
      (world world' : World) (ctx ctx' : MessageContext) (msg msg' : Message) (value : Text)
      (d : Daemon)
      → (handle_secret_set world ctx msg profile key value d).event
        ≡ some (secret_set_response true none)
      → let after = (handle_secret_set world ctx msg profile key value d).after in
        (gate world' ctx' msg' profile key after).0 ≡ none
        → world'.store_error ≡ none
        → (handle_secret_get world' ctx' msg' profile key after).event
          ≡ some (secret_get_response key value none)
  unfolding handle_secret_set
  set-get world world' ctx ctx' msg msg' value d done open_gate works =
      handle_secret_get-IsFresh world' ctx' msg' _ (some value) works open_gate
        (set_passed-IsFresh world msg value _ done)

  delete_in-IsFresh :
      (world : World) (r : Outcome Vault × VaultState)
      → ((vault : Vault) → r.0 ≡ ok vault → IsReady r.1 profile)
      → (delete_in world profile key r).0 ≡ none
      → IsFresh (delete_in world profile key r).1 profile key none
  delete_in-IsFresh world (err e, s) ready h = absurd (differ h)
    where
      differ : (delete_in world profile key (err e, s)).0 ≡ none → ⊥
      differ h = cc
  delete_in-IsFresh world (ok vault, s) ready h = found (get vault.store key) world.store_error h
    where
      found :
          (o : Option Text) (e : Option Text)
          → (delete_found (record world { store_error = e }) profile key vault o s).0 ≡ none
          → IsFresh
              (delete_found (record world { store_error = e }) profile key vault o s).1
              profile
              key
              none
      found (some v) none h =
          put_vault-IsFresh s vault _ none (ready vault refl) (get-remove key vault.store)
      found none e h = cc
      found (some v) (some x) h = cc

  delete_passed-IsFresh :
      (world : World) (msg : Message) (r : Option Denied × Daemon)
      → (delete_passed world msg profile key r).event ≡ some (secret_delete_response true none)
      → IsFresh (delete_passed world msg profile key r).after.vault_state profile key none
  delete_passed-IsFresh world msg (some denied, e) h = absurd (differ h)
    where
      differ : none ≡ some (secret_delete_response true none) → ⊥
      differ h = cc
  delete_passed-IsFresh world msg (none, e) h =
      delete_in-IsFresh world (vault_for world profile e.vault_state)
        (vault_for-IsReady world profile e.vault_state)
        (success (delete_in world profile key (vault_for world profile e.vault_state)).0 h)
    where
      success :
          (o : Option SecretDenialReason)
          → (written (codes "delete") secret_delete_response msg profile key o e).event
            ≡ some (secret_delete_response true none)
          → o ≡ none
      success none h = refl
      success (some x) h = cc

  -- A secret that was deleted with success is not found by the next get, whatever the cache held.
  delete-get :
      (world world' : World) (ctx ctx' : MessageContext) (msg msg' : Message) (d : Daemon)
      → (handle_secret_delete world ctx msg profile key d).event
        ≡ some (secret_delete_response true none)
      → let after = (handle_secret_delete world ctx msg profile key d).after in
        (gate world' ctx' msg' profile key after).0 ≡ none
        → world'.store_error ≡ none
        → (handle_secret_get world' ctx' msg' profile key after).event
          ≡ some (secret_get_response key [] (some not_found))
  unfolding handle_secret_delete
  delete-get world world' ctx ctx' msg msg' d done open_gate works =
      handle_secret_get-IsFresh world' ctx' msg' _ none works open_gate
        (delete_passed-IsFresh world msg _ done)
