-- ===== src/Secrets/Daemon/Access.antt =====
-- What opening a vault and passing the gates leave of the state.
use open_sesame.Prelude.{
  ◌≡◌, refl, ap, ◌∙◌, inl, inr, true, false, Bool-cases, Option-cases, none, some, arith,
}
use open_sesame.Prelude.Text.{Text}
use open_sesame.Prelude.Maps.{list_eq, get}
use open_sesame.Secrets.Daemon.{ok, Vault, World, VaultState, Daemon, MessageContext, Message, has}
use open_sesame.Secrets.Daemon.Opening.{vault_for}
use open_sesame.Secrets.Daemon.Gates.{gate}
use open_sesame.Secrets.Daemon.Bounded.{IsUnlocked, IsBounded}

pub vault_for-master_keys :
    (world : World) (profile : Text) (s : VaultState)
    → (vault_for world profile s).1.master_keys ≡ s.master_keys
unfolding vault_for
vault_for-master_keys world profile s = ground arith

pub vault_for-active_profiles :
    (world : World) (profile : Text) (s : VaultState)
    → (vault_for world profile s).1.active_profiles ≡ s.active_profiles
unfolding vault_for
vault_for-active_profiles world profile s = ground arith

pub vault_for-has :
    (world : World) (profile : Text) (s : VaultState) (vault : Vault)
    → (vault_for world profile s).0 ≡ ok vault
    → has profile s.active_profiles ≡ true
unfolding vault_for
vault_for-has world profile s vault h = elim (Bool-cases (has profile s.active_profiles)) [
  | inl on ↦ on
  | inr off ↦ absurd (differ off h)
]
  where
    differ : has profile s.active_profiles ≡ false → (vault_for world profile s).0 ≡ ok vault → ⊥
    differ off e = ground arith

-- An open vault is that of an active profile.
pub vault_for-IsUnlocked :
    (world : World) (profile : Text) (s : VaultState) (vault : Vault)
    → IsBounded s
    → (vault_for world profile s).0 ≡ ok vault
    → IsUnlocked (vault_for world profile s).1 profile
vault_for-IsUnlocked world profile s vault v h =
    let (key, present) = v.active profile (vault_for-has world profile s vault h) in
    (key, ap (λ m. get m profile) (vault_for-master_keys world profile s) ∙ present)

pub gate-state :
    (world : World) (ctx : MessageContext) (msg : Message) (profile key : Text) (d : Daemon)
    → (gate world ctx msg profile key d).1.vault_state ≡ d.vault_state
unfolding gate
gate-state world ctx msg profile key d = ground arith

pub vault_for-key :
    (world : World) (profile : Text) (s : VaultState) (vault : Vault)
    → (vault_for world profile s).0 ≡ ok vault
    → IsUnlocked s profile
unfolding vault_for
vault_for-key world profile s vault h = elim (Option-cases (get s.master_keys profile)) [
  | inl absent ↦ absurd (differ absent h)
  | inr present ↦ present
]
  where
    differ : get s.master_keys profile ≡ none → (vault_for world profile s).0 ≡ ok vault → ⊥
    differ absent e = ground arith

-- An active, unlocked profile whose vault is open gets that vault.
pub vault_for-open :
    (world : World) (profile : Text) (s : VaultState) (vault : Vault)
    → has profile s.active_profiles ≡ true
    → IsUnlocked s profile
    → get s.vaults profile ≡ some vault
    → vault_for world profile s ≡ (ok vault, s)
unfolding vault_for
vault_for-open world profile s vault on (key, present) there = rw (on, present) (rw there refl)
