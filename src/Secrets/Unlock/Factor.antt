-- ===== src/Secrets/Unlock/Factor.antt =====
-- core-types/src/auth.rs: the factors, and their order.
use open_sesame.Prelude.{
  ℕ, zero, suc, ◌≡◌, ◌↔◌, ◌⊎◌, inl, inr, Bool, true, false, subst, refl, sym, ap, ◌∙◌, ◌==◌, ==_iff,
  Option, some, none, if◌then◌else◌,
}
use open_sesame.Prelude.Text.{Text, codes, text_eq, text_eq_iff}
use open_sesame.Prelude.Maps.{Eq}

pub data AuthFactorId : Type 0 where
  password ssh_agent fido2 tpm fingerprint yubikey : AuthFactorId

-- The place in the derived order.
abbrev pub factor_index : AuthFactorId → ℕ
factor_index password = 0
factor_index ssh_agent = 1
factor_index fido2 = 2
factor_index tpm = 3
factor_index fingerprint = 4
factor_index yubikey = 5

-- The name in the configuration, which is also shown.
abbrev pub as_config_str : AuthFactorId → Text
as_config_str password = codes "password"
as_config_str ssh_agent = codes "ssh-agent"
as_config_str fido2 = codes "fido2"
as_config_str tpm = codes "tpm"
as_config_str fingerprint = codes "fingerprint"
as_config_str yubikey = codes "yubikey"

-- `none` is an error.
unfoldable pub from_config_str : Text → Option AuthFactorId
unfolding text_eq
from_config_str s =
    if text_eq s (codes "password")
    then some password
    else if text_eq s (codes "ssh-agent")
    then some ssh_agent
    else if text_eq s (codes "fido2")
    then some fido2
    else if text_eq s (codes "tpm")
    then some tpm
    else if text_eq s (codes "fingerprint")
    then some fingerprint
    else if text_eq s (codes "yubikey")
    then some yubikey
    else none

abbrev factor_of : ℕ → AuthFactorId
factor_of zero = password
factor_of (suc zero) = ssh_agent
factor_of (suc (suc zero)) = fido2
factor_of (suc (suc (suc zero))) = tpm
factor_of (suc (suc (suc (suc zero)))) = fingerprint
factor_of (suc (suc (suc (suc (suc n))))) = yubikey

factor_of-factor_index : (f : AuthFactorId) → factor_of (factor_index f) ≡ f
factor_of-factor_index password = refl
factor_of-factor_index ssh_agent = refl
factor_of-factor_index fido2 = refl
factor_of-factor_index tpm = refl
factor_of-factor_index fingerprint = refl
factor_of-factor_index yubikey = refl

pub factor_index-injective : (f g : AuthFactorId) → factor_index f ≡ factor_index g → f ≡ g
factor_index-injective f g e =
    sym (factor_of-factor_index f) ∙ (ap factor_of e ∙ factor_of-factor_index g)

instance abbrev pub factor_eq : Eq AuthFactorId
factor_eq = record {
  beq = λ f g. factor_index f == factor_index g;
  beq_iff = λ f g. (
    λ h. factor_index-injective f g ((==_iff (factor_index f) (factor_index g)).0 h),
    λ e. (==_iff (factor_index f) (factor_index g)).1 (ap factor_index e),
  );
}

choice-cases :
    (b : Bool) (g f : AuthFactorId) (rest : Option AuthFactorId)
    → (if b then some g else rest) ≡ some f
    → ((b ≡ true) × (g ≡ f)) ⊎ (rest ≡ some f)
choice-cases true g f rest h = inl (refl, cc)
choice-cases false g f rest h = inr h

from_config_str-as_config_str : (f : AuthFactorId) → from_config_str (as_config_str f) ≡ some f
unfolding from_config_str text_eq
from_config_str-as_config_str password = refl
from_config_str-as_config_str ssh_agent = refl
from_config_str-as_config_str fido2 = refl
from_config_str-as_config_str tpm = refl
from_config_str-as_config_str fingerprint = refl
from_config_str-as_config_str yubikey = refl

-- The name of a factor is read back as the factor, and no other text is.
from_config_str_iff :
    (s : Text) (f : AuthFactorId) → (from_config_str s ≡ some f) ↔ (s ≡ as_config_str f)
unfolding from_config_str
from_config_str_iff s f =
    (read, λ e. subst (λ t. from_config_str t ≡ some f) (sym e) (from_config_str-as_config_str f))
  where
    named :
        (g : AuthFactorId) → (text_eq s (as_config_str g) ≡ true) × (g ≡ f) → s ≡ as_config_str f
    named g (e, same) = (text_eq_iff s (as_config_str g)).0 e ∙ ap as_config_str same

    read : from_config_str s ≡ some f → s ≡ as_config_str f
    read h = elim (choice-cases (text_eq s (as_config_str password)) password f _ h) [
      | inl it ↦ named password it
      | inr h ↦ elim (choice-cases (text_eq s (as_config_str ssh_agent)) ssh_agent f _ h) [
        | inl it ↦ named ssh_agent it
        | inr h ↦ elim (choice-cases (text_eq s (as_config_str fido2)) fido2 f _ h) [
          | inl it ↦ named fido2 it
          | inr h ↦ elim (choice-cases (text_eq s (as_config_str tpm)) tpm f _ h) [
            | inl it ↦ named tpm it
            | inr h ↦
                elim (choice-cases (text_eq s (as_config_str fingerprint)) fingerprint f _ h) [
                  | inl it ↦ named fingerprint it
                  | inr h ↦ elim (choice-cases (text_eq s (as_config_str yubikey)) yubikey f _ h) [
                    | inl it ↦ named yubikey it
                    | inr h ↦ absurd (nothing h)
                  ]
                ]
          ]
        ]
      ]
    ]
      where
        nothing : none ≡ some f → ⊥
        nothing h = cc
