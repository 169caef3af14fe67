-- ===== src/Tests/Secrets.antt =====
-- Tests of the access to secrets and instances of its theorems.
use open_sesame.Prelude.Maps.{insert, get}
use open_sesame.Prelude.{
  ℕ, ◌+◌, ◌⊎◌, arith, ltb, if◌then◌else◌, ◌≡◌, refl, ◌↔◌, true, false, some, none, [], ◌∷◌,
}
use open_sesame.Prelude.Text.{text_eq, codes}
use open_sesame.Secrets.Acl.{Config, check_secret_access, check_secret_list_access}
use open_sesame.Secrets.Acl.Policy.{Has, Grants, check_secret_access_iff}
use open_sesame.Secrets.Jit.{
  SecretsStore, JitDelivery, new as new_delivery, Instants, cached_value, resolve,
}
use open_sesame.Secrets.Jit.Stale.{Reaches, started, fetched, IsRecent, resolve-IsRecent}

abbrev guarded : Config
guarded = record {
  profiles =
      (
        codes "work",
        record {
          secrets = record {
            access = (codes "launcher", codes "api-key" ∷ []) ∷ (codes "snippets", []) ∷ [];
          };
        },
      )
      ∷ [];
}

allowed_key :
    check_secret_access guarded (codes "work") (some (codes "launcher")) (codes "api-key") ≡ true
unfolding check_secret_access get text_eq
allowed_key = refl

denied_key :
    check_secret_access guarded (codes "work") (some (codes "launcher")) (codes "token") ≡ false
unfolding check_secret_access get text_eq
denied_key = refl

denied_list : check_secret_list_access guarded (codes "work") (some (codes "snippets")) ≡ false
unfolding check_secret_list_access get text_eq
denied_list = refl

unknown_profile : check_secret_access guarded (codes "home") none (codes "token") ≡ false
unfolding check_secret_access get text_eq
unknown_profile = refl

check_secret_access_iff_example :
    (check_secret_access guarded (codes "work") (some (codes "launcher")) (codes "api-key") ≡ true)
    ↔ Grants (Has (codes "api-key")) guarded (codes "work") (some (codes "launcher"))
check_secret_access_iff_example =
    check_secret_access_iff guarded (codes "work") (some (codes "launcher")) (codes "api-key")

-- A store in which the secret is rotated at 50.
abbrev rotating : SecretsStore
rotating t key = some (codes (if ltb t 50 then "v1" else "v2"))

abbrev at : ℕ → Instants
at t = record { checked = t; answered = t; kept = t + 1 }

abbrev warm : JitDelivery
warm = (resolve rotating (codes "api-key") (at 10) (new_delivery 60)).1

stale_value : (resolve rotating (codes "api-key") (at 60) warm).0 ≡ some (codes "v1")
unfolding resolve new_delivery get insert text_eq
stale_value = refl

cold : cached_value (new_delivery 60) (codes "api-key") 10 ≡ none
unfolding cached_value new_delivery get
cold = refl

warm-Reaches : Reaches rotating 60 11 ((codes "api-key", at 10) ∷ []) warm
warm-Reaches =
    fetched (codes "api-key") (at 10) started (omega arith) (omega arith) (omega arith) cold

resolve-IsRecent_example :
    (rotating 60 (codes "api-key") ≡ some (codes "v1"))
    ⊎ IsRecent rotating 60 ((codes "api-key", at 10) ∷ []) (codes "api-key") (codes "v1") 60
resolve-IsRecent_example =
    resolve-IsRecent rotating 60 (codes "api-key") (at 60) 11 ((codes "api-key", at 10) ∷ []) warm
      (codes "v1") warm-Reaches (omega arith) stale_value
