-- ===== src/Error.antt =====
-- error.rs: the error type, `Result`, and what callers ask of an error. The texts of messages
-- (`message`, `detail`, `reason`) are for people and are not kept.
use osdns.Prelude.{ℕ, Bool, true, false, List, [], ◌∷◌}
use osdns.Text.{Text}

-- capability.rs
pub data BackendKind : Type 0 where
  systemd_resolved network_manager resolvconf resolv_conf_file windows_ip_helper
        macos_system_configuration fake :
      BackendKind

pub BackendKind-discrete : Discrete BackendKind
BackendKind-discrete = hlevel

-- ownership.rs: `ResourceId(Arc<str>)`.
pub record ResourceId : Type 0 where
  pub text : Text

pub data ConflictReason : Type 0 where
  already_leased_in_process stale_journal_unresolved lease_not_active resource_occupied :
      ConflictReason

mutual
  pub data Error : Type 0 where
    journal_publication : Bool → Error
    journal_removal : Bool → Error
    transaction_failed : Error → Errors → Error
    unsafe_filesystem : Error
    indeterminate_mutation : BackendKind → Error
    lease_ending : Error
    resource_gone : BackendKind → ResourceId → Error
    resource_platform : BackendKind → ResourceId → Error
    resource_identity : BackendKind → ResourceId → Error
    unsupported_platform : Error
    unsupported : BackendKind → Error
    requires_privilege : Error
    backend_unavailable : Error
    timeout : ResourceId → Error
    conflict : ResourceId → ConflictReason → Error
    external_modification : ResourceId → Error
    invalid_config : Error
    update_requires_rebind : List ResourceId → List ResourceId → Error
    verification_failed : ResourceId → Error
    unsupported_journal_version : ℕ → ℕ → Error
    journal_corrupt : Error
    io : Error
    platform : BackendKind → Error

  -- The `Vec<Error>` inside an error.
  pub data Errors : Type 0 where
    nil : Errors
    cons : Error → Errors → Errors

pub data Result {ℓ κ} (A : Type ℓ) (E : Type κ) : Type (ℓ ⊔ κ) where
  ok : A → Result A E
  err : E → Result A E

abbrev pub Fallible {ℓ} : Type ℓ → Type ℓ
Fallible A = Result A Error

infixl 5 ◌>>=◌ ◌>>◌
abbrev pub ◌>>=◌ {ℓ κ} : {A : Type ℓ} {B : Type κ} → Fallible A → (A → Fallible B) → Fallible B
ok a >>= f = f a
err e >>= f = err e

abbrev pub ◌>>◌ {ℓ κ} : {A : Type ℓ} {B : Type κ} → Fallible A → Fallible B → Fallible B
m >> n = m >>= λ _. n

abbrev pub is_external_modification : Error → Bool
is_external_modification (external_modification r) = true
is_external_modification _ = false

abbrev pub is_resource_gone : Error → Bool
is_resource_gone (resource_gone b r) = true
is_resource_gone _ = false

abbrev pub errors_of : List Error → Errors
errors_of [] = nil
errors_of (e ∷ es) = cons e (errors_of es)

-- manager.rs: `transaction_error`.
abbrev pub transaction_error : Error → List Error → Error
transaction_error primary [] = primary
transaction_error primary (e ∷ es) = transaction_failed primary (errors_of (e ∷ es))
