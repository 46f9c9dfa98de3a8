-- ===== src/SecureStore.antt =====
-- storage/secure_store.rs, as it is built on Linux: a credential in the secret service, and in the
-- kernel key ring when that service cannot be reached. The two entries of one key, of the crate
-- `keyring`, are parameters.
pub mod Roundtrip
pub mod Deletes
mod Tests
use titan_ssh.Common.{
  ◌≡◌, refl, ◌⊎◌, inl, inr, Bool, true, false, Option, none, some, Text, if◌then◌else◌,
}
use titan_ssh.Errors.{AppError, secure_store_error, credential_not_found, Result, ok, err}

-- `keyring::Error`, with its message; `other` are the ones that the code does not tell apart.
pub data KeyringError : Type 0 where
  platform_failure no_storage_access no_entry other : Text → KeyringError

unfoldable pub message : KeyringError → Text
message (platform_failure m) = m
message (no_storage_access m) = m
message (no_entry m) = m
message (other m) = m

-- `Result<A, keyring::Error>`.
pub data Answer {ℓ} (A : Type ℓ) : Type ℓ where
  done : A → Answer A
  fails : KeyringError → Answer A

unfoldable pub is_secret_service_unavailable : KeyringError → Bool
is_secret_service_unavailable (platform_failure m) = true
is_secret_service_unavailable (no_storage_access m) = true
is_secret_service_unavailable (no_entry m) = false
is_secret_service_unavailable (other m) = false

-- The entry of one key in one store, and what the crate documents: what is set is read back, what
-- is deleted is no longer there, a call that fails changes nothing, and no call decides whether
-- the store can be reached.
pub record Entry (S : Type 0) : Type 0 where
  pub build : S → Answer (Unit {0})
  pub set_password : Text → S → S × Answer (Unit {0})
  pub get_password : S → Answer Text
  pub delete_credential : S → S × Answer (Unit {0})
  pub get-set :
      (v : Text) (s : S)
      → (set_password v s).1 ≡ done tt
      → get_password (set_password v s).0 ≡ done v
  pub set_fails :
      (v : Text) (s : S) (e : KeyringError)
      → (set_password v s).1 ≡ fails e
      → (set_password v s).0 ≡ s
  pub build-set : (v : Text) (s : S) → build (set_password v s).0 ≡ build s
  pub get-delete :
      (s : S)
      → (delete_credential s).1 ≡ done tt
      → (m : Text) × (get_password (delete_credential s).0 ≡ fails (no_entry m))
  pub delete_fails :
      (s : S) (e : KeyringError) → (delete_credential s).1 ≡ fails e → (delete_credential s).0 ≡ s
  pub build-delete : (s : S) → build (delete_credential s).0 ≡ build s
  pub missing :
      (s : S) (m : Text)
      → (delete_credential s).1 ≡ fails (no_entry m)
      → (n : Text) × (get_password s ≡ fails (no_entry n))

pub Answer-cases {ℓ} :
    {A : Type ℓ} (r : Answer A) → ((a : A) × (r ≡ done a)) ⊎ ((e : KeyringError) × (r ≡ fails e))
Answer-cases (done a) = inl (a, refl)
Answer-cases (fails e) = inr (e, refl)

pub record Keyrings (P F : Type 0) : Type 0 where
  pub primary : P
  pub fallback : F

abbrev pub from_keyring : Answer (Unit {0}) → Result (Unit {0})
from_keyring (done u) = ok tt
from_keyring (fails e) = err (secure_store_error (message e))

-- What a read of the fall-back comes to.
unfoldable pub from_fallback : Text → Answer Text → Result Text
from_fallback key (done value) = ok value
from_fallback key (fails (no_entry m)) = err (credential_not_found key)
from_fallback key (fails (platform_failure m)) = err (secure_store_error m)
from_fallback key (fails (no_storage_access m)) = err (secure_store_error m)
from_fallback key (fails (other m)) = err (secure_store_error m)

module _ {P F : Type 0} (keyutils : Entry F) where
  -- The fall-back of `set_with_fallback`.
  unfoldable pub set_fallback : Text → Keyrings P F → Keyrings P F × Result (Unit {0})
  set_fallback value s = elim (keyutils.build s.fallback) [
    | fails e ↦ (s, err (secure_store_error (message e)))
    | done _ ↦
        let (f, r) = keyutils.set_password value s.fallback in
        (record s { fallback = f }, from_keyring r)
  ]

  unfoldable pub read_fallback : Text → Keyrings P F → Result Text
  unfolding from_fallback
  read_fallback key s = elim (keyutils.build s.fallback) [
    | fails e ↦ err (secure_store_error (message e))
    | done _ ↦ from_fallback key (keyutils.get_password s.fallback)
  ]

  unfoldable pub from_primary : Text → Keyrings P F → Answer Text → Result Text
  unfolding read_fallback
  from_primary key s (done value) = ok value
  from_primary key s (fails (no_entry m)) = read_fallback key s
  from_primary key s (fails (platform_failure m)) = read_fallback key s
  from_primary key s (fails (no_storage_access m)) = read_fallback key s
  from_primary key s (fails (other m)) = err (secure_store_error m)

module _ {P F : Type 0} (secret_service : Entry P) (keyutils : Entry F) where
  unfoldable pub set_with_fallback : Text → Keyrings P F → Keyrings P F × Result (Unit {0})
  unfolding set_fallback is_secret_service_unavailable
  set_with_fallback value s = elim (secret_service.build s.primary) [
    | fails e ↦
        if is_secret_service_unavailable e
        then set_fallback keyutils value s
        else (s, err (secure_store_error (message e)))
    | done _ ↦
        let (p, r) = secret_service.set_password value s.primary in
        let t : Keyrings P F = record s { primary = p } in
        elim r [
          | done _ ↦ (t, ok tt)
          | fails e ↦
              if is_secret_service_unavailable e
              then set_fallback keyutils value t
              else (t, err (secure_store_error (message e)))
        ]
  ]

  unfoldable pub get_with_fallback : Text → Keyrings P F → Result Text
  unfolding from_primary is_secret_service_unavailable
  get_with_fallback key s = elim (secret_service.build s.primary) [
    | fails e ↦
        if is_secret_service_unavailable e
        then read_fallback keyutils key s
        else err (secure_store_error (message e))
    | done _ ↦ from_primary keyutils key s (secret_service.get_password s.primary)
  ]

-- `attempt_delete`: an error is kept if none was before.
unfoldable pub keep_first : KeyringError → Option AppError → Option AppError
unfolding is_secret_service_unavailable
keep_first (no_entry m) first_error = first_error
keep_first (platform_failure m) first_error = first_error
keep_first (no_storage_access m) first_error = first_error
keep_first (other m) none = some (secure_store_error m)
keep_first (other m) (some error) = some error

-- `first_error` when the entry cannot be built.
unfoldable pub keep_first_build : KeyringError → Option AppError → Option AppError
unfolding is_secret_service_unavailable
keep_first_build e first_error =
    if is_secret_service_unavailable e
    then first_error
    else elim first_error [ none ↦ some (secure_store_error (message e)) | some error ↦ some error ]

unfoldable pub attempt_delete : {S : Type 0} → Entry S → S → Option AppError → S × Option AppError
unfolding keep_first keep_first_build
attempt_delete entry s first_error = elim (entry.build s) [
  | fails e ↦ (s, keep_first_build e first_error)
  | done _ ↦
      let (t, r) = entry.delete_credential s in
      elim r [ done _ ↦ (t, first_error) | fails e ↦ (t, keep_first e first_error) ]
]

unfoldable pub delete_with_fallback :
    {P F : Type 0} → Entry P → Entry F → Keyrings P F → Keyrings P F × Result (Unit {0})
unfolding attempt_delete
delete_with_fallback secret_service keyutils s =
    let (p, one) = attempt_delete secret_service s.primary none in
    let (f, two) = attempt_delete keyutils s.fallback one in
    (record { primary = p; fallback = f }, elim two [ none ↦ ok tt | some error ↦ err error ])
