-- ===== src/HostService/CredentialTests.antt =====
-- `SecureCredentialStore` of core/host_service.rs over key rings that are always there.
use titan_ssh.Common.{
  ◌≡◌, refl, subst, false, Option, none, some, Text, [], ◌∷◌, ◌⊎◌, text_eq, ◌==◌, beq,
  if◌then◌else◌,
}
use titan_ssh.Errors.{AppError, ok, err}
use titan_ssh.SecureStore.{
  KeyringError, no_entry, Answer, done, fails, is_secret_service_unavailable, Entry, Keyrings,
  get_with_fallback, set_with_fallback,
}
use titan_ssh.HostService.SecureCredentials.{
  get_credential, IsUp, set_credential, delete_credential, found, secure_store-IsStore,
}

abbrev answer : Option Text → Answer Text
answer none = fails (no_entry [])
answer (some v) = done v

abbrev taken : Option Text → Option Text × Answer (Unit {0})
taken none = (none, fails (no_entry []))
taken (some v) = (none, done tt)

never_fails : (e : KeyringError) → ◌≡◌ {A = Answer (Unit {0})} (done tt) (fails e) → ⊥
never_fails e h = cc

taken-gone :
    (s : Option Text)
    → (taken s).1 ≡ done tt
    → (m : Text) × (answer (taken s).0 ≡ fails (no_entry m))
taken-gone none h = cc
taken-gone (some v) h = ([], refl)

taken_fails : (s : Option Text) (e : KeyringError) → (taken s).1 ≡ fails e → (taken s).0 ≡ s
taken_fails none e h = refl
taken_fails (some v) e h = absurd (never_fails e h)

taken-missing :
    (s : Option Text) (m : Text)
    → (taken s).1 ≡ fails (no_entry m)
    → (n : Text) × (answer s ≡ fails (no_entry n))
taken-missing none m h = ([], refl)
taken-missing (some v) m h = absurd (never_fails (no_entry m) h)

abbrev ring : Entry (Option Text)
ring = record {
  build = λ s. done tt;
  set_password = λ v s. (some v, done tt);
  get_password = answer;
  delete_credential = taken;
  get-set = λ v s h. refl;
  set_fails = λ v s e h. absurd (never_fails e h);
  build-set = λ v s. refl;
  get-delete = taken-gone;
  delete_fails = taken_fails;
  build-delete = λ s. refl;
  missing = taken-missing;
}

taken-available :
    (s : Option Text) (e : KeyringError)
    → (taken s).1 ≡ fails e
    → is_secret_service_unavailable e ≡ false
unfolding is_secret_service_unavailable
taken-available none e h = subst (λ (r : Answer (Unit {0})). available r) h refl
  where
    available : Answer (Unit {0}) → Type 0
    available (done _) = Unit {0}
    available (fails e) = is_secret_service_unavailable e ≡ false
taken-available (some v) e h = absurd (never_fails e h)

ring-IsUp : IsUp ring
ring-IsUp = (λ s. refl, λ v s e h. absurd (never_fails e h), taken-available)

abbrev key : Text
key = 107 ∷ []

abbrev secret : Text
secret = 115 ∷ []

abbrev nothing : Text → Keyrings (Option Text) (Option Text)
nothing = λ k. record { primary = none; fallback = none }

abbrev rings : Text → Entry (Option Text)
rings = λ k. ring

saved : found rings rings key (set_credential rings rings key secret nothing).0 ≡ some secret
unfolding set_credential get_credential get_with_fallback beq set_with_fallback
saved = refl

secure_store-IsStore_example :
    ((((set_credential rings rings key secret nothing).1 ≡ ok tt)
        × (found rings rings key (set_credential rings rings key secret nothing).0
            ≡ (if key == key then some secret else found rings rings key nothing)))
      ⊎ ((error : AppError) × ((set_credential rings rings key secret nothing).1 ≡ err error)
          × (found rings rings key (set_credential rings rings key secret nothing).0
              ≡ found rings rings key nothing)))
    × ((((delete_credential rings rings key nothing).1 ≡ ok tt)
          × (found rings rings key (delete_credential rings rings key nothing).0
              ≡ (if key == key then none else found rings rings key nothing)))
        ⊎ ((error : AppError) × ((delete_credential rings rings key nothing).1 ≡ err error)
            × ((key ≡ key)
                ⊎ (found rings rings key (delete_credential rings rings key nothing).0
                    ≡ found rings rings key nothing))))
secure_store-IsStore_example =
    secure_store-IsStore rings rings (λ k. ring-IsUp) (λ k. ring-IsUp) key secret key nothing
