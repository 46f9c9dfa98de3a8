-- ===== src/SecureStore/Tests.antt =====
-- The two stores of storage/secure_store.rs, as they are with and without a secret service.
use titan_ssh.Common.{◌≡◌, refl, true, Option, none, some, Text, [], ◌∷◌, codes}
use titan_ssh.Errors.{ok}
use titan_ssh.SecureStore.{
  KeyringError, platform_failure, no_entry, Answer, done, fails, is_secret_service_unavailable,
  Entry, Keyrings, set_fallback, set_with_fallback, get_with_fallback,
}
use titan_ssh.SecureStore.Roundtrip.{get-set_with_fallback}

-- A store is off, or holds a credential or none.
data Store : Type 0 where
  off : Store
  holds : Option Text → Store

abbrev down : KeyringError
down = platform_failure (codes "no bus")

store_build : Store → Answer (Unit {0})
store_build off = fails down
store_build (holds o) = done tt

store_set : Text → Store → Store × Answer (Unit {0})
store_set v off = (off, fails down)
store_set v (holds o) = (holds (some v), done tt)

store_get : Store → Answer Text
store_get off = fails down
store_get (holds none) = fails (no_entry (codes "none"))
store_get (holds (some v)) = done v

store_delete : Store → Store × Answer (Unit {0})
store_delete off = (off, fails down)
store_delete (holds none) = (holds none, fails (no_entry (codes "none")))
store_delete (holds (some v)) = (holds none, done tt)

get-set :
    (v : Text) (s : Store) → (store_set v s).1 ≡ done tt → store_get (store_set v s).0 ≡ done v
unfolding store_set store_get
get-set v off h = cc
get-set v (holds o) h = refl

set_fails :
    (v : Text) (s : Store) (e : KeyringError) → (store_set v s).1 ≡ fails e → (store_set v s).0 ≡ s
unfolding store_set
set_fails v off e h = refl
set_fails v (holds o) e h = cc

build-set : (v : Text) (s : Store) → store_build (store_set v s).0 ≡ store_build s
unfolding store_build store_set
build-set v off = refl
build-set v (holds o) = refl

get-delete :
    (s : Store)
    → (store_delete s).1 ≡ done tt
    → (m : Text) × (store_get (store_delete s).0 ≡ fails (no_entry m))
unfolding store_delete store_get
get-delete off h = cc
get-delete (holds none) h = cc
get-delete (holds (some v)) h = (codes "none", refl)

delete_fails :
    (s : Store) (e : KeyringError) → (store_delete s).1 ≡ fails e → (store_delete s).0 ≡ s
unfolding store_delete
delete_fails off e h = refl
delete_fails (holds none) e h = refl
delete_fails (holds (some v)) e h = cc

build-delete : (s : Store) → store_build (store_delete s).0 ≡ store_build s
unfolding store_build store_delete
build-delete off = refl
build-delete (holds none) = refl
build-delete (holds (some v)) = refl

missing :
    (s : Store) (m : Text)
    → (store_delete s).1 ≡ fails (no_entry m)
    → (n : Text) × (store_get s ≡ fails (no_entry n))
unfolding store_delete store_get
missing off m h = cc
missing (holds none) m h = (codes "none", refl)
missing (holds (some v)) m h = cc

entry : Entry Store
entry = record {
  build = store_build;
  set_password = store_set;
  get_password = store_get;
  delete_credential = store_delete;
  get-set = get-set;
  set_fails = set_fails;
  build-set = build-set;
  get-delete = get-delete;
  delete_fails = delete_fails;
  build-delete = build-delete;
  missing = missing;
}

abbrev old : Text
old = 111 ∷ []

abbrev value : Text
value = 110 ∷ []

abbrev service_down : Keyrings Store Store
service_down = record { primary = off; fallback = holds none }

abbrev both_up : Keyrings Store Store
both_up = record { primary = holds (some old); fallback = holds (some value) }

set_down : (set_with_fallback entry entry value service_down).1 ≡ ok tt
unfolding set_with_fallback set_fallback entry store_build store_set is_secret_service_unavailable
set_down = refl

set_up : (set_with_fallback entry entry value both_up).1 ≡ ok tt
unfolding set_with_fallback set_fallback entry store_build store_set is_secret_service_unavailable
set_up = refl

steady :
    (e : KeyringError)
    → (entry.set_password value service_down.primary).1 ≡ fails e
    → is_secret_service_unavailable e ≡ true
    → (e' : KeyringError) × (entry.get_password service_down.primary ≡ fails e')
      × (is_secret_service_unavailable e' ≡ true)
unfolding entry store_set store_get is_secret_service_unavailable
steady e h u = (down, refl, refl)

get-set_with_fallback_example :
    get_with_fallback entry entry old (set_with_fallback entry entry value service_down).0
    ≡ ok value
get-set_with_fallback_example =
    get-set_with_fallback entry entry service_down old value steady set_down
