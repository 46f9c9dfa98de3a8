-- ===== src/HostService/SecureCredentials.antt =====
-- `SecureCredentialStore` of core/host_service.rs on Linux: the interface of the host configurations over
-- the chain of storage/secure_store.rs, with two entries of the crate `keyring` for each key.
use titan_ssh.Common.{
  [], ◌≡◌, refl, sym, ◌∙◌, ap, subst, ◌⊎◌, inl, inr, false, Option, none, some, Text, text_eq, ◌==◌,
  if◌then◌else◌, beq_iff, Bool-cases,
}
use titan_ssh.Errors.{AppError, secure_store_error, Result, ok, err, Result-cases}
use titan_ssh.SecureStore.{
  KeyringError, message, done, fails, Answer-cases, is_secret_service_unavailable, Entry, Keyrings,
  set_with_fallback, get_with_fallback, delete_with_fallback,
}
use titan_ssh.SecureStore.Roundtrip.{get-set_with_fallback}
use titan_ssh.SecureStore.Deletes.{get-delete_with_fallback}
use titan_ssh.HostService.Service.{CredentialStore}

-- A store that can be reached.
abbrev pub IsUp : {S : Type 0} → Entry S → Type 0
IsUp {S} entry =
    ((s : S) → entry.build s ≡ done tt)
    × ((v : Text) (s : S) (e : KeyringError)
        → (entry.set_password v s).1 ≡ fails e
        → is_secret_service_unavailable e ≡ false)
    × ((s : S) (e : KeyringError)
        → (entry.delete_credential s).1 ≡ fails e
        → is_secret_service_unavailable e ≡ false)

-- A write that fails changes nothing.
set_with_fallback-err :
    {P F : Type 0} (secret_service : Entry P) (keyutils : Entry F) (value : Text) (s : Keyrings P F)
    (error : AppError)
    → IsUp secret_service
    → (set_with_fallback secret_service keyutils value s).1 ≡ err error
    → (set_with_fallback secret_service keyutils value s).0 ≡ s
unfolding set_with_fallback
set_with_fallback-err {P} {F} secret_service keyutils value s error up h =
    let b = up.0 s.primary in
    let r = secret_service.set_password value s.primary in
    elim (Answer-cases r.1) [
      | inl (w, x) ↦
          (let q : set_with_fallback secret_service keyutils value s
                ≡ (record s { primary = r.0 }, ok tt) =
              simp (set_with_fallback, b, x) in
            let z = sym h ∙ ap (λ (x : Keyrings P F × Result (Unit {0})). x.1) q in cc)
      | inr (e, x) ↦
          (let u = up.1 value s.primary e x in
            let q : set_with_fallback secret_service keyutils value s
                ≡ (record s { primary = r.0 }, err (secure_store_error (message e))) =
              simp (set_with_fallback, b, x, u) in
            ap (λ (x : Keyrings P F × Result (Unit {0})). x.0) q
            ∙ ap (λ (p : P). record s { primary = p })
                (secret_service.set_fails value s.primary e x))
    ]

abbrev pub to_option : Result Text → Option Text
to_option (ok value) = some value
to_option (err error) = none

module _ {P F : Type 0} (secret_service : Text → Entry P) (keyutils : Text → Entry F) where
  abbrev pub put : Text → Keyrings P F → (Text → Keyrings P F) → Text → Keyrings P F
  put key s c = λ j. if key == j then s else c j

  unfoldable pub set_credential :
      Text → Text → (Text → Keyrings P F) → (Text → Keyrings P F) × Result (Unit {0})
  set_credential key value c =
      let r = set_with_fallback (secret_service key) (keyutils key) value (c key) in
      (put key r.0 c, r.1)

  unfoldable pub delete_credential :
      Text → (Text → Keyrings P F) → (Text → Keyrings P F) × Result (Unit {0})
  delete_credential key c =
      let r = delete_with_fallback (secret_service key) (keyutils key) (c key) in
      (put key r.0 c, r.1)

  unfoldable pub get_credential : Text → (Text → Keyrings P F) → Result Text
  get_credential key c = get_with_fallback (secret_service key) (keyutils key) key (c key)

  abbrev pub found : Text → (Text → Keyrings P F) → Option Text
  found key c = to_option (get_credential key c)

  -- What is put under one key is read under it, and nothing else changes.
  found-put :
      (key j : Text) (s : Keyrings P F) (c : Text → Keyrings P F) (o : Option Text)
      → to_option (get_with_fallback (secret_service key) (keyutils key) key s) ≡ o
      → found j (put key s c) ≡ (if key == j then o else found j c)
  unfolding get_credential
  found-put key j s c o h = elim (Bool-cases (key == j)) [
    | inr b ↦ rw b refl
    | inl b ↦
        (let same = (beq_iff key j).0 b in
          rw b (
            subst (λ i. to_option (get_with_fallback (secret_service i) (keyutils i) i s) ≡ o) same
              h))
  ]

  put_same : (key j : Text) (c : Text → Keyrings P F) → found j (put key (c key) c) ≡ found j c
  unfolding get_credential
  put_same key j c = elim (Bool-cases (key == j)) [
    | inr b ↦ rw b refl
    | inl b ↦ (let same = ap c ((beq_iff key j).0 b) in rw b (rw same refl))
  ]

  module _ (up : (k : Text) → IsUp (secret_service k))
      (up_fallback : (k : Text) → IsUp (keyutils k)) where
    set_credential-put :
        (key value j : Text) (c : Text → Keyrings P F)
        → (((set_credential key value c).1 ≡ ok tt)
            × (found j (set_credential key value c).0
                ≡ (if key == j then some value else found j c)))
          ⊎ ((error : AppError) × ((set_credential key value c).1 ≡ err error)
              × (found j (set_credential key value c).0 ≡ found j c))
    unfolding set_credential
    set_credential-put key value j c =
        let r = set_with_fallback (secret_service key) (keyutils key) value (c key) in
        elim (Result-cases r.1) [
          | inl (u, q) ↦ inl (
            q,
            found-put key j r.0 c (some value) (
                ap to_option (
                  get-set_with_fallback (secret_service key) (keyutils key) (c key) key value
                    (λ e x d. (let y = (up key).1 value (c key).primary e x in cc)) q)),
          )
          | inr (error, q) ↦ inr (
            error,
            q,
            ap (λ (s : Keyrings P F). found j (put key s c))
                  (set_with_fallback-err (secret_service key) (keyutils key) value (c key) error
                    (up key) q)
                ∙ put_same key j c,
          )
        ]

    delete_credential-put :
        (key j : Text) (c : Text → Keyrings P F)
        → (((delete_credential key c).1 ≡ ok tt)
            × (found j (delete_credential key c).0 ≡ (if key == j then none else found j c)))
          ⊎ ((error : AppError) × ((delete_credential key c).1 ≡ err error)
              × ((key ≡ j) ⊎ (found j (delete_credential key c).0 ≡ found j c)))
    unfolding delete_credential get_credential
    delete_credential-put key j c =
        let r = delete_with_fallback (secret_service key) (keyutils key) (c key) in
        elim (Result-cases r.1) [
          | inl (u, q) ↦ inl (
            q,
            found-put key j r.0 c none (
                ap to_option (
                  get-delete_with_fallback (secret_service key) (keyutils key) (c key) key
                    ((up key).0 (c key).primary, (up key).2 (c key).primary)
                    ((up_fallback key).0 (c key).fallback, (up_fallback key).2 (c key).fallback)
                    q)),
          )
          | inr (error, q) ↦ inr (
            error,
            q,
            elim (Bool-cases (key == j)) [
              | inl b ↦ inl ((beq_iff key j).0 b)
              | inr b ↦ inr (rw b refl)
            ],
          )
        ]

    -- While both key rings can be reached, the chain is a credential store. After a write that succeeds its value is read back, after a delete that succeeds there is nothing to read under its key, and a write that fails changes nothing; whatever becomes of a call, other keys keep what they have.
    pub secure_store-IsStore :
        (key value j : Text) (c : Text → Keyrings P F)
        → ((((set_credential key value c).1 ≡ ok tt)
              × (found j (set_credential key value c).0
                  ≡ (if key == j then some value else found j c)))
            ⊎ ((error : AppError) × ((set_credential key value c).1 ≡ err error)
                × (found j (set_credential key value c).0 ≡ found j c)))
          × ((((delete_credential key c).1 ≡ ok tt)
                × (found j (delete_credential key c).0 ≡ (if key == j then none else found j c)))
              ⊎ ((error : AppError) × ((delete_credential key c).1 ≡ err error)
                  × ((key ≡ j) ⊎ (found j (delete_credential key c).0 ≡ found j c))))
    secure_store-IsStore key value j c =
        (set_credential-put key value j c, delete_credential-put key j c)

    -- The interface of the host configurations.
    unfoldable pub secure_credentials : CredentialStore (Text → Keyrings P F)
    secure_credentials = record {
      set = set_credential;
      delete = delete_credential;
      read = found;
      read-set = λ k v j c h. elim (secure_store-IsStore k v j c).0 [
        | inl (_, q) ↦ q
        | inr (e, h', _) ↦ (let z = sym h ∙ h' in cc)
      ];
      read-set_err = λ k v j c e h. elim (secure_store-IsStore k v j c).0 [
        | inl (h', _) ↦ (let z = sym h' ∙ h in cc)
        | inr (_, _, q) ↦ q
      ];
      read-delete = λ k j c h. elim (secure_store-IsStore k [] j c).1 [
        | inl (_, q) ↦ q
        | inr (e, h', _) ↦ (let z = sym h ∙ h' in cc)
      ];
    }
