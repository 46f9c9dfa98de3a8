-- ===== src/SecureStore/Roundtrip.antt =====
-- storage/secure_store.rs: what a read finds after a write, a delete, and a restart of the service.
use titan_ssh.Common.{◌≡◌, refl, sym, ◌∙◌, ap, ◌⊎◌, inl, inr, true, Text, Bool-cases}
use titan_ssh.Errors.{secure_store_error, Result, ok, err}
use titan_ssh.SecureStore.{
  KeyringError, platform_failure, no_storage_access, no_entry, other, message, done, fails,
  Answer-cases, is_secret_service_unavailable, Entry, Keyrings, from_keyring, set_fallback,
  set_with_fallback, from_fallback, read_fallback, from_primary, get_with_fallback,
}

module _ {P F : Type 0} (secret_service : Entry P) (keyutils : Entry F) (s : Keyrings P F) where
  read-set_fallback :
      (key value : Text)
      → (set_fallback keyutils value s).1 ≡ ok tt
      → ((set_fallback keyutils value s).0.primary ≡ s.primary)
        × (read_fallback keyutils key (set_fallback keyutils value s).0 ≡ ok value)
  unfolding set_fallback read_fallback from_fallback
  read-set_fallback key value h = elim (Answer-cases (keyutils.build s.fallback)) [
    | inr (e, b) ↦
        (let q : set_fallback keyutils value s ≡ (s, err (secure_store_error (message e))) =
            simp (set_fallback, b) in
          let z = sym h ∙ ap (λ (x : Keyrings P F × Result (Unit {0})). x.1) q in cc)
    | inl (u, b) ↦
        (let r = keyutils.set_password value s.fallback in
          let q : set_fallback keyutils value s ≡ (record s { fallback = r.0 }, from_keyring r.1) =
            simp (set_fallback, b) in
          elim (Answer-cases r.1) [
            | inr (e, x) ↦
                (let z : ok tt ≡ err (secure_store_error (message e)) =
                    sym h ∙ ap (λ (x : Keyrings P F × Result (Unit {0})). x.1) q ∙ (rw x refl) in
                  cc)
            | inl (w, x) ↦
                (let q0 = ap (λ (x : Keyrings P F × Result (Unit {0})). x.0) q in
                  let g = keyutils.get-set value s.fallback (x ∙ refl) in
                  let b' : keyutils.build r.0 ≡ done tt = keyutils.build-set value s.fallback ∙ b in
                  let y : read_fallback keyutils key (record s { fallback = r.0 }) ≡ ok value =
                    simp (read_fallback, from_fallback, b', g) in
                  (ap (λ (x : Keyrings P F). x.primary) q0, ap (read_fallback keyutils key) q0 ∙ y))
          ])
  ]

  -- A primary store that is not there sends a read to the fall-back.
  get_unavailable :
      (key : Text) (t : Keyrings P F)
      → ((e : KeyringError) × (secret_service.build t.primary ≡ fails e)
          × (is_secret_service_unavailable e ≡ true))
        ⊎ ((secret_service.build t.primary ≡ done tt)
            × ((e : KeyringError) × (secret_service.get_password t.primary ≡ fails e)
                × (is_secret_service_unavailable e ≡ true)))
      → get_with_fallback secret_service keyutils key t ≡ read_fallback keyutils key t
  unfolding get_with_fallback from_primary is_secret_service_unavailable
  get_unavailable key t (inl (e, b, u)) = simp (get_with_fallback, b, u)
  get_unavailable key t (inr (b, (platform_failure m, g, u))) =
      simp (get_with_fallback, from_primary, b, g)
  get_unavailable key t (inr (b, (no_storage_access m, g, u))) =
      simp (get_with_fallback, from_primary, b, g)
  get_unavailable key t (inr (b, (no_entry m, g, u))) = cc
  get_unavailable key t (inr (b, (other m, g, u))) = cc

  -- A credential that was set is read back, as long as the secret service, if it could not be
  -- reached for the write, cannot be reached for the read either.
  pub get-set_with_fallback :
      (key value : Text)
      → ((e : KeyringError)
          → (secret_service.set_password value s.primary).1 ≡ fails e
          → is_secret_service_unavailable e ≡ true
          → (e' : KeyringError) × (secret_service.get_password s.primary ≡ fails e')
            × (is_secret_service_unavailable e' ≡ true))
      → (set_with_fallback secret_service keyutils value s).1 ≡ ok tt
      → get_with_fallback secret_service keyutils key
          (set_with_fallback secret_service keyutils value s).0
        ≡ ok value
  unfolding set_with_fallback get_with_fallback from_primary
  get-set_with_fallback key value steady h = elim (Answer-cases (secret_service.build s.primary)) [
    | inr (e, b) ↦ elim (Bool-cases (is_secret_service_unavailable e)) [
      | inr u ↦
          (let q : set_with_fallback secret_service keyutils value s
                ≡ (s, err (secure_store_error (message e))) =
              simp (set_with_fallback, b, u) in
            let z = sym h ∙ ap (λ (x : Keyrings P F × Result (Unit {0})). x.1) q in cc)
      | inl u ↦
          (let q : set_with_fallback secret_service keyutils value s
                ≡ set_fallback keyutils value s =
              simp (set_with_fallback, b, u) in
            let h' = sym (ap (λ (x : Keyrings P F × Result (Unit {0})). x.1) q) ∙ h in
            let r = read-set_fallback key value h' in
            let t = (set_fallback keyutils value s).0 in
            ap
              (λ (x : Keyrings P F × Result (Unit {0})).
                get_with_fallback secret_service keyutils key x.0)
              q
            ∙ get_unavailable key t (inl (e, ap secret_service.build r.0 ∙ b, u))
            ∙ r.1)
    ]
    | inl (v, b) ↦
        (let r = secret_service.set_password value s.primary in
          elim (Answer-cases r.1) [
            | inl (w, x) ↦
                (let q : set_with_fallback secret_service keyutils value s
                      ≡ (record s { primary = r.0 }, ok tt) =
                    simp (set_with_fallback, b, x) in
                  let g = secret_service.get-set value s.primary (x ∙ refl) in
                  let b' : secret_service.build r.0 ≡ done tt =
                    secret_service.build-set value s.primary ∙ b in
                  let y : get_with_fallback secret_service keyutils key (record s { primary = r.0 })
                      ≡ ok value =
                    simp (get_with_fallback, from_primary, b', g) in
                  ap
                    (λ (x : Keyrings P F × Result (Unit {0})).
                      get_with_fallback secret_service keyutils key x.0)
                    q
                  ∙ y)
            | inr (e, x) ↦
                (let same : r.0 ≡ s.primary = secret_service.set_fails value s.primary e x in
                  elim (Bool-cases (is_secret_service_unavailable e)) [
                    | inr u ↦
                        (let q : set_with_fallback secret_service keyutils value s
                              ≡ (record s { primary = r.0 }, err (secure_store_error (message e))) =
                            simp (set_with_fallback, b, x, u) in
                          let z = sym h ∙ ap (λ (x : Keyrings P F × Result (Unit {0})). x.1) q in
                          cc)
                    | inl u ↦
                        (let q : set_with_fallback secret_service keyutils value s
                              ≡ set_fallback keyutils value (record s { primary = r.0 }) =
                            simp (set_with_fallback, b, x, u) in
                          let q' =
                            q
                            ∙ ap (λ p. set_fallback keyutils value (record s { primary = p }))
                                same in
                          let h' =
                            sym (ap (λ (x : Keyrings P F × Result (Unit {0})). x.1) q') ∙ h in
                          let y = read-set_fallback key value h' in
                          let t = (set_fallback keyutils value s).0 in
                          let (e', g, u') = steady e x u in
                          ap
                            (λ (x : Keyrings P F × Result (Unit {0})).
                              get_with_fallback secret_service keyutils key x.0)
                            q'
                          ∙ get_unavailable key t (
                              inr (
                                ap secret_service.build y.0 ∙ b,
                                (e', ap secret_service.get_password y.0 ∙ g, u'),
                              ))
                          ∙ y.1)
                  ])
          ])
  ]
