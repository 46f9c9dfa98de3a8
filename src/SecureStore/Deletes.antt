-- ===== src/SecureStore/Deletes.antt =====
-- storage/secure_store.rs: what a delete leaves in the two stores.
use titan_ssh.Common.{
  ◌≡◌, refl, sym, ◌∙◌, ap, inl, inr, false, Option, none, some, Text, if_rule, Option-cases,
}
use titan_ssh.Errors.{AppError, secure_store_error, credential_not_found, ok, err}
use titan_ssh.SecureStore.{
  KeyringError, platform_failure, no_storage_access, no_entry, other, done, fails, Answer-cases,
  is_secret_service_unavailable, Entry, Keyrings, from_fallback, read_fallback, from_primary,
  get_with_fallback, keep_first, keep_first_build, attempt_delete, delete_with_fallback,
}

keep_first-some : (e : KeyringError) (x : AppError) → keep_first e (some x) ≡ some x
unfolding keep_first
keep_first-some (platform_failure m) x = refl
keep_first-some (no_storage_access m) x = refl
keep_first-some (no_entry m) x = refl
keep_first-some (other m) x = refl

keep_first_build-some : (e : KeyringError) (x : AppError) → keep_first_build e (some x) ≡ some x
unfolding keep_first_build
keep_first_build-some e x =
    if_rule (λ o. o ≡ some x) (is_secret_service_unavailable e) (λ _. refl) (λ _. refl)

module _ {S : Type 0} (entry : Entry S) (s : S) where
  -- An attempt does the same whatever happened before, and keeps an error that did.
  attempt_delete-some :
      (x : AppError)
      → ((attempt_delete entry s (some x)).0 ≡ (attempt_delete entry s none).0)
        × ((attempt_delete entry s (some x)).1 ≡ some x)
  unfolding attempt_delete
  attempt_delete-some x = elim (Answer-cases (entry.build s)) [
    | inr (e, b) ↦
        (let k = keep_first_build-some e x in
          (simp (attempt_delete, b), simp (attempt_delete, b, k)))
    | inl (u, b) ↦ elim (Answer-cases (entry.delete_credential s).1) [
      | inl (v, d) ↦ (simp (attempt_delete, b, d), simp (attempt_delete, b, d))
      | inr (e, d) ↦
          (let k = keep_first-some e x in
            (simp (attempt_delete, b, d), simp (attempt_delete, b, d, k)))
    ]
  ]

  -- The store can be reached, for the entry and for its deletion.
  abbrev pub IsReachable : Type 0
  IsReachable =
      (entry.build s ≡ done tt)
      × ((e : KeyringError)
          → (entry.delete_credential s).1 ≡ fails e
          → is_secret_service_unavailable e ≡ false)

  attempt_delete-gone :
      IsReachable
      → (attempt_delete entry s none).1 ≡ none
      → (entry.build (attempt_delete entry s none).0 ≡ done tt)
        × ((m : Text) × (entry.get_password (attempt_delete entry s none).0 ≡ fails (no_entry m)))
  unfolding attempt_delete keep_first is_secret_service_unavailable
  attempt_delete-gone r h = elim (Answer-cases (entry.delete_credential s).1) [
    | inl (v, d) ↦
        (let b = r.0 in
          let q : attempt_delete entry s none ≡ ((entry.delete_credential s).0, none) =
            simp (attempt_delete, b, d) in
          let (m, g) = entry.get-delete s (d ∙ refl) in
          (
            ap (λ (x : S × Option AppError). entry.build x.0) q ∙ entry.build-delete s ∙ b,
            (m, ap (λ (x : S × Option AppError). entry.get_password x.0) q ∙ g),
          ))
    | inr (no_entry k, d) ↦
        (let b = r.0 in
          let q : attempt_delete entry s none ≡ ((entry.delete_credential s).0, none) =
            simp (attempt_delete, keep_first, b, d) in
          let same = entry.delete_fails s (no_entry k) d in
          let (m, g) = entry.missing s k d in
          (
            ap (λ (x : S × Option AppError). entry.build x.0) q ∙ ap entry.build same ∙ b,
            (
              m,
              ap (λ (x : S × Option AppError). entry.get_password x.0) q
                  ∙ ap entry.get_password same
                  ∙ g,
            ),
          ))
    | inr (other k, d) ↦
        (let b = r.0 in
          let q : attempt_delete entry s none
              ≡ ((entry.delete_credential s).0, some (secure_store_error k)) =
            simp (attempt_delete, keep_first, b, d) in
          let z = sym h ∙ ap (λ (x : S × Option AppError). x.1) q in cc)
    | inr (platform_failure k, d) ↦ (let z = r.1 (platform_failure k) d in cc)
    | inr (no_storage_access k, d) ↦ (let z = r.1 (no_storage_access k) d in cc)
  ]

module _ {P F : Type 0} (secret_service : Entry P) (keyutils : Entry F) (s : Keyrings P F) where
  -- A delete tries both stores: the fall-back is cleaned just as it would be alone, even if the
  -- secret service reports a hard error, which is then the error that is returned.
  delete_with_fallback-both :
      ((delete_with_fallback secret_service keyutils s).0 ≡ record {
        primary = (attempt_delete secret_service s.primary none).0;
        fallback = (attempt_delete keyutils s.fallback none).0;
      })
      × ((x : AppError)
          → (attempt_delete secret_service s.primary none).1 ≡ some x
          → (delete_with_fallback secret_service keyutils s).1 ≡ err x)
  unfolding delete_with_fallback
  delete_with_fallback-both = elim (Option-cases (attempt_delete secret_service s.primary none).1) [
    | inl n ↦
        (let q : (delete_with_fallback secret_service keyutils s).0 ≡ record {
          primary = (attempt_delete secret_service s.primary none).0;
          fallback = (attempt_delete keyutils s.fallback none).0;
        } =
            simp (delete_with_fallback, n) in
          (q, λ x m. (let z : none ≡ some x = sym n ∙ m in cc)))
    | inr (y, n) ↦
        (let a = attempt_delete-some keyutils s.fallback y in
          let a0 = a.0 in
          let a1 = a.1 in
          (
            simp (delete_with_fallback, n, a0),
            λ x m.
                (let e : y ≡ x = (let z = sym n ∙ m in cc) in
                  let q : (delete_with_fallback secret_service keyutils s).1 ≡ err y =
                    simp (delete_with_fallback, n, a1) in
                  q ∙ ap err e),
          ))
  ]

  -- After a delete that succeeds, with both stores reachable, a read reports that there is no
  -- such credential.
  pub get-delete_with_fallback :
      (key : Text)
      → IsReachable secret_service s.primary
      → IsReachable keyutils s.fallback
      → (delete_with_fallback secret_service keyutils s).1 ≡ ok tt
      → get_with_fallback secret_service keyutils key
          (delete_with_fallback secret_service keyutils s).0
        ≡ err (credential_not_found key)
  unfolding delete_with_fallback get_with_fallback from_primary read_fallback from_fallback
  get-delete_with_fallback key rp rf h =
      elim (Option-cases (attempt_delete secret_service s.primary none).1) [
        | inr (y, n) ↦ (let z : ok tt ≡ err y = sym h ∙ delete_with_fallback-both.1 y n in cc)
        | inl n ↦ elim (Option-cases (attempt_delete keyutils s.fallback none).1) [
          | inr (y, m) ↦
              (let q : (delete_with_fallback secret_service keyutils s).1 ≡ err y =
                  simp (delete_with_fallback, n, m) in
                let z = sym h ∙ q in cc)
          | inl m ↦
              (let (b1, (m1, g1)) = attempt_delete-gone secret_service s.primary rp n in
                let (b2, (m2, g2)) = attempt_delete-gone keyutils s.fallback rf m in
                let t : Keyrings P F = record {
                  primary = (attempt_delete secret_service s.primary none).0;
                  fallback = (attempt_delete keyutils s.fallback none).0;
                } in
                let y : get_with_fallback secret_service keyutils key t
                    ≡ err (credential_not_found key) =
                  simp (
                    get_with_fallback, from_primary, read_fallback, from_fallback, b1, g1, b2, g2,
                  ) in
                ap (get_with_fallback secret_service keyutils key) delete_with_fallback-both.0 ∙ y)
        ]
      ]
