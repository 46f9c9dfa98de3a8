-- ===== src/HostService/Compensation.antt =====
-- core/host_service.rs: what a save that fails leaves behind.
use titan_ssh.Common.{
  ◌≡◌, refl, ◌∙◌, ap, subst, ◌⊎◌, inl, inr, Bool, true, false, not, List, [], ◌∷◌, ◌++◌, Option,
  none, some, Text, text_eq, nat_eq, ◌==◌, if◌then◌else◌, if_rule, find, arith, is_empty,
  Bool-cases,
}
use titan_ssh.Errors.{AppError, Result, ok, err, result_rule}
use titan_ssh.TrustStore.Records.{Base64, Parse-cases}
use titan_ssh.TrustStore.State.{Publish, File}
use titan_ssh.HostIdentity.State.{contains}
use titan_ssh.HostService.Hosts.{
  auth_eq, HostConfig, SaveHostRequest, Json, Write, written, write_fails, load, save_hosts,
  write_file,
}
use titan_ssh.HostService.Service.{
  CredentialStore, password_key, passphrase_key, HostConfigService, validate_save_request,
  upsert_host, has_id, Attempt, Written, resolve_credential_ref, forget_credential, compensate,
}
use titan_ssh.HostService.Operations.{save_over, attempt_save, save}

contains-append_one :
    (j key : Text) (keys : List Text)
    → contains j (keys ++ key ∷ []) ≡ false
    → (contains j keys ≡ false) × ((key == j) ≡ false)
contains-append_one j key [] h = (refl, ground arith)
contains-append_one j key (k ∷ ks) h = elim (Bool-cases (k == j)) [
  | inl q ↦ (let z : true ≡ false = ground arith in cc)
  | inr q ↦ (let r = contains-append_one j key ks (ground arith) in (ground arith, r.1))
]

write_file-err :
    (answer : Write) (text : Text) (e : AppError)
    → (write_file answer text).1 ≡ err e
    → (error : Text) × (left : File) × (answer ≡ write_fails error left)
      × ((write_file answer text).0 ≡ left)
unfolding write_file
write_file-err written text e h = cc
write_file-err (write_fails error left) text e h = (error, left, refl, refl)

-- A failed save of the file leaves it, or what the failed write left.
save_hosts-err :
    (json : Json) (answer : Write) (hosts : List HostConfig) (file : File) (e : AppError)
    → (save_hosts json answer hosts file).1 ≡ err e
    → ((save_hosts json answer hosts file).0 ≡ file)
      ⊎ ((error : Text) × (left : File) × (answer ≡ write_fails error left)
          × ((save_hosts json answer hosts file).0 ≡ left))
unfolding save_hosts
save_hosts-err json answer hosts file e h = elim (Parse-cases (json.print hosts)) [
  | inl (text, q) ↦
      (let r : save_hosts json answer hosts file ≡ write_file answer text = simp (save_hosts, q) in
        let h' : (write_file answer text).1 ≡ err e =
          subst (λ (x : File × Result (Unit {0})). x.1 ≡ err e) r h in
        let (error, left, a, b) = write_file-err answer text e h' in
        inr (error, left, a, ap (λ (x : File × Result (Unit {0})). x.0) r ∙ b))
  | inr (x, q) ↦ inl (simp (save_hosts, q))
]

module _ {C : Type 0} (credentials : CredentialStore C) where
  -- The `delete` of the store does not fail.
  abbrev pub Deletes : Type 0
  Deletes = (k : Text) (c : C) → (credentials.delete k c).1 ≡ ok tt

  -- A read differs only for the keys that were written.
  abbrev pub Tracks : C → C → List Text → Type 0
  Tracks before after keys =
      (j : Text) → contains j keys ≡ false → credentials.read j after ≡ credentials.read j before

  resolve-Tracks :
      (key : Text) (provided existing_ref : Option Text) (changed : Bool) (before : C)
      (w : Written C)
      → Tracks before w.store w.keys
      → let v = (resolve_credential_ref credentials key provided existing_ref changed w).0 in
        Tracks before v.store v.keys
  unfolding resolve_credential_ref
  resolve-Tracks key none existing_ref changed before w h = h
  resolve-Tracks key (some value) existing_ref changed before w h =
      let P : Written C × Result (Option Text) → Type 0 = λ r. Tracks before r.0.store r.0.keys in
      if_rule P (is_empty value) (λ _. h)
        (λ _.
          result_rule P (credentials.set key value w.store).1
            (λ e q j n. credentials.read-set_err key value j w.store e q ∙ h j n)
            (λ u q j n.
              (let r = contains-append_one j key w.keys n in
                credentials.read-set key value j w.store (q ∙ refl) ∙ (rw r.1 (h j r.0)))))

  pub compensate-read :
      Deletes
      → (j : Text) (keys : List Text) (c : C)
      → credentials.read j (compensate credentials keys c)
        ≡ (if contains j keys then none else credentials.read j c)
  unfolding compensate forget_credential
  compensate-read d j [] c = refl
  compensate-read d j (key ∷ keys) c =
      let t = (credentials.delete key c).0 in
      let r = compensate-read d j keys t in
      let e = credentials.read-delete key j c (d key c) in ground arith

  -- What an attempt that fails has changed.
  pub record HasFailed (answer : Write) (s : HostConfigService C) (a : Attempt C) : Type 0 where
    pub tracks : Tracks s.credential_store a.service.credential_store a.written_keys
    pub same_trust : a.service.trust_cleanup ≡ s.trust_cleanup
    pub same_file :
        (a.service.host_store ≡ s.host_store)
        ⊎ ((error : Text) × (left : File) × (answer ≡ write_fails error left)
            × (a.service.host_store ≡ left))

module _ {C : Type 0} (credentials : CredentialStore C) (json : Json) (answer : Write)
    (request : SaveHostRequest) where
  save_over-HasFailed :
      (hosts : List HostConfig) (existing : Option HostConfig) (s : HostConfigService C)
      (e : AppError)
      → (save_over credentials json answer request hosts existing s).outcome ≡ err e
      → HasFailed credentials answer s (save_over credentials json answer request hosts existing s)
  unfolding save_over
  save_over-HasFailed hosts existing s e =
      let P : Attempt C → Type 0 = λ a. a.outcome ≡ err e → HasFailed credentials answer s a in
      let changed : Bool = elim existing [
        | none ↦ false
        | some h ↦ not (h.auth_type == request.auth_type)
      ] in
      let start : Written C = record { store = s.credential_store; keys = [] } in
      let old_password : Option Text = elim existing [ none ↦ none | some h ↦ h.password_ref ] in
      let old_passphrase : Option Text = elim existing [
        | none ↦ none
        | some h ↦ h.passphrase_ref
      ] in
      let one =
        resolve_credential_ref credentials (password_key request.id) request.password old_password
          changed start in
      let t1 =
        resolve-Tracks credentials (password_key request.id) request.password old_password changed
          s.credential_store start (λ j _. refl) in
      let two =
        resolve_credential_ref credentials (passphrase_key request.id) request.passphrase
          old_passphrase changed one.0 in
      let t2 =
        resolve-Tracks credentials (passphrase_key request.id) request.passphrase old_passphrase
          changed s.credential_store one.0 t1 in
      result_rule P one.1 (λ x _ _. record { tracks = t1; same_trust = refl; same_file = inl refl })
        (λ password_ref _.
          result_rule P two.1
            (λ x _ _. record { tracks = t2; same_trust = refl; same_file = inl refl })
            (λ passphrase_ref _.
              let config : HostConfig = record {
                id = request.id;
                name = request.name;
                host = request.host;
                port = request.port;
                username = request.username;
                auth_type = request.auth_type;
                password_ref = password_ref;
                private_key_path = request.private_key_path;
                passphrase_ref = passphrase_ref;
                remark = request.remark;
                group = request.group;
              } in
              let f = save_hosts-err json answer (upsert_host config hosts) s.host_store in
              result_rule P (save_hosts json answer (upsert_host config hosts) s.host_store).1
                (λ x q _. record { tracks = t2; same_trust = refl; same_file = f x q })
                (λ u _ q. cc)))

  attempt_save-HasFailed :
      (s : HostConfigService C) (e : AppError)
      → (attempt_save credentials json answer request s).outcome ≡ err e
      → HasFailed credentials answer s (attempt_save credentials json answer request s)
  unfolding attempt_save
  attempt_save-HasFailed s e =
      let P : Attempt C → Type 0 = λ a. a.outcome ≡ err e → HasFailed credentials answer s a in
      result_rule P (load json s.host_store)
        (λ x _ _. record { tracks = λ j _. refl; same_trust = refl; same_file = inl refl })
        (λ hosts _. save_over-HasFailed hosts (find (has_id request.id) hosts) s e)

  -- A valid save that fails before or at the write of `hosts.json`, with a credential store that
  -- deletes: the error is returned; each key that the save had written holds nothing, whether or
  -- not it held something before; every other key reads as before; the trust records are as they
  -- were; and so is the file, unless the write itself failed and left something else.
  pub save-compensates :
      (base64 : Base64) (disk : Publish) (s : HostConfigService C) (e : AppError)
      → Deletes credentials
      → validate_save_request request ≡ ok tt
      → (attempt_save credentials json answer request s).outcome ≡ err e
      → let t = (save credentials json base64 answer disk request s).0 in
        ((save credentials json base64 answer disk request s).1 ≡ err e)
        × ((j : Text)
            → credentials.read j t.credential_store ≡ (
                if contains j (attempt_save credentials json answer request s).written_keys
                then none
                else credentials.read j s.credential_store))
        × (t.trust_cleanup ≡ s.trust_cleanup)
        × ((t.host_store ≡ s.host_store)
            ⊎ ((error : Text) × (left : File) × (answer ≡ write_fails error left)
                × (t.host_store ≡ left)))
  unfolding save
  save-compensates base64 disk s e d v o =
      let a = attempt_save credentials json answer request s in
      let h = attempt_save-HasFailed s e o in
      let t : HostConfigService C = record a.service {
        credential_store = compensate credentials a.written_keys a.service.credential_store;
      } in
      let q : save credentials json base64 answer disk request s ≡ (t, err e) = simp (save, v, o) in
      let q0 = ap (λ (r : HostConfigService C × Result (List HostConfig)). r.0) q in
      (
        ap (λ (r : HostConfigService C × Result (List HostConfig)). r.1) q,
        (λ j.
            (let r = compensate-read credentials d j a.written_keys a.service.credential_store in
              ap (λ (x : HostConfigService C). credentials.read j x.credential_store) q0
              ∙ r
              ∙ elim (Bool-cases (contains j a.written_keys)) [
                | inl m ↦ rw m refl
                | inr m ↦ rw m (h.tracks j m)
              ])),
        ap (λ (x : HostConfigService C). x.trust_cleanup) q0 ∙ h.same_trust,
        elim h.same_file [
          | inl f ↦ inl (ap (λ (x : HostConfigService C). x.host_store) q0 ∙ f)
          | inr (x, left, y, f) ↦
              inr (x, left, y, ap (λ (x : HostConfigService C). x.host_store) q0 ∙ f)
        ],
      )
