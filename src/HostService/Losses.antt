-- ===== src/HostService/Losses.antt =====
-- core/host_service.rs: the credential of a host that is saved again.
use titan_ssh.Common.{◌≡◌, refl, ◌∙◌, ap, inl, inr, true, none, some, Text, text_eq}
use titan_ssh.Errors.{AppError, ok, err}
use titan_ssh.TrustStore.Records.{Base64}
use titan_ssh.TrustStore.State.{Publish}
use titan_ssh.HostIdentity.State.{contains}
use titan_ssh.HostService.Hosts.{HostConfig, SaveHostRequest, Json, write_fails}
use titan_ssh.HostService.Service.{
  CredentialStore, password_key, HostConfigService, validate_save_request, get_host,
}
use titan_ssh.HostService.Operations.{attempt_save, save}
use titan_ssh.HostService.Compensation.{Deletes, save-compensates}

module _ {C : Type 0} (credentials : CredentialStore C) (json : Json) where
  -- A host is saved again with a new password, which the credential store takes, and writing
  -- `hosts.json` fails without a change to the file. Then the host is still there as it was, and
  -- the key of its password holds nothing, whatever password it held before.
  pub save_failure_dangles :
      (base64 : Base64) (disk : Publish) (request : SaveHostRequest) (s : HostConfigService C)
      (error : Text) (e : AppError) (h : HostConfig)
      → Deletes credentials
      → validate_save_request request ≡ ok tt
      → (attempt_save credentials json (write_fails error s.host_store) request s).outcome ≡ err e
      → contains
          (password_key request.id)
          (attempt_save credentials json (write_fails error s.host_store) request s).written_keys
        ≡ true
      → get_host json request.id s ≡ ok (some h)
      → let t = (save credentials json base64 (write_fails error s.host_store) disk request s).0 in
        (get_host json request.id t ≡ ok (some h))
        × (credentials.read (password_key request.id) t.credential_store ≡ none)
  unfolding get_host
  save_failure_dangles base64 disk request s error e h d v o m g =
      let w = write_fails error s.host_store in
      let (r, reads, trust, file) =
        save-compensates credentials json w request base64 disk s e d v o in
      let t = (save credentials json base64 w disk request s).0 in
      let same : t.host_store ≡ s.host_store = elim file [
        | inl f ↦ f
        | inr (x, left, y, f) ↦ (let l : s.host_store ≡ left = cc in f ∙ (let k = l in cc))
      ] in
      (
        ap (λ f. get_host json request.id (record t { host_store = f })) same
            ∙ get_host_file request.id s t
            ∙ g,
        reads (password_key request.id) ∙ (rw m refl),
      )
    where
      get_host_file :
          (id : Text) (s t : HostConfigService C)
          → get_host json id (record t { host_store = s.host_store }) ≡ get_host json id s
      get_host_file id s t = refl
