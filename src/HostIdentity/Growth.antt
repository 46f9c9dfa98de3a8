-- ===== src/HostIdentity/Growth.antt =====
-- core/host_identity.rs: how the sets of trusted keys and of closed sessions may change.
use titan_ssh.Common.{
  ℕ, refl, sym, ◌∙◌, ap, inl, inr, List, [], ◌∷◌, some, Text, text_eq, map, get, Option-cases,
  option_rule, if_rule,
}
use titan_ssh.TrustStore.Records.{Base64}
use titan_ssh.TrustStore.State.{Publish, Store}
use titan_ssh.Errors.{Result, Result-cases}
use titan_ssh.HostIdentity.State.{
  HostIdentityService, ChallengeWait, key_eq, presented_key, from_challenge, drop_wait, decide,
  contains,
}
use titan_ssh.HostIdentity.Verify.{trust_matched, stored_record, open_challenge, announce}
use titan_ssh.HostIdentity.Decisions.{
  accept, cancel_by_id, cancel_ids, cancel_all, accept_and_save, forget_endpoint, record_of,
}
use titan_ssh.HostIdentity.Consistent.{reject_found, reject_missing}
use titan_ssh.HostIdentity.Steps.{
  Step, Reach, looks_up, matched, opens, accepts, saves, rejects, cancels, cancels_all, cancels_id,
  forgets, here, next, stored_record-same, forget_endpoint-same,
}
use titan_ssh.HostIdentity.Frames.{
  Grows, Grows-add, Grows-same, announce_frame, cancel_ids_frame, cancel_session-Grows, open_frame,
  release_frame,
}

module _ {base64 : Base64} {digest : List ℕ → List ℕ} where
  pub Step-Grows : {s t : HostIdentityService} → Step base64 digest s t → Grows s t
  Step-Grows (looks_up s presented) =
      let e = stored_record-same base64 presented s in
      Grows-same s (stored_record base64 presented s).0
        (sym (ap (λ (u : HostIdentityService). u.trusted) e))
        (sym (ap (λ (u : HostIdentityService). u.cancelled) e))
  Step-Grows (matched s session_id presented r m) =
      unfold trust_matched in
      if_rule (λ (r : HostIdentityService × Result (Unit {0})). Grows s r.0)
        (contains session_id s.cancelled) (λ _. Grows-same s s refl refl)
        (λ _. Grows-add (presented_key session_id presented) s _ refl refl)
  Step-Grows (opens s session_id presented stored id now fresh unused) =
      let r = open_challenge base64 digest session_id presented stored id now s in
      let f = announce_frame r in
      let g = open_frame base64 digest session_id presented stored id now s in
      Grows-same s (announce r).0 (sym (f.0 ∙ g.0)) (sym (f.1 ∙ g.1))
  Step-Grows (accepts s id) =
      unfold accept in
      unfold drop_wait in
      unfold decide in
      option_rule (λ (r : HostIdentityService × Result (Unit {0})). Grows s r.0) (get id s.pending)
        (λ _. Grows-same s s refl refl)
        (λ w _. Grows-add (from_challenge w.challenge) s _ refl refl)
  Step-Grows (saves s answer id) =
      unfold accept_and_save in
      let P : HostIdentityService × Result (Unit {0}) → Type 0 = λ r. Grows s r.0 in
      option_rule P (get id s.pending) (λ _. Grows-same s s refl refl)
        (λ w g.
          option_rule P s.trust_store (λ _. Grows-same s s refl refl)
            (λ store _.
              let r = titan_ssh.TrustStore.State.upsert base64 answer (record_of w) store in
              elim (Result-cases r.1) [
                | inl (u, q) ↦
                    (let f = release_frame id w (record s { trust_store = some r.0 }) in
                      rw q (Grows-add (from_challenge w.challenge) s _ (sym f.0) (sym f.1)))
                | inr (e, q) ↦ rw q (Grows-same s _ refl refl)
              ]))
  Step-Grows (rejects s id) = elim (Option-cases (get id s.pending)) [
    | inl q ↦ rw (reject_missing id s q) (Grows-same s s refl refl)
    | inr (w, q) ↦
        rw (reject_found id w s q) (unfold decide in unfold drop_wait in Grows-same s _ refl refl)
  ]
  Step-Grows (cancels s session_id) = cancel_session-Grows session_id s
  Step-Grows (cancels_id s id) =
      let f = cancel_ids_frame (id ∷ []) s in
      unfold cancel_ids in Grows-same s (cancel_by_id id s) (sym f.0) (sym f.1)
  Step-Grows (cancels_all s) =
      unfold cancel_all in
      let f = cancel_ids_frame (map (λ (e : Text × ChallengeWait). e.0) s.pending) s in
      Grows-same s _ (sym f.0) (sym f.1)
  Step-Grows (forgets s answer host port) =
      let e = forget_endpoint-same base64 answer host port s in
      Grows-same s (forget_endpoint base64 answer host port s).0
        (sym (ap (λ (u : HostIdentityService). u.trusted) e))
        (sym (ap (λ (u : HostIdentityService). u.cancelled) e))

  pub Reach-Grows : {s t : HostIdentityService} → Reach base64 digest s t → Grows s t
  Reach-Grows {s} here = Grows-same s s refl refl
  Reach-Grows {s} (next {t} {u} r e) =
      let a = Reach-Grows r in
      let b = Step-Grows e in
      record {
        closed = λ id h. b.closed id (a.closed id h);
        trusts = λ key h. elim (a.trusts key h) [
          | inl q ↦ b.trusts key q
          | inr q ↦ inr (b.closed key.session_id q)
        ];
      }
