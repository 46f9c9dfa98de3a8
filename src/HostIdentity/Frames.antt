-- ===== src/HostIdentity/Frames.antt =====
-- core/host_identity.rs: what each operation does to the sets of trusted keys and closed sessions.
use titan_ssh.Common.{
  ℕ, ◌≡◌, refl, sym, ◌∙◌, ap, subst, ◌⊎◌, inl, inr, Bool, true, false, not, List, [], ◌∷◌, Option,
  arith, Text, text_eq, get, ◌==◌, Eq, Option-cases, beq_iff, eq_cases, retain, option_rule,
  if_rule,
}
use titan_ssh.TrustStore.Records.{TrustRecord, Base64}
use titan_ssh.HostIdentity.State.{
  HostIdentityService, PresentedHostKey, ChallengeWait, IdentityKey, cancelled, accepted, key_eq,
  key_beq_iff, presented_key, from_challenge, drop_wait, drop_waits, decide, values, contains, add,
}
use titan_ssh.HostIdentity.Verify.{
  register, open_challenge, announce, Opened, returned, waits_for, panics,
}
use titan_ssh.HostIdentity.Decisions.{
  cancel_by_id, cancel_session, cancel_ids, release_saved, has_same_key,
}
use titan_ssh.HostIdentity.Batches.{drop_waits_frame, decide_all_frame}
use titan_ssh.HostIdentity.Consistent.{cancel_by_id_found, cancel_by_id_missing}
use titan_ssh.HostIdentity.Openings.{superseded_waits}

contains-add_keeps {ℓ} :
    {A : Type ℓ} ⦃e : Eq A⦄ (a b : A) (xs : List A)
    → contains b xs ≡ true
    → contains b (add a xs) ≡ true
contains-add_keeps a b xs h = ground arith

pub contains-add_self {ℓ} :
    {A : Type ℓ} ⦃e : Eq A⦄ (a : A) (xs : List A) → contains a (add a xs) ≡ true
contains-add_self ⦃e⦄ a xs = let s = (e.eq_iff a a).1 refl in ground arith

-- How the two sets may change: a closed session stays closed, and the trust in a key stays until
-- its session is closed.
pub record Grows (s t : HostIdentityService) : Type 0 where
  pub closed : (id : Text) → contains id s.cancelled ≡ true → contains id t.cancelled ≡ true
  pub trusts :
      (key : IdentityKey)
      → contains key s.trusted ≡ true
      → (contains key t.trusted ≡ true) ⊎ (contains key.session_id t.cancelled ≡ true)

pub Grows-same :
    (s t : HostIdentityService) → s.trusted ≡ t.trusted → s.cancelled ≡ t.cancelled → Grows s t
Grows-same s t e f = record {
  closed = λ id h. subst (λ c. contains id c ≡ true) f h;
  trusts = λ key h. inl (subst (λ c. contains key c ≡ true) e h);
}

pub Grows-add :
    (key : IdentityKey) (s t : HostIdentityService)
    → add key s.trusted ≡ t.trusted
    → s.cancelled ≡ t.cancelled
    → Grows s t
Grows-add key s t e f = record {
  closed = λ id h. subst (λ c. contains id c ≡ true) f h;
  trusts = λ k h. inl (subst (λ c. contains k c ≡ true) e (contains-add_keeps key k s.trusted h));
}

frame_drop :
    (ws : List ChallengeWait) (s : HostIdentityService)
    → ((drop_waits ws s).trusted ≡ s.trusted) × ((drop_waits ws s).cancelled ≡ s.cancelled)
frame_drop ws s = (
  ap (λ (u : HostIdentityService). u.trusted) (drop_waits_frame ws s),
  ap (λ (u : HostIdentityService). u.cancelled) (drop_waits_frame ws s),
)

pub announce_frame :
    (r : HostIdentityService × Opened)
    → ((announce r).0.trusted ≡ r.0.trusted) × ((announce r).0.cancelled ≡ r.0.cancelled)
unfolding announce
announce_frame (s, returned r) = (refl, refl)
announce_frame (s, panics) = (refl, refl)
announce_frame (s, waits_for w true ws) = (
  ap (λ (u : HostIdentityService). u.trusted) (decide_all_frame cancelled ws s),
  ap (λ (u : HostIdentityService). u.cancelled) (decide_all_frame cancelled ws s),
)
announce_frame (s, waits_for w false ws) = (
  ap (λ (u : HostIdentityService). u.trusted) (decide_all_frame cancelled ws s),
  ap (λ (u : HostIdentityService). u.cancelled) (decide_all_frame cancelled ws s),
)

pub cancel_ids_frame :
    (ids : List Text) (s : HostIdentityService)
    → ((cancel_ids ids s).trusted ≡ s.trusted) × ((cancel_ids ids s).cancelled ≡ s.cancelled)
unfolding cancel_ids
cancel_ids_frame [] s = (refl, refl)
cancel_ids_frame (id ∷ ids) s =
    let r = cancel_ids_frame ids (cancel_by_id id s) in
    elim (Option-cases (get id s.pending)) [
      | inl q ↦
          (let e = cancel_by_id_missing id s q in
            (
              r.0 ∙ ap (λ (u : HostIdentityService). u.trusted) e,
              r.1 ∙ ap (λ (u : HostIdentityService). u.cancelled) e,
            ))
      | inr (w, q) ↦
          (let e = cancel_by_id_found id w s q in
            (
              r.0
                  ∙ ap (λ (u : HostIdentityService). u.trusted) e
                  ∙ (unfold decide in unfold drop_wait in refl),
              r.1
                  ∙ ap (λ (u : HostIdentityService). u.cancelled) e
                  ∙ (unfold decide in unfold drop_wait in refl),
            ))
    ]

-- What `release_saved` does to the sets.
pub release_frame :
    (id : Text) (w : ChallengeWait) (s : HostIdentityService)
    → ((release_saved id w s).trusted ≡ add (from_challenge w.challenge) s.trusted)
      × ((release_saved id w s).cancelled ≡ s.cancelled)
unfolding release_saved
release_frame id w s =
    let t = drop_wait id w s in
    let others = retain (has_same_key w) (values t.pending) in
    let u : HostIdentityService = record t {
      trusted = add (from_challenge w.challenge) t.trusted;
    } in
    let v = drop_waits others u in
    let e = decide_all_frame accepted others (decide accepted w v) in
    let f = frame_drop others u in
    (
      ap (λ (x : HostIdentityService). x.trusted) e
          ∙ (unfold decide in f.0)
          ∙ (unfold drop_wait in refl),
      ap (λ (x : HostIdentityService). x.cancelled) e
          ∙ (unfold decide in f.1)
          ∙ (unfold drop_wait in refl),
    )

contains-retain_keeps :
    (key : IdentityKey) (f : IdentityKey → Bool) (xs : List IdentityKey)
    → contains key xs ≡ true
    → f key ≡ true
    → contains key (retain f xs) ≡ true
contains-retain_keeps key f [] h g = h
contains-retain_keeps key f (x ∷ xs) h g = elim (eq_cases x key) [
  | inl q ↦
      (let b = (key_beq_iff x key).1 q in
        let g' : f x ≡ true = subst (λ k. f k ≡ true) (sym q) g in ground arith)
  | inr n ↦
      (let b = (key_beq_iff x key).0 in
        let h' : contains key xs ≡ true = ground arith in
        let r = contains-retain_keeps key f xs h' g in ground arith)
]

pub cancel_session_frame :
    (session_id : Text) (s : HostIdentityService)
    → ((cancel_session session_id s).trusted
        ≡ retain (λ (key : IdentityKey). not (key.session_id == session_id)) s.trusted)
      × ((cancel_session session_id s).cancelled ≡ add session_id s.cancelled)
unfolding cancel_session
cancel_session_frame session_id s =
    let targets =
      retain (λ (w : ChallengeWait). w.challenge.session_id == session_id) (values s.pending) in
    let u : HostIdentityService = record s {
      trusted = retain (λ (key : IdentityKey). not (key.session_id == session_id)) s.trusted;
      cancelled = add session_id s.cancelled;
    } in
    let e = decide_all_frame cancelled targets (drop_waits targets u) in
    let f = frame_drop targets u in
    (
      ap (λ (x : HostIdentityService). x.trusted) e ∙ f.0,
      ap (λ (x : HostIdentityService). x.cancelled) e ∙ f.1,
    )

pub cancel_session-Grows :
    (session_id : Text) (s : HostIdentityService) → Grows s (cancel_session session_id s)
cancel_session-Grows session_id s =
    let f = cancel_session_frame session_id s in
    let self = contains-add_self session_id s.cancelled in
    record {
      closed = λ id h.
          subst (λ c. contains id c ≡ true) (sym f.1)
            (contains-add_keeps session_id id s.cancelled h);
      trusts = λ key h. elim (eq_cases key.session_id session_id) [
        | inl q ↦ inr (
            subst (λ c. contains key.session_id c ≡ true) (sym f.1)
              (subst (λ x. contains x (add session_id s.cancelled) ≡ true) (sym q) self))
        | inr n ↦
            (let b = (beq_iff key.session_id session_id).0 in
              let g : not (key.session_id == session_id) ≡ true = ground arith in
              inl (
                subst (λ c. contains key c ≡ true) (sym f.0)
                  (contains-retain_keeps key (λ (k : IdentityKey). not (k.session_id == session_id))
                    s.trusted h g)))
      ];
    }

pub open_frame :
    (base64 : Base64) (digest : List ℕ → List ℕ) (session_id : Text) (presented : PresentedHostKey)
    (stored : Option TrustRecord) (id : Text) (now : ℕ) (s : HostIdentityService)
    → ((open_challenge base64 digest session_id presented stored id now s).0.trusted ≡ s.trusted)
      × ((open_challenge base64 digest session_id presented stored id now s).0.cancelled
          ≡ s.cancelled)
unfolding open_challenge register
open_frame base64 digest session_id presented stored id now s =
    let P : HostIdentityService × Opened → Type 0 =
      λ r. (r.0.trusted ≡ s.trusted) × (r.0.cancelled ≡ s.cancelled) in
    if_rule P (contains session_id s.cancelled) (λ _. (refl, refl))
      (λ o.
        if_rule P (contains (presented_key session_id presented) s.trusted) (λ _. (refl, refl))
          (λ _.
            option_rule P (get (presented_key session_id presented) s.pending_index)
              (λ n. frame_drop (superseded_waits session_id presented s) s)
              (λ k _. option_rule P (get k s.pending) (λ _. (refl, refl)) (λ w _. (refl, refl)))))
