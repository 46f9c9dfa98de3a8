-- ===== src/HostIdentity/Openings.antt =====
-- core/host_identity.rs: the state of the service after the third stretch of `verify`.
use titan_ssh.Common.{
  ℕ, ◌≡◌, refl, sym, ◌∙◌, ap, subst, inl, inr, Bool, true, false, List, [], ◌∷◌, Option, none, some,
  arith, Text, text_eq, nat_eq, get, get-insert, beq_iff, eq_cases, retain, option_rule, if_rule,
}
use titan_ssh.TrustStore.Records.{TrustRecord, Base64}
use titan_ssh.HostIdentity.State.{
  HostIdentityService, PresentedHostKey, ChallengeWait, key_eq, from_challenge, presented_key,
  drop_waits, values, contains, cancelled,
}
use titan_ssh.HostIdentity.Verify.{
  new_challenge, register, open_challenge, announce, is_superseded, Opened, returned, waits_for,
  panics,
}
use titan_ssh.HostIdentity.Sync.{Pending, IsCut-refl, kept_of_cut}
use titan_ssh.HostIdentity.Batches.{
  Found, values-Found, retain-Found, drop_waits-IsCut, drop_waits_frame, insert-IsSynced,
  get-drop_waits, is_among,
}
use titan_ssh.HostIdentity.Consistent.{drop_waits-IsConsistent, decide_all-IsConsistent}
use titan_ssh.HostIdentity.Holding.{IsConsistent}

pub is_among-retain :
    (f : ChallengeWait → Bool) (id : Text) (v : ChallengeWait) (m : Pending)
    → get id m ≡ some v
    → v.challenge.challenge_id ≡ id
    → f v ≡ true
    → is_among id (retain f (values m)) ≡ true
is_among-retain f id v [] g n h = cc
is_among-retain f id v ((k, w) ∷ m) g n h = elim (eq_cases k id) [
  | inl q ↦
      let b = (beq_iff k id).1 q in
      let same : v ≡ w = ground arith in
      let h' : f w ≡ true = subst (λ x. f x ≡ true) same h in
      let n' : w.challenge.challenge_id ≡ id =
        subst (λ (x : ChallengeWait). x.challenge.challenge_id ≡ id) same n in
      let c = (beq_iff w.challenge.challenge_id id).1 n' in ground arith
  | inr n' ↦
      let b = (beq_iff k id).0 in
      let g' : get id m ≡ some v = ground arith in
      let r = is_among-retain f id v m g' n h in ground arith
]

pub is_among-absent :
    (id : Text) (p : Pending) (ws : List ChallengeWait)
    → Found p ws
    → get id p ≡ none
    → is_among id ws ≡ false
is_among-absent id p [] a g = refl
is_among-absent id p (w ∷ ws) a g = elim (eq_cases w.challenge.challenge_id id) [
  | inl q ↦ (let z : get id p ≡ some w = subst (λ x. get x p ≡ some w) q a.0 in cc)
  | inr n ↦
      (let b = (beq_iff w.challenge.challenge_id id).0 in
        let r = is_among-absent id p ws a.1 g in ground arith)
]

module _ (session_id : Text) (presented : PresentedHostKey) (s : HostIdentityService) where
  abbrev pub superseded_waits : List ChallengeWait
  superseded_waits = retain (is_superseded session_id presented) (values s.pending)

  pub superseded-Found : IsConsistent s → Found s.pending superseded_waits
  superseded-Found h =
      retain-Found s.pending (is_superseded session_id presented) (values s.pending)
        (values-Found s.pending s.pending_index h.synced)

  -- What stays of the session and the endpoint has the key that was presented.
  survivor-fingerprint :
      IsConsistent s
      → (id : Text) (v : ChallengeWait) → get id (drop_waits superseded_waits s).pending ≡ some v
      → v.challenge.session_id ≡ session_id
      → v.challenge.host ≡ presented.host
      → v.challenge.port ≡ presented.port
      → v.challenge.fingerprint ≡ presented.fingerprint
  survivor-fingerprint h id v g e1 e2 e3 =
      let c =
        drop_waits-IsCut s.pending s.pending_index superseded_waits s h.synced
          (IsCut-refl s.pending s.pending_index h.synced) (superseded-Found h) in
      let t = drop_waits superseded_waits s in
      let f = kept_of_cut s.pending s.pending_index t.pending t.pending_index c id v g in
      let r =
        get-drop_waits s.pending s.pending_index id superseded_waits s h.synced
          (IsCut-refl s.pending s.pending_index h.synced) (superseded-Found h) in
      elim (eq_cases v.challenge.fingerprint presented.fingerprint) [
        | inl q ↦ q
        | inr n ↦
            (let b1 = (beq_iff v.challenge.session_id session_id).1 e1 in
              let b2 = (beq_iff v.challenge.host presented.host).1 e2 in
              let b4 = (beq_iff v.challenge.fingerprint presented.fingerprint).0 in
              let z : is_superseded session_id presented v ≡ true = ground arith in
              let m =
                is_among-retain (is_superseded session_id presented) id v s.pending f
                  (h.synced.named id v f) z in
              let x : get id t.pending ≡ none = ground arith in cc)
      ]

  module _ (w : ChallengeWait) where
    pub register-IsConsistent :
        IsConsistent s
        → w.challenge.session_id ≡ session_id
        → w.challenge.host ≡ presented.host
        → w.challenge.port ≡ presented.port
        → from_challenge w.challenge ≡ presented_key session_id presented
        → contains session_id s.cancelled ≡ false
        → get w.challenge.challenge_id s.pending ≡ none
        → get (presented_key session_id presented) s.pending_index ≡ none
        → IsConsistent (register w superseded_waits s)
    unfolding register
    register-IsConsistent h e1 e2 e3 e4 open_session new_id new_key =
        let a = superseded-Found h in
        let start = IsCut-refl s.pending s.pending_index h.synced in
        let c = drop_waits-IsCut s.pending s.pending_index superseded_waits s h.synced start a in
        let t = drop_waits superseded_waits s in
        let k : IsConsistent t = drop_waits-IsConsistent superseded_waits s h a in
        let id = w.challenge.challenge_id in
        let gone_id : get id t.pending ≡ none = elim (c.fewer id) [
          | inl q ↦ q ∙ new_id
          | inr q ↦ q
        ] in
        let key = from_challenge w.challenge in
        let old_key : get key s.pending_index ≡ none =
          subst (λ x. get x s.pending_index ≡ none) (sym e4) new_key in
        let gone_key : get key t.pending_index ≡ none = elim (c.fewer_keys key) [
          | inl q ↦ q ∙ old_key
          | inr q ↦ q
        ] in
        let frame : t.cancelled ≡ s.cancelled =
          ap (λ (u : HostIdentityService). u.cancelled) (drop_waits_frame superseded_waits s) in
        let stranger : (j : Text) (v : ChallengeWait)
            → get j t.pending ≡ some v
            → v.challenge.session_id ≡ session_id
            → v.challenge.host ≡ presented.host
            → v.challenge.port ≡ presented.port
            → ⊥ =
          λ j v g d1 d2 d3.
            (let d4 = survivor-fingerprint h j v g d1 d2 d3 in
              let i = k.synced.indexed j v g in
              let same : from_challenge v.challenge ≡ presented_key session_id presented = cc in
              let i' : get (presented_key session_id presented) t.pending_index ≡ some j =
                subst (λ x. get x t.pending_index ≡ some j) same i in
              let z : get (presented_key session_id presented) t.pending_index ≡ none =
                subst (λ x. get x t.pending_index ≡ none) e4 gone_key in
              let y : none ≡ some j = sym z ∙ i' in cc) in
        record {
          synced = insert-IsSynced t.pending t.pending_index w k.synced gone_id gone_key;
          alone = λ x y v u g f d1 d2 d3. elim (eq_cases id x) [
            | inl q ↦ elim (eq_cases id y) [
              | inl r ↦ sym q ∙ r
              | inr r ↦
                  (let b = (beq_iff id y).0 in
                    let gi = get-insert id y w t.pending in
                    let f' : get y t.pending ≡ some u = ground arith in
                    let b' = (beq_iff id x).1 q in
                    let gj = get-insert id x w t.pending in
                    let same : w ≡ v = ground arith in absurd (stranger y u f' (cc) (cc) (cc)))
            ]
            | inr q ↦
                (let b = (beq_iff id x).0 in
                  let gi = get-insert id x w t.pending in
                  let g' : get x t.pending ≡ some v = ground arith in
                  elim (eq_cases id y) [
                    | inl r ↦
                        (let b' = (beq_iff id y).1 r in
                          let gj = get-insert id y w t.pending in
                          let same : w ≡ u = ground arith in
                          absurd (stranger x v g' (cc) (cc) (cc)))
                    | inr r ↦
                        (let b' = (beq_iff id y).0 in
                          let gj = get-insert id y w t.pending in
                          let f' : get y t.pending ≡ some u = ground arith in
                          k.alone x y v u g' f' d1 d2 d3)
                  ])
          ];
          alive = λ x v g. elim (eq_cases id x) [
            | inl q ↦
                (let b = (beq_iff id x).1 q in
                  let gi = get-insert id x w t.pending in
                  let same : w ≡ v = ground arith in
                  let o : contains session_id t.cancelled ≡ false =
                    subst (λ c. contains session_id c ≡ false) (sym frame) open_session in
                  let s1 : session_id ≡ v.challenge.session_id = cc in
                  subst (λ x. contains x t.cancelled ≡ false) s1 o)
            | inr q ↦
                (let b = (beq_iff id x).0 in
                  let gi = get-insert id x w t.pending in
                  let g' : get x t.pending ≡ some v = ground arith in k.alive x v g')
          ];
          untrusting = k.untrusting;
        }

module _ (base64 : Base64) (digest : List ℕ → List ℕ) where
  pub open_challenge-IsConsistent :
      (session_id : Text) (presented : PresentedHostKey) (stored : Option TrustRecord) (id : Text)
      (now : ℕ) (s : HostIdentityService)
      → IsConsistent s
      → get id s.pending ≡ none
      → IsConsistent (open_challenge base64 digest session_id presented stored id now s).0
  unfolding open_challenge
  open_challenge-IsConsistent session_id presented stored id now s h fresh =
      let P : HostIdentityService × Opened → Type 0 = λ r. IsConsistent r.0 in
      if_rule P (contains session_id s.cancelled) (λ _. h)
        (λ o.
          if_rule P (contains (presented_key session_id presented) s.trusted) (λ _. h)
            (λ _.
              option_rule P (get (presented_key session_id presented) s.pending_index)
                (λ n.
                  unfold new_challenge in
                  register-IsConsistent session_id presented s
                    (new_challenge base64 digest session_id presented stored id now) h refl refl
                    refl refl o fresh n)
                (λ k _. option_rule P (get k s.pending) (λ _. h) (λ w _. h))))

pub announce-IsConsistent :
    (r : HostIdentityService × Opened) → IsConsistent r.0 → IsConsistent (announce r).0
unfolding announce
announce-IsConsistent (s, returned r) h = h
announce-IsConsistent (s, panics) h = h
announce-IsConsistent (s, waits_for w true ws) h = decide_all-IsConsistent cancelled ws s h
announce-IsConsistent (s, waits_for w false ws) h = decide_all-IsConsistent cancelled ws s h
