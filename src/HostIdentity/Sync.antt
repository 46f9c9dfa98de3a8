-- ===== src/HostIdentity/Sync.antt =====
-- core/host_identity.rs: the two maps of the pending challenges, and taking challenges out of both.
use titan_ssh.Common.{
  ◌≤◌, ◌≡◌, refl, sym, ◌∙◌, subst, ◌≢◌, ◌⊎◌, inl, inr, List, none, some, arith, Text, text_eq, get,
  remove, entries, get-remove_ne, get-remove_self, entries-remove-le, eq_cases,
}
use titan_ssh.HostIdentity.State.{ChallengeWait, IdentityKey, key_eq, from_challenge}

abbrev pub Pending : Type 0
Pending = List (Text × ChallengeWait)

abbrev pub Index : Type 0
Index = List (IdentityKey × Text)

-- A challenge stands under its id, and the index leads from its key to it and nowhere else.
pub record IsSynced (p : Pending) (i : Index) : Type 0 where
  pub single : (id : Text) → entries id p ≤ 1
  pub single_key : (key : IdentityKey) → entries key i ≤ 1
  pub named : (id : Text) (w : ChallengeWait) → get id p ≡ some w → w.challenge.challenge_id ≡ id
  pub indexed :
      (id : Text) (w : ChallengeWait)
      → get id p ≡ some w
      → get (from_challenge w.challenge) i ≡ some id
  pub listed :
      (key : IdentityKey) (id : Text)
      → get key i ≡ some id
      → (w : ChallengeWait) × (get id p ≡ some w) × (from_challenge w.challenge ≡ key)

-- What is left of the maps `p` and `i` once some challenges are out of both.
pub record IsCut (p : Pending) (i : Index) (q : Pending) (j : Index) : Type 0 where
  pub single : (id : Text) → entries id q ≤ 1
  pub single_key : (key : IdentityKey) → entries key j ≤ 1
  pub fewer : (id : Text) → (get id q ≡ get id p) ⊎ (get id q ≡ none)
  pub fewer_keys : (key : IdentityKey) → (get key j ≡ get key i) ⊎ (get key j ≡ none)
  pub together :
      (id : Text) (w : ChallengeWait)
      → get id p ≡ some w
      → ((get id q ≡ none) × (get (from_challenge w.challenge) j ≡ none))
        ⊎ ((get id q ≡ some w) × (get (from_challenge w.challenge) j ≡ some id))

pub IsCut-refl : (p : Pending) (i : Index) → IsSynced p i → IsCut p i p i
IsCut-refl p i h = record {
  single = h.single;
  single_key = h.single_key;
  fewer = λ id. inl refl;
  fewer_keys = λ key. inl refl;
  together = λ id w g. inr (g, h.indexed id w g);
}

module _ (p : Pending) (i : Index) (q : Pending) (j : Index) where
  pub kept_of_cut :
      IsCut p i q j → (id : Text) (w : ChallengeWait) → get id q ≡ some w → get id p ≡ some w
  kept_of_cut c id w g = elim (c.fewer id) [ inl e ↦ cc | inr e ↦ cc ]

  pub IsCut-IsSynced : IsSynced p i → IsCut p i q j → IsSynced q j
  IsCut-IsSynced h c = record {
    single = c.single;
    single_key = c.single_key;
    named = λ id w g. h.named id w (kept_of_cut c id w g);
    indexed = λ id w g. elim (c.together id w (kept_of_cut c id w g)) [
      | inl e ↦ (let a = e.0 in cc)
      | inr e ↦ e.1
    ];
    listed = λ key id g.
        (let f : get key i ≡ some id = elim (c.fewer_keys key) [ inl e ↦ cc | inr e ↦ cc ] in
          let (w, found, same) = h.listed key id f in
          elim (c.together id w found) [
            | inl e ↦ (let a : get key j ≡ none = subst (λ k. get k j ≡ none) same e.1 in cc)
            | inr e ↦ (w, e.0, same)
          ]);
  }

  -- One more challenge is taken out.
  pub drop-IsCut :
      IsSynced p i
      → IsCut p i q j
      → (id : Text) (w : ChallengeWait) → get id p ≡ some w
      → IsCut p i (remove id q) (remove (from_challenge w.challenge) j)
  drop-IsCut h c id w g = record {
    single = λ k. (let a = entries-remove-le id k q in let b = c.single k in omega arith);
    single_key = λ k.
        (let a = entries-remove-le (from_challenge w.challenge) k j in
          let b = c.single_key k in omega arith);
    fewer = λ k. elim (eq_cases id k) [
      | inl e ↦ inr (subst (λ x. get x (remove id q) ≡ none) e (get-remove_self id q (c.single id)))
      | inr n ↦ elim (c.fewer k) [
        | inl e ↦ inl (get-remove_ne id k q n ∙ e)
        | inr e ↦ inr (get-remove_ne id k q n ∙ e)
      ]
    ];
    fewer_keys = λ k. elim (eq_cases (from_challenge w.challenge) k) [
      | inl e ↦ inr (
          subst (λ x. get x (remove (from_challenge w.challenge) j) ≡ none) e
            (get-remove_self (from_challenge w.challenge) j
              (c.single_key (from_challenge w.challenge))))
      | inr n ↦ elim (c.fewer_keys k) [
        | inl e ↦ inl (get-remove_ne (from_challenge w.challenge) k j n ∙ e)
        | inr e ↦ inr (get-remove_ne (from_challenge w.challenge) k j n ∙ e)
      ]
    ];
    together = λ k v f. elim (eq_cases id k) [
      | inl e ↦
          (let f' : get id p ≡ some v = subst (λ x. get x p ≡ some v) (sym e) f in
            let same : w ≡ v = cc in
            inl (
              subst (λ x. get x (remove id q) ≡ none) e (get-remove_self id q (c.single id)),
              subst
                  (λ (x : ChallengeWait).
                    get (from_challenge x.challenge) (remove (from_challenge w.challenge) j) ≡ none)
                  same
                  (get-remove_self (from_challenge w.challenge) j
                    (c.single_key (from_challenge w.challenge))),
            ))
      | inr n ↦
          (let d : from_challenge w.challenge ≢ from_challenge v.challenge = λ e.
              (let a = h.indexed id w g in
                let b = h.indexed k v f in
                let b' : get (from_challenge w.challenge) i ≡ some k =
                  subst (λ x. get x i ≡ some k) (sym e) b in
                let c : some id ≡ some k = sym a ∙ b' in let q : id ≡ k = cc in n q) in
            elim (c.together k v f) [
              | inl e ↦ inl (
                get-remove_ne id k q n ∙ e.0,
                get-remove_ne (from_challenge w.challenge) (from_challenge v.challenge) j d ∙ e.1,
              )
              | inr e ↦ inr (
                get-remove_ne id k q n ∙ e.0,
                get-remove_ne (from_challenge w.challenge) (from_challenge v.challenge) j d ∙ e.1,
              )
            ])
    ];
  }
