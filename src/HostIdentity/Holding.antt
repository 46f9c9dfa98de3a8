-- ===== src/HostIdentity/Holding.antt =====
-- core/host_identity.rs: what holds of the state of the service between two of its operations.
use titan_ssh.Common.{
  ◌≡◌, subst, ◌⊎◌, inl, inr, Bool, true, false, List, [], ◌∷◌, some, arith, Text, text_eq, get,
  remove, ◌==◌, Eq, Bool-cases, eq_cases, retain, nat_eq,
}
use titan_ssh.HostIdentity.State.{
  HostIdentityService, ChallengeWait, IdentityKey, key_eq, key_beq_iff, from_challenge, contains,
  add,
}
use titan_ssh.HostIdentity.Sync.{
  Pending, Index, IsSynced, IsCut, drop-IsCut, IsCut-refl, IsCut-IsSynced, kept_of_cut,
}

-- The two maps agree; a session has at most one pending challenge for an endpoint; and a session
-- that has been cancelled has neither a challenge nor any trust.
pub record Holds (p : Pending) (i : Index) (trusted : List IdentityKey) (cancelled : List Text)
    : Type 0 where
  pub synced : IsSynced p i
  pub alone :
      (id id' : Text) (w v : ChallengeWait)
      → get id p ≡ some w
      → get id' p ≡ some v
      → w.challenge.session_id ≡ v.challenge.session_id
      → w.challenge.host ≡ v.challenge.host
      → w.challenge.port ≡ v.challenge.port
      → id ≡ id'
  pub alive :
      (id : Text) (w : ChallengeWait)
      → get id p ≡ some w
      → contains w.challenge.session_id cancelled ≡ false
  pub untrusting :
      (key : IdentityKey) → contains key trusted ≡ true → contains key.session_id cancelled ≡ false

abbrev pub IsConsistent : HostIdentityService → Type 0
IsConsistent s = Holds s.pending s.pending_index s.trusted s.cancelled

pub contains-add {ℓ} :
    {A : Type ℓ} ⦃e : Eq A⦄ (a b : A) (xs : List A)
    → contains b (add a xs) ≡ true
    → (a ≡ b) ⊎ (contains b xs ≡ true)
contains-add ⦃e⦄ a b xs h = elim (Bool-cases (contains a xs)) [
  | inl q ↦ inr (ground arith)
  | inr q ↦ elim (Bool-cases (a == b)) [
    | inl r ↦ inl ((e.eq_iff a b).0 r)
    | inr r ↦ inr (ground arith)
  ]
]

pub contains-retain :
    (key : IdentityKey) (f : IdentityKey → Bool) (xs : List IdentityKey)
    → contains key (retain f xs) ≡ true
    → (contains key xs ≡ true) × (f key ≡ true)
contains-retain key f [] h = cc
contains-retain key f (x ∷ xs) h = elim (eq_cases x key) [
  | inl q ↦ elim (Bool-cases (f x)) [
    | inl r ↦ (let b = (key_beq_iff x key).1 q in (ground arith, subst (λ k. f k ≡ true) q r))
    | inr r ↦
        (let g : contains key (retain f xs) ≡ true = ground arith in
          let i = contains-retain key f xs g in (ground arith, i.1))
  ]
  | inr n ↦
      (let b = (key_beq_iff x key).0 in
        let g : contains key (retain f xs) ≡ true = ground arith in
        let i = contains-retain key f xs g in (ground arith, i.1))
]

module _ (p : Pending) (i : Index) (trusted : List IdentityKey) (closed : List Text) where
  -- Challenges are taken out, and the two sets change.
  pub cut-Holds :
      (q : Pending) (j : Index) (trusted' : List IdentityKey) (closed' : List Text)
      → Holds p i trusted closed
      → IsCut p i q j
      → ((id : Text) (w : ChallengeWait)
          → get id q ≡ some w
          → contains w.challenge.session_id closed' ≡ false)
      → ((key : IdentityKey)
          → contains key trusted' ≡ true
          → contains key.session_id closed' ≡ false)
      → Holds q j trusted' closed'
  cut-Holds q j trusted' closed' h c a u = record {
    synced = IsCut-IsSynced p i q j h.synced c;
    alone = λ id id' w v g f.
        h.alone id id' w v (kept_of_cut p i q j c id w g) (kept_of_cut p i q j c id' v f);
    alive = a;
    untrusting = u;
  }

  -- A challenge of the state is accepted.
  pub accepted-Holds :
      (id : Text) (w : ChallengeWait)
      → Holds p i trusted closed
      → get id p ≡ some w
      → Holds
          (remove id p)
          (remove (from_challenge w.challenge) i)
          (add (from_challenge w.challenge) trusted)
          closed
  accepted-Holds id w h g =
      let c = drop-IsCut p i p i h.synced (IsCut-refl p i h.synced) id w g in
      cut-Holds (remove id p) (remove (from_challenge w.challenge) i)
        (add (from_challenge w.challenge) trusted) closed h c
        (λ k v f. h.alive k v (kept_of_cut p i _ _ c k v f))
        (λ key f. elim (contains-add (from_challenge w.challenge) key trusted f) [
          | inl q ↦
              subst (λ (k : IdentityKey). contains k.session_id closed ≡ false) q (h.alive id w g)
          | inr r ↦ h.untrusting key r
        ])

  -- A challenge is taken out without trust.
  pub dropped-Holds :
      (id : Text) (w : ChallengeWait)
      → Holds p i trusted closed
      → get id p ≡ some w
      → Holds (remove id p) (remove (from_challenge w.challenge) i) trusted closed
  dropped-Holds id w h g =
      let c = drop-IsCut p i p i h.synced (IsCut-refl p i h.synced) id w g in
      cut-Holds (remove id p) (remove (from_challenge w.challenge) i) trusted closed h c
        (λ k v f. h.alive k v (kept_of_cut p i _ _ c k v f)) h.untrusting
