-- ===== src/HostIdentity/Batches.antt =====
-- core/host_identity.rs: the loops that take challenges out and that write decisions.
use titan_ssh.Common.{
  ◌≡◌, refl, sym, ◌∙◌, ap, subst, inl, inr, Bool, true, false, List, [], ◌∷◌, none, some, arith,
  Text, text_eq, All, get, insert, remove, if◌then◌else◌, ◌==◌, get-insert, get-remove_ne,
  get-remove_self, get-All, entries-insert-le, beq_iff, Bool-cases, eq_cases, retain,
}
use titan_ssh.HostIdentity.State.{
  HostIdentityService, ChallengeWait, Decision, key_eq, key_beq_iff, from_challenge, drop_wait,
  drop_waits, decide, decide_all, values,
}
use titan_ssh.HostIdentity.Sync.{Pending, Index, IsSynced, IsCut, drop-IsCut}

-- The challenges of a list are pending.
abbrev pub Found : Pending → List ChallengeWait → Type 0
Found p ws = All (λ (w : ChallengeWait). get w.challenge.challenge_id p ≡ some w) ws

values_of_entries :
    (p m : Pending)
    → ((id : Text) (w : ChallengeWait) → get id p ≡ some w → w.challenge.challenge_id ≡ id)
    → All (λ (x : Text × ChallengeWait). get x.0 p ≡ some x.1) m
    → Found p (values m)
values_of_entries p [] h a = tt
values_of_entries p ((k, w) ∷ m) h a =
    (subst (λ x. get x p ≡ some w) (sym (h k w a.0)) a.0, values_of_entries p m h a.1)

pub values-Found : (p : Pending) (i : Index) → IsSynced p i → Found p (values p)
values-Found p i h = values_of_entries p p h.named (get-All p h.single)

pub retain-Found :
    (p : Pending) (f : ChallengeWait → Bool) (ws : List ChallengeWait)
    → Found p ws
    → Found p (retain f ws)
retain-Found p f [] a = tt
retain-Found p f (w ∷ ws) a =
    let b = retain-Found p f ws a.1 in
    elim (Bool-cases (f w)) [ inl q ↦ rw q (a.0, b) | inr q ↦ rw q b ]

pub drop_waits-IsCut :
    (p : Pending) (i : Index) (ws : List ChallengeWait) (s : HostIdentityService)
    → IsSynced p i
    → IsCut p i s.pending s.pending_index
    → Found p ws
    → IsCut p i (drop_waits ws s).pending (drop_waits ws s).pending_index
unfolding drop_waits
drop_waits-IsCut p i [] s h c a = c
drop_waits-IsCut p i (w ∷ ws) s h c a =
    drop_waits-IsCut p i ws (drop_wait w.challenge.challenge_id w s) h
      (unfold drop_wait in
        drop-IsCut p i s.pending s.pending_index h c w.challenge.challenge_id w a.0)
      a.1

-- All else stays.
pub drop_waits_frame :
    (ws : List ChallengeWait) (s : HostIdentityService)
    → drop_waits ws s ≡ record s {
      pending = (drop_waits ws s).pending;
      pending_index = (drop_waits ws s).pending_index;
    }
unfolding drop_waits drop_wait
drop_waits_frame [] s = refl
drop_waits_frame (w ∷ ws) s = drop_waits_frame ws (drop_wait w.challenge.challenge_id w s)

pub decide_all_frame :
    (d : Decision) (ws : List ChallengeWait) (s : HostIdentityService)
    → decide_all d ws s ≡ record s { decisions = (decide_all d ws s).decisions }
unfolding decide_all decide
decide_all_frame d [] s = refl
decide_all_frame d (w ∷ ws) s = decide_all_frame d ws (decide d w s)

-- A test that tells the ids in the list from those that are not.
abbrev pub is_among : Text → List ChallengeWait → Bool
is_among id [] = false
is_among id (w ∷ ws) = if w.challenge.challenge_id == id then true else is_among id ws

pub get-drop_waits :
    (p : Pending) (i : Index) (id : Text) (ws : List ChallengeWait) (s : HostIdentityService)
    → IsSynced p i
    → IsCut p i s.pending s.pending_index
    → Found p ws
    → get id (drop_waits ws s).pending ≡ (if is_among id ws then none else get id s.pending)
unfolding drop_waits
get-drop_waits p i id [] s h c a = refl
get-drop_waits p i id (w ∷ ws) s h c a =
    let t = drop_wait w.challenge.challenge_id w s in
    let d : IsCut p i t.pending t.pending_index =
      unfold drop_wait in
      drop-IsCut p i s.pending s.pending_index h c w.challenge.challenge_id w a.0 in
    let r = get-drop_waits p i id ws t h d a.1 in
    elim (eq_cases w.challenge.challenge_id id) [
      | inl q ↦
          let z : get id t.pending ≡ none =
            unfold drop_wait in
            subst (λ x. get x (remove w.challenge.challenge_id s.pending) ≡ none) q
              (get-remove_self w.challenge.challenge_id s.pending
                (c.single w.challenge.challenge_id)) in
          let b = (beq_iff w.challenge.challenge_id id).1 q in ground arith
      | inr n ↦
          let z : get id t.pending ≡ get id s.pending =
            unfold drop_wait in get-remove_ne w.challenge.challenge_id id s.pending n in
          let b = (beq_iff w.challenge.challenge_id id).0 in ground arith
    ]

pub get-decide_all :
    (d : Decision) (id : Text) (ws : List ChallengeWait) (s : HostIdentityService)
    → get id (decide_all d ws s).decisions ≡ (if is_among id ws then some d else get id s.decisions)
unfolding decide_all
get-decide_all d id [] s = refl
get-decide_all d id (w ∷ ws) s =
    let r = get-decide_all d id ws (decide d w s) in
    let z : get id (decide d w s).decisions
        ≡ (if w.challenge.challenge_id == id then some d else get id s.decisions) =
      unfold decide in get-insert w.challenge.challenge_id id d s.decisions in
    ground arith

-- A new challenge goes into both maps.
pub insert-IsSynced :
    (p : Pending) (i : Index) (w : ChallengeWait)
    → IsSynced p i
    → get w.challenge.challenge_id p ≡ none
    → get (from_challenge w.challenge) i ≡ none
    → IsSynced
        (insert w.challenge.challenge_id w p)
        (insert (from_challenge w.challenge) w.challenge.challenge_id i)
insert-IsSynced p i w h new_id new_key =
    let c = w.challenge in
    let id = c.challenge_id in
    let key = from_challenge c in
    record {
      single = λ k. entries-insert-le id k w p (h.single k);
      single_key = λ k. entries-insert-le key k id i (h.single_key k);
      named = λ k v g. elim (eq_cases id k) [
        | inl q ↦
            (let e = get-insert id k w p in
              let b = (beq_iff id k).1 q in let same : w ≡ v = ground arith in cc)
        | inr n ↦
            (let e = get-insert id k w p in
              let b = (beq_iff id k).0 in let f : get k p ≡ some v = ground arith in h.named k v f)
      ];
      indexed = λ k v g. elim (eq_cases id k) [
        | inl q ↦
            (let e = get-insert id k w p in
              let b = (beq_iff id k).1 q in
              let same : w ≡ v = ground arith in
              let self = (key_beq_iff key key).1 refl in
              let a : get key (insert key id i) ≡ some id =
                ground (arith, get-insert key key id i) in
              subst
                (λ (x : ChallengeWait). get (from_challenge x.challenge) (insert key id i) ≡ some k)
                same (a ∙ ap some q))
        | inr n ↦
            (let e = get-insert id k w p in
              let b = (beq_iff id k).0 in
              let f : get k p ≡ some v = ground arith in
              let g' = h.indexed k v f in
              elim (eq_cases key (from_challenge v.challenge)) [
                | inl q ↦ (let z = subst (λ x. get x i ≡ none) q new_key in cc)
                | inr m ↦
                    (let b' = (key_beq_iff key (from_challenge v.challenge)).0 in
                      ground (arith, get-insert key (from_challenge v.challenge) id i))
              ])
      ];
      listed = λ k id' g. elim (eq_cases key k) [
        | inl q ↦
            (let e = get-insert key k id i in
              let b = (key_beq_iff key k).1 q in
              let same : id ≡ id' = ground arith in
              let self = (beq_iff id id).1 refl in
              let a : get id (insert id w p) ≡ some w = ground (arith, get-insert id id w p) in
              (w, subst (λ x. get x (insert id w p) ≡ some w) same a, q))
        | inr n ↦
            (let e = get-insert key k id i in
              let b = (key_beq_iff key k).0 in
              let f : get k i ≡ some id' = ground arith in
              let (v, found, same) = h.listed k id' f in
              elim (eq_cases id id') [
                | inl q ↦ (let z = subst (λ x. get x p ≡ none) q new_id in cc)
                | inr m ↦
                    (let b' = (beq_iff id id').0 in
                      (v, ground (arith, get-insert id id' w p), same))
              ])
      ];
    }
