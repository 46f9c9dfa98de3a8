-- ===== src/TrustStore/Endpoints.antt =====
-- The records of storage/trust_store.rs seen by their endpoints.
use titan_ssh.Common.{
  ℕ, ◌+◌, ◌≡◌, refl, Bool, not, List, [], ◌∷◌, ◌++◌, none, some, nat_eq, text_eq, ◌==◌, Text,
  if◌then◌else◌, ◌&&◌, arith, retain, find, count, count-append, length, beq_iff,
}
use titan_ssh.TrustStore.Records.{TrustRecord, is_for}

-- The two endpoints are one.
abbrev pub same_endpoint : Text → ℕ → Text → ℕ → Bool
same_endpoint h p h' p' = h == h' && p == p'

pub find-without :
    (h h' : Text) (p p' : ℕ) (rs : List TrustRecord)
    → find (is_for h' p') (retain (λ x. not (is_for h p x)) rs)
      ≡ (if same_endpoint h p h' p' then none else find (is_for h' p') rs)
find-without h h' p p' [] = ground arith
find-without h h' p p' (r ∷ rs) =
    ground (arith, beq_iff r.host h, beq_iff r.host h', beq_iff h h', find-without h h' p p' rs)

find-append_one :
    (q : TrustRecord → Bool) (rs : List TrustRecord) (r : TrustRecord)
    → find q (rs ++ r ∷ [])
      ≡ (elim (find q rs) [ none ↦ (if q r then some r else none) | some x ↦ some x ])
find-append_one q [] r = refl
find-append_one q (x ∷ rs) r = ground (arith, find-append_one q rs r)

pub find-replaced :
    (r : TrustRecord) (h : Text) (p : ℕ) (rs : List TrustRecord)
    → find (is_for h p) (retain (λ x. not (is_for r.host r.port x)) rs ++ r ∷ [])
      ≡ (if same_endpoint r.host r.port h p then some r else find (is_for h p) rs)
find-replaced r h p rs = ground (
  arith,
  find-append_one (is_for h p) (retain (λ x. not (is_for r.host r.port x)) rs) r,
  find-without r.host h r.port p rs,
)

pub count-without :
    (h h' : Text) (p p' : ℕ) (rs : List TrustRecord)
    → count (is_for h' p') (retain (λ x. not (is_for h p x)) rs)
      ≡ (if same_endpoint h p h' p' then 0 else count (is_for h' p') rs)
count-without h h' p p' [] = ground arith
count-without h h' p p' (r ∷ rs) =
    ground (arith, beq_iff r.host h, beq_iff r.host h', beq_iff h h', count-without h h' p p' rs)

pub count-replaced :
    (r : TrustRecord) (h : Text) (p : ℕ) (rs : List TrustRecord)
    → count (is_for h p) (retain (λ x. not (is_for r.host r.port x)) rs ++ r ∷ [])
      ≡ (if same_endpoint r.host r.port h p then 1 else count (is_for h p) rs)
count-replaced r h p rs = ground (
  arith,
  count-append (is_for h p) (retain (λ x. not (is_for r.host r.port x)) rs) (r ∷ []),
  count-without r.host h r.port p rs,
)

-- Nothing is taken out exactly if no record has the endpoint.
pub length-without :
    (h : Text) (p : ℕ) (rs : List TrustRecord)
    → length (retain (λ x. not (is_for h p x)) rs) + count (is_for h p) rs ≡ length rs
length-without h p [] = refl
length-without h p (r ∷ rs) = ground (arith, length-without h p rs)

-- An endpoint with no record, looked up: the answer needs no removal.
pub find_absent :
    (h h' : Text) (p p' : ℕ) (rs : List TrustRecord)
    → count (is_for h p) rs ≡ 0
    → find (is_for h' p') rs ≡ (if same_endpoint h p h' p' then none else find (is_for h' p') rs)
find_absent h h' p p' [] n = ground arith
find_absent h h' p p' (r ∷ rs) n =
    ground (arith, beq_iff r.host h, beq_iff r.host h', beq_iff h h', find_absent h h' p p' rs)
