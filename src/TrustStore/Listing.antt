-- ===== src/TrustStore/Listing.antt =====
-- `TrustStore::list` of storage/trust_store.rs: the order of the records in the settings.
use mathlib.Core.List.{Perm}
use mathlib.Core.List.Perm
use titan_ssh.Common.{
  text_leb_total, ◌≡◌, inl, inr, true, false, List, [], ◌∷◌, nat_eq, text_eq, arith, Bool-cases,
  beq_iff, if_rule,
}
use titan_ssh.Errors.{ok}
use titan_ssh.TrustStore.Records.{TrustRecord, Base64}
use titan_ssh.TrustStore.State.{Store, ensure_loaded, list, record_leb, insert_sorted, sort_records}

-- Each record is in its place before the next.
abbrev pub IsOrdered : List TrustRecord → Type 0
IsOrdered [] = Unit {0}
IsOrdered (x ∷ []) = Unit {0}
IsOrdered (x ∷ y ∷ rs) = (record_leb x y ≡ true) × IsOrdered (y ∷ rs)

record_leb_total : (a b : TrustRecord) → record_leb a b ≡ false → record_leb b a ≡ true
unfolding record_leb
record_leb_total a b h =
    ground (arith, text_leb_total a.host b.host, beq_iff a.host b.host, beq_iff b.host a.host)

-- The head of a list after an insertion is the new record or the old head.
insert_sorted-IsOrdered :
    (r : TrustRecord) (rs : List TrustRecord) → IsOrdered rs → IsOrdered (insert_sorted r rs)
unfolding insert_sorted
insert_sorted-IsOrdered r [] o = tt
insert_sorted-IsOrdered r (x ∷ []) o = elim (Bool-cases (record_leb r x)) [
  | inl h ↦ rw h (h, tt)
  | inr h ↦ rw h (record_leb_total r x h, tt)
]
insert_sorted-IsOrdered r (x ∷ y ∷ rs) o = elim (Bool-cases (record_leb r x)) [
  | inl h ↦ rw h (h, o)
  | inr h ↦ elim (Bool-cases (record_leb r y)) [
    | inl k ↦ rw h (rw k (record_leb_total r x h, (k, o.1)))
    | inr k ↦ rw h (rw k (o.0, rw k at (insert_sorted-IsOrdered r (y ∷ rs) o.1)))
  ]
]

insert_sorted-perm : (r : TrustRecord) (rs : List TrustRecord) → Perm (insert_sorted r rs) (r ∷ rs)
unfolding insert_sorted
insert_sorted-perm r [] = Perm.refl (r ∷ [])
insert_sorted-perm r (x ∷ rs) =
    if_rule (λ (l : List TrustRecord). Perm l (r ∷ x ∷ rs)) (record_leb r x)
      (λ _. Perm.refl (r ∷ x ∷ rs))
      (λ _. Perm.trans (Perm.cons x (insert_sorted-perm r rs)) (Perm.swap r x rs))

sort_records-IsOrdered : (rs : List TrustRecord) → IsOrdered (sort_records rs)
unfolding sort_records
sort_records-IsOrdered [] = tt
sort_records-IsOrdered (r ∷ rs) =
    insert_sorted-IsOrdered r (sort_records rs) (sort_records-IsOrdered rs)

sort_records-perm : (rs : List TrustRecord) → Perm (sort_records rs) rs
unfolding sort_records
sort_records-perm [] = Perm.refl []
sort_records-perm (r ∷ rs) =
    Perm.trans (insert_sorted-perm r (sort_records rs)) (Perm.cons r (sort_records-perm rs))

-- The list of the settings has the stored records, each as often, by host and then by port.
list-IsOrdered :
    (base64 : Base64) (s : Store) (rs : List TrustRecord)
    → (ensure_loaded base64 s).1 ≡ ok rs
    → (l : List TrustRecord) × ((list base64 s).1 ≡ ok l) × Perm l rs × IsOrdered l
unfolding list
list-IsOrdered base64 s rs h =
    (sort_records rs, ground arith, sort_records-perm rs, sort_records-IsOrdered rs)
