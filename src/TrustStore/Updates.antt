-- ===== src/TrustStore/Updates.antt =====
-- The operations of storage/trust_store.rs, seen through what the store holds.
use titan_ssh.Common.{
  ℕ, ◌≤◌, ◌≡◌, refl, true, false, List, Option, none, some, nat_eq, text_eq, ◌==◌, Text,
  if◌then◌else◌, All, arith, Bool-cases, find, count, length, inl, inr, Option-cases, ◌⊎◌, ap, ◌∙◌,
  sym,
}
use titan_ssh.Errors.{AppError, Result, ok, err, Result-cases}
use titan_ssh.TrustStore.Records.{TrustRecord, Base64, is_for}
use titan_ssh.TrustStore.Format.{serialize_records}
use titan_ssh.TrustStore.RoundTrip.{IsStorable, parse_content-serialize}
use titan_ssh.TrustStore.Endpoints.{
  same_endpoint, find-replaced, find_absent, count-replaced, find-without, length-without,
}
use titan_ssh.TrustStore.State.{
  Store, content, Publish, published, parentless, temp_fails, write_fails, sync_fails,
  persist_fails, from_file_path, load_from_file, ensure_loaded, commit, lookup, upsert, remove,
  list, replaced, without,
}

module _ (base64 : Base64) where
  -- What an operation on the store would find.
  abbrev pub contents : Store → Result (List TrustRecord)
  contents s = (ensure_loaded base64 s).1

  ensure_loaded-cases :
      (s : Store) (rs : List TrustRecord)
      → contents s ≡ ok rs
      → ensure_loaded base64 s ≡ (record s { records = some rs }, ok rs)
  unfolding ensure_loaded
  ensure_loaded-cases s rs h = elim (Option-cases s.records) [
    | inr (xs, e) ↦ ground arith
    | inl e ↦ elim (Result-cases (load_from_file base64 s.path s.file)) [
      | inl (xs, l) ↦ ground arith
      | inr (x, l) ↦ ground arith
    ]
  ]

  -- A store whose file cannot be read or parsed, and that has no cache, refuses every operation
  -- with that error and stays as it is: it is never taken for an empty one, and never overwritten.
  contents-err :
      (s : Store) (e : AppError) (answer : Publish) (host : Text) (port : ℕ) (r : TrustRecord)
      → contents s ≡ err e
      → (lookup base64 host port s ≡ (s, err e))
        × (upsert base64 answer r s ≡ (s, err e))
        × (remove base64 answer host port s ≡ (s, err e))
        × (list base64 s ≡ (s, err e))
  unfolding lookup upsert remove list ensure_loaded
  contents-err s e answer host port r h = ground arith

  -- What a commit did: the new records are on the disk and in the cache, or the old ones are.
  abbrev pub AllOrNothing :
      Store → List TrustRecord → List TrustRecord → Store × Result (Unit {0}) → Type 0
  AllOrNothing s rs next (t, outcome) =
      ((outcome ≡ ok tt)
        × (contents t ≡ ok next)
        × (t.file ≡ content (serialize_records base64 next)))
      ⊎ ((e : AppError) × (outcome ≡ err e) × (contents t ≡ ok rs) × (t.file ≡ s.file))

  commit-AllOrNothing :
      (s : Store) (rs next : List TrustRecord) (answer : Publish)
      → AllOrNothing s rs next (commit base64 answer next (record s { records = some rs }))
  unfolding commit ensure_loaded
  commit-AllOrNothing s rs next published = inl (refl, refl, refl)
  commit-AllOrNothing s rs next parentless = inr (_, refl, refl, refl)
  commit-AllOrNothing s rs next (temp_fails e) = inr (_, refl, refl, refl)
  commit-AllOrNothing s rs next (write_fails e) = inr (_, refl, refl, refl)
  commit-AllOrNothing s rs next (sync_fails e) = inr (_, refl, refl, refl)
  commit-AllOrNothing s rs next (persist_fails e) = inr (_, refl, refl, refl)

  commit-published :
      (s : Store) (next : List TrustRecord) → (commit base64 published next s).1 ≡ ok tt
  unfolding commit
  commit-published s next = refl

  upsert-commit :
      (s : Store) (rs : List TrustRecord) (answer : Publish) (r : TrustRecord)
      → contents s ≡ ok rs
      → upsert base64 answer r s
        ≡ commit base64 answer (replaced r rs) (record s { records = some rs })
  unfolding upsert
  upsert-commit s rs answer r h = let e = ensure_loaded-cases s rs h in ground arith

  -- A save in a store that holds `rs`, whatever step of the publication fails: either it succeeds,
  -- and cache and file hold the new records, or it reports an error, the store holds `rs` as
  -- before, and the file is untouched.
  pub upsert-AllOrNothing :
      (s : Store) (rs : List TrustRecord) (answer : Publish) (r : TrustRecord)
      → contents s ≡ ok rs
      → AllOrNothing s rs (replaced r rs) (upsert base64 answer r s)
  upsert-AllOrNothing s rs answer r h =
      rw (upsert-commit s rs answer r h) (commit-AllOrNothing s rs (replaced r rs) answer)

  lookup-contents :
      (t : Store) (xs : List TrustRecord) (host : Text) (port : ℕ)
      → contents t ≡ ok xs
      → (lookup base64 host port t).1 ≡ ok (find (is_for host port) xs)
  unfolding lookup
  lookup-contents t xs host port h = let e = ensure_loaded-cases t xs h in ground arith

  pub lookup-upsert :
      (s : Store) (rs : List TrustRecord) (answer : Publish) (r : TrustRecord) (host : Text)
      (port : ℕ)
      → contents s ≡ ok rs
      → (upsert base64 answer r s).1 ≡ ok tt
      → ((lookup base64 host port (upsert base64 answer r s).0).1
          ≡ ok (
              if same_endpoint r.host r.port host port then some r else find (is_for host port) rs))
        × (count (is_for host port) (replaced r rs)
            ≡ (if same_endpoint r.host r.port host port then 1 else count (is_for host port) rs))
  lookup-upsert s rs answer r host port h o = elim (upsert-AllOrNothing s rs answer r h) [
    | inl (_, c, _) ↦ (
      lookup-contents (upsert base64 answer r s).0 (replaced r rs) host port c
          ∙ ap (λ (x : Option TrustRecord). ok x) (find-replaced r host port rs),
      count-replaced r host port rs,
    )
    | inr (e, x, _, _) ↦ cc
  ]

  -- Restarted, a store finds what was saved: the file that a successful save leaves behind is read
  -- back as the new records, if all of them are such as the format can hold.
  upsert_durable :
      (s : Store) (rs : List TrustRecord) (answer : Publish) (r : TrustRecord)
      → contents s ≡ ok rs
      → All IsStorable (replaced r rs)
      → (upsert base64 answer r s).1 ≡ ok tt
      → contents (from_file_path s.path (upsert base64 answer r s).0.file)
        ≡ contents (upsert base64 answer r s).0
  upsert_durable s rs answer r h w o = elim (upsert-AllOrNothing s rs answer r h) [
    | inl (_, c, f) ↦ rw f (reloaded s.path (replaced r rs) w ∙ sym c)
    | inr (e, x, _, _) ↦ cc
  ]
    where
      reloaded :
          (path : Text) (xs : List TrustRecord)
          → All IsStorable xs
          → contents (from_file_path path (content (serialize_records base64 xs))) ≡ ok xs
      reloaded path xs w =
          let e = parse_content-serialize base64 xs w in
          unfold ensure_loaded from_file_path load_from_file in ground arith

  remove-same :
      (s : Store) (rs : List TrustRecord) (answer : Publish) (host : Text) (port : ℕ)
      → contents s ≡ ok rs
      → (length (without host port rs) == length rs) ≡ true
      → remove base64 answer host port s ≡ (record s { records = some rs }, ok tt)
  unfolding remove
  remove-same s rs answer host port h n = let e = ensure_loaded-cases s rs h in ground arith

  remove-commit :
      (s : Store) (rs : List TrustRecord) (answer : Publish) (host : Text) (port : ℕ)
      → contents s ≡ ok rs
      → (length (without host port rs) == length rs) ≡ false
      → remove base64 answer host port s
        ≡ commit base64 answer (without host port rs) (record s { records = some rs })
  unfolding remove
  remove-commit s rs answer host port h n = let e = ensure_loaded-cases s rs h in ground arith

  contents-cached :
      (s : Store) (rs : List TrustRecord) → contents (record s { records = some rs }) ≡ ok rs
  unfolding ensure_loaded
  contents-cached s rs = refl

  -- A removal in a store that holds `rs`: with no record for the endpoint it succeeds, whatever the
  -- disk would answer, and leaves the file alone; otherwise the endpoint's records go on the disk
  -- and in the cache, or an error is reported and both are as before.
  remove-AllOrNothing :
      (s : Store) (rs : List TrustRecord) (answer : Publish) (host : Text) (port : ℕ)
      → contents s ≡ ok rs
      → ((count (is_for host port) rs ≡ 0)
          × (remove base64 answer host port s ≡ (record s { records = some rs }, ok tt)))
        ⊎ ((1 ≤ count (is_for host port) rs)
            × AllOrNothing s rs (without host port rs) (remove base64 answer host port s))
  remove-AllOrNothing s rs answer host port h =
      let n = length-without host port rs in
      elim (Bool-cases (length (without host port rs) == length rs)) [
        | inl same ↦ inl (ground arith, remove-same s rs answer host port h same)
        | inr less ↦ inr (
          ground arith,
          rw (remove-commit s rs answer host port h less)
              (commit-AllOrNothing s rs (without host port rs) answer),
        )
      ]

  -- After a removal that succeeds, its endpoint is unknown, and every other has what it had.
  pub lookup-remove :
      (s : Store) (rs : List TrustRecord) (answer : Publish) (gone host : Text) (old port : ℕ)
      → contents s ≡ ok rs
      → (remove base64 answer gone old s).1 ≡ ok tt
      → (lookup base64 host port (remove base64 answer gone old s).0).1
        ≡ ok (if same_endpoint gone old host port then none else find (is_for host port) rs)
  lookup-remove s rs answer gone host old port h o =
      elim (remove-AllOrNothing s rs answer gone old h) [
        | inl (n, e) ↦ rw e (
            lookup-contents (record s { records = some rs }) rs host port (contents-cached s rs)
            ∙ ap (λ (x : Option TrustRecord). ok x) (find_absent gone host old port rs n))
        | inr (n, inl (_, c, _)) ↦
            lookup-contents (remove base64 answer gone old s).0 (without gone old rs) host port c
            ∙ ap (λ (x : Option TrustRecord). ok x) (find-without gone host old port rs)
        | inr (n, inr (e, x, _, _)) ↦ cc
      ]
