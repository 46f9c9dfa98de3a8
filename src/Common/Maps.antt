-- ===== src/Common/Maps.antt =====
-- `HashMap` and `HashSet` as association lists with one entry for a key: `insert` replaces the
-- entry of its key, `remove` takes it out.
use Prim.Native.Nat.{ℕ, suc, ◌≤◌}
use mathlib.Core.Path.{◌≡◌, refl, sym, subst}
use mathlib.Core.Logic.{◌≢◌, ◌⊎◌, inl, inr}
use mathlib.Core.List.{List, [], ◌∷◌}
use mathlib.Core.Option.{Option, none, some}
use mathlib.Core.Bool.{Bool, true}
use native.Mathlib.Omega.{arith}
use titan_ssh.Common.Tests.{Eq, ◌==◌, if◌then◌else◌, Bool-cases}
use titan_ssh.Common.Lists.{All, retain}

module _ {ℓ κ} {K : Type ℓ} {V : Type κ} ⦃e : Eq K⦄ where
  abbrev pub get : K → List (K × V) → Option V
  get k [] = none
  get k ((j, v) ∷ m) = if j == k then some v else get k m

  abbrev pub insert : K → V → List (K × V) → List (K × V)
  insert k v [] = (k, v) ∷ []
  insert k v ((j, w) ∷ m) = if j == k then (k, v) ∷ m else (j, w) ∷ insert k v m

  abbrev pub remove : K → List (K × V) → List (K × V)
  remove k [] = []
  remove k ((j, w) ∷ m) = if j == k then m else (j, w) ∷ remove k m

  -- How many entries a key has: never more than one in a map that the operations built.
  abbrev pub entries : K → List (K × V) → ℕ
  entries k [] = 0
  entries k ((j, v) ∷ m) = if j == k then suc (entries k m) else entries k m

  pub get-insert :
      (k j : K) (v : V) (m : List (K × V))
      → get j (insert k v m) ≡ (if k == j then some v else get j m)
  get-insert k j v [] = refl
  get-insert k j v ((i, w) ∷ m) =
      ground (arith, e.eq_iff k j, e.eq_iff i k, e.eq_iff i j, get-insert k j v m)

  pub get-remove_ne : (k j : K) (m : List (K × V)) → k ≢ j → get j (remove k m) ≡ get j m
  get-remove_ne k j [] n = refl
  get-remove_ne k j ((i, w) ∷ m) n =
      ground (arith, e.eq_iff i k, e.eq_iff i j, get-remove_ne k j m n)

  pub get_absent : (k : K) (m : List (K × V)) → entries k m ≡ 0 → get k m ≡ none
  get_absent k [] h = refl
  get_absent k ((i, w) ∷ m) h = ground (arith, get_absent k m)

  pub get-remove_self : (k : K) (m : List (K × V)) → entries k m ≤ 1 → get k (remove k m) ≡ none
  get-remove_self k [] h = refl
  get-remove_self k ((i, w) ∷ m) h = ground (arith, get-remove_self k m, get_absent k m)

  pub entries_of_get : (k : K) (v : V) (m : List (K × V)) → get k m ≡ some v → 1 ≤ entries k m
  entries_of_get k v [] h = cc
  entries_of_get k v ((i, w) ∷ m) h = ground (arith, entries_of_get k v m)

  pub entries-remove-le : (k j : K) (m : List (K × V)) → entries j (remove k m) ≤ entries j m
  entries-remove-le k j [] = omega arith
  entries-remove-le k j ((i, w) ∷ m) = ground (arith, entries-remove-le k j m)

  entries-insert_other :
      (k j : K) (v : V) (m : List (K × V)) → k ≢ j → entries j (insert k v m) ≡ entries j m
  entries-insert_other k j v [] n = ground (arith, e.eq_iff k j)
  entries-insert_other k j v ((i, w) ∷ m) n =
      ground (arith, e.eq_iff k j, e.eq_iff i k, e.eq_iff i j, entries-insert_other k j v m n)

  entries-insert_same :
      (k : K) (v : V) (m : List (K × V)) → entries k m ≤ 1 → entries k (insert k v m) ≡ 1
  entries-insert_same k v [] h = ground (arith, e.eq_iff k k)
  entries-insert_same k v ((i, w) ∷ m) h =
      ground (arith, e.eq_iff i k, e.eq_iff k k, entries-insert_same k v m)

  pub entries-insert-le :
      (k j : K) (v : V) (m : List (K × V)) → entries j m ≤ 1 → entries j (insert k v m) ≤ 1
  entries-insert-le k j v m h = elim (Bool-cases (k == j)) [
    | inl q ↦
        let q' : k ≡ j = (e.eq_iff k j).0 q in
        let s = entries-insert_same k v m in
        let t : entries k m ≤ 1 = subst (λ i. entries i m ≤ 1) (sym q') h in
        subst (λ i. entries i (insert k v m) ≤ 1) q' (omega (arith, s t))
    | inr n ↦
        let d : k ≢ j = λ q. (let f = (e.eq_iff k j).1 q in cc) in
        omega (arith, entries-insert_other k j v m d)
  ]

  -- In a map with one entry for a key, every entry is what its key finds.
  pub get-All :
      (m : List (K × V)) → ((k : K) → entries k m ≤ 1) → All (λ (x : K × V). get x.0 m ≡ some x.1) m
  get-All [] h = tt
  get-All ((i, w) ∷ m) h = (
    ground (arith, e.eq_iff i i),
    after m (λ k v g. (let b = entries_of_get k v m g in ground (arith, h i, h k, e.eq_iff i k)))
        (get-All m (λ k. ground (arith, h k))),
  )
    where
      after :
          (xs : List (K × V))
          → ((k : K) (v : V) → get k m ≡ some v → get k ((i, w) ∷ m) ≡ some v)
          → All (λ (x : K × V). get x.0 m ≡ some x.1) xs
          → All (λ (x : K × V). get x.0 ((i, w) ∷ m) ≡ some x.1) xs
      after [] f a = tt
      after ((k, v) ∷ xs) f a = (f k v a.0, after xs f a.1)

  pub entries-retain-le :
      (k : K) (p : K × V → Bool) (m : List (K × V)) → entries k (retain p m) ≤ entries k m
  entries-retain-le k p [] = omega arith
  entries-retain-le k p ((i, w) ∷ m) = ground (arith, entries-retain-le k p m)

  -- A filter keeps what a key finds, or the key finds nothing.
  pub get-retain :
      (k : K) (p : K × V → Bool) (m : List (K × V))
      → entries k m ≤ 1
      → (get k (retain p m) ≡ none)
        ⊎ ((v : V) × (get k m ≡ some v) × (get k (retain p m) ≡ some v) × (p (k, v) ≡ true))
  get-retain k p [] h = inl refl
  get-retain k p ((i, w) ∷ m) h = elim (Bool-cases (i == k)) [
    | inr n ↦
        (let h' : entries k m ≤ 1 = ground arith in
          elim (get-retain k p m h') [
            | inl q ↦ inl (ground arith)
            | inr (v, a, b, c) ↦ inr (v, ground arith, ground arith, c)
          ])
    | inl q ↦
        (let same : i ≡ k = (e.eq_iff i k).0 q in
          let z : entries k m ≡ 0 = ground arith in
          let r = entries-retain-le k p m in
          let y = get_absent k (retain p m) in
          elim (Bool-cases (p (i, w))) [
            | inl t ↦ inr (w, ground arith, ground arith, subst (λ x. p (x, w) ≡ true) same t)
            | inr t ↦ inl (ground arith)
          ])
  ]

  -- What holds of every entry.
  pub insert-All {μ} :
      (P : K × V → Type μ) (k : K) (v : V) (m : List (K × V))
      → P (k, v)
      → All P m
      → All P (insert k v m)
  insert-All P k v [] p a = (p, tt)
  insert-All P k v ((j, w) ∷ m) p a = elim (Bool-cases (j == k)) [
    | inl q ↦ rw q (p, a.1)
    | inr q ↦ rw q (a.0, insert-All P k v m p a.1)
  ]

  pub remove-All {μ} :
      (P : K × V → Type μ) (k : K) (m : List (K × V)) → All P m → All P (remove k m)
  remove-All P k [] a = tt
  remove-All P k ((j, w) ∷ m) a = elim (Bool-cases (j == k)) [
    | inl q ↦ rw q a.1
    | inr q ↦ rw q (a.0, remove-All P k m a.1)
  ]

  pub retain-All {μ} :
      (P : K × V → Type μ) (p : K × V → Bool) (m : List (K × V)) → All P m → All P (retain p m)
  retain-All P p [] a = tt
  retain-All P p (x ∷ m) a = elim (Bool-cases (p x)) [
    | inl q ↦ rw q (a.0, retain-All P p m a.1)
    | inr q ↦ rw q (retain-All P p m a.1)
  ]

  pub All-get {μ} :
      (P : K × V → Type μ) (k : K) (v : V) (m : List (K × V))
      → get k m ≡ some v
      → All P m
      → P (k, v)
  All-get P k v [] h a = cc
  All-get P k v ((j, w) ∷ m) h a = elim (Bool-cases (j == k)) [
    | inl q ↦
        (let same : w ≡ v = ground arith in
          subst (λ i. P (i, v)) ((e.eq_iff j k).0 q) (subst (λ x. P (j, x)) same a.0))
    | inr q ↦ All-get P k v m (ground arith) a.1
  ]

  pub All-widen {μ ν} :
      (P : K × V → Type μ) (Q : K × V → Type ν) (m : List (K × V))
      → ((k : K) (v : V) → P (k, v) → Q (k, v))
      → All P m
      → All Q m
  All-widen P Q [] f a = tt
  All-widen P Q ((k, v) ∷ m) f a = (f k v a.0, All-widen P Q m f a.1)
