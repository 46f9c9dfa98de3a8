-- ===== src/TransferPool/Idle.antt =====
-- What `idle_min_seq` of core/transfer_pool.rs names.
use titan_ssh.Common.{
  ℕ, ◌≡◌, ◌≢◌, true, List, [], ◌∷◌, some, arith, nat_eq, ◌==◌, get, Option-cases, Bool-cases, inl,
  inr, min, subst,
}
use titan_ssh.TransferPool.{ConnectionSlot, is_idle, idle_min_seq}
use titan_ssh.TransferPool.Slots.{Distinct, entries_of_get}

module _ {T : Type 0} where
  -- `get k m` is an idle slot.
  abbrev pub Holds : ℕ → List (ℕ × ConnectionSlot T) → Type 0
  Holds k m =
      (slot : ConnectionSlot T) × (t : T) × (get k m ≡ some slot) × (slot.transport ≡ some t)

  skip :
      (k j : ℕ) (slot : ConnectionSlot T) (m : List (ℕ × ConnectionSlot T))
      → j ≢ k
      → Holds k m
      → Holds k ((j, slot) ∷ m)
  skip k j slot m n (s, t, g, i) = (s, t, ground arith, i)

  here :
      (k : ℕ) (slot : ConnectionSlot T) (m : List (ℕ × ConnectionSlot T))
      → is_idle slot ≡ true
      → Holds k ((k, slot) ∷ m)
  here k slot m i = elim (Option-cases slot.transport) [
    | inl e ↦ absurd (ground arith)
    | inr (t, e) ↦ (slot, t, ground arith, e)
  ]

  Distinct-tail :
      (e : ℕ × ConnectionSlot T) (m : List (ℕ × ConnectionSlot T)) → Distinct (e ∷ m) → Distinct m
  Distinct-tail (j, slot) m d k = ground (arith, d k)

  Distinct-ne :
      (k j : ℕ) (slot : ConnectionSlot T) (m : List (ℕ × ConnectionSlot T))
      → Distinct ((j, slot) ∷ m)
      → Holds k m
      → j ≢ k
  Distinct-ne k j slot m d (s, t, g, i) e = ground (arith, d j, entries_of_get k m s g)

  pub idle_min_seq-Holds :
      (m : List (ℕ × ConnectionSlot T)) (k : ℕ) → Distinct m → idle_min_seq m ≡ some k → Holds k m
  unfolding idle_min_seq
  idle_min_seq-Holds [] k d h = cc
  idle_min_seq-Holds ((j, slot) ∷ m) k d h =
      let ih = λ (k' : ℕ). idle_min_seq-Holds m k' (Distinct-tail (j, slot) m d) in
      elim (Bool-cases (is_idle slot)) [
        | inl i ↦ elim (Option-cases (idle_min_seq m)) [
          | inl e ↦
              let q : j ≡ k = ground arith in
              subst (λ x. Holds x ((j, slot) ∷ m)) q (here j slot m i)
          | inr (f, e) ↦ elim (Bool-cases (min j f == j)) [
            | inl q ↦
                let q' : j ≡ k = ground arith in
                subst (λ x. Holds x ((j, slot) ∷ m)) q' (here j slot m i)
            | inr q ↦
                let q' : f ≡ k = ground arith in
                skip k j slot m (ground arith) (subst (λ x. Holds x m) q' (ih f e))
          ]
        ]
        | inr b ↦
            let hm : idle_min_seq m ≡ some k = ground arith in
            skip k j slot m (Distinct-ne k j slot m d (ih k hm)) (ih k hm)
      ]
