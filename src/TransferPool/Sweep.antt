-- ===== src/TransferPool/Sweep.antt =====
-- What core/transfer_pool.rs recycles, and when its reaper runs.
use titan_ssh.Common.{
  ◌↔◌, ℕ, ◌-◌, ◌≤◌, ◌≡◌, refl, ◌≢◌, ◌⊎◌, Bool, true, false, not, List, [], ◌∷◌, Option, none, some,
  arith, nat_eq, ◌==◌, if◌then◌else◌, retain, any, get, entries, Option-cases, inl, inr, leb, ◌&&◌,
  ◌||◌, get_absent, ap,
}
use native.Mathlib.Decide.{ℕ_discrete}
use titan_ssh.TransferPool.{
  ConnectionSlot, TransferPool, is_idle, is_idle_expired, is_idle_extra, is_expired, min_seq,
  sweep_expired_locked, has_idle_extra, min_expiry, earliest_idle_expiry, reaper_plan,
}
use titan_ssh.TransferPool.Slots.{Distinct}

module _ {T : Type 0} where
  -- What a filter leaves of one key.
  abbrev pub filtered :
      (ℕ × ConnectionSlot T → Bool) → ℕ → Option (ConnectionSlot T) → Option (ConnectionSlot T)
  filtered p k none = none
  filtered p k (some slot) = if p (k, slot) then some slot else none

  get-retain :
      (p : ℕ × ConnectionSlot T → Bool) (k : ℕ) (m : List (ℕ × ConnectionSlot T))
      → entries k m ≤ 1
      → get k (retain p m) ≡ filtered p k (get k m)
  get-retain p k [] d = refl
  get-retain p k ((j, slot) ∷ m) d = elim (ℕ_discrete j k) [
    | yes q ↦
        let c = ap (λ (x : ℕ). p (x, slot)) q in ground (arith, get-retain p k m, get_absent k m)
    | no n ↦ ground (arith, get-retain p k m)
  ]

  min_seq-none : (m : List (ℕ × ConnectionSlot T)) → min_seq m ≡ none → m ≡ []
  unfolding min_seq
  min_seq-none [] h = refl
  min_seq-none ((j, slot) ∷ m) h = absurd (ground arith)

  min_seq-le :
      (m : List (ℕ × ConnectionSlot T)) (base k : ℕ)
      → min_seq m ≡ some base
      → 1 ≤ entries k m
      → base ≤ k
  unfolding min_seq
  min_seq-le [] base k h e = cc
  min_seq-le ((j, slot) ∷ m) base k h e = elim (Option-cases (min_seq m)) [
    | inl n ↦ ground (arith, ap (entries k) (min_seq-none m n))
    | inr (b, n) ↦ ground (arith, min_seq-le m b k n)
  ]

  -- The sweep, slot by slot, in a map with one entry for a key: the base connection stays whatever
  -- its age, a held slot stays, an idle extra one stays until it has been idle for `idle_timeout`,
  -- and is gone from then on.
  get-sweep :
      (p : TransferPool T) (now k : ℕ)
      → Distinct p.connections
      → get k (sweep_expired_locked p now).connections ≡ (elim (get k p.connections) [
        | none ↦ none
        | some slot ↦ elim (min_seq p.connections) [
          | none ↦ none
          | some base ↦
              if is_idle slot && not (k == base) && leb p.idle_timeout (now - slot.last_used)
              then none
              else some slot
        ]
      ])
  unfolding sweep_expired_locked is_idle_expired
  get-sweep p now k d = elim (Option-cases (min_seq p.connections)) [
    | inl n ↦
        let e = min_seq-none p.connections n in
        let g : get k p.connections ≡ none = rw e refl in ground arith
    | inr (base, n) ↦
        let r =
          get-retain (λ entry. not (is_expired base now p.idle_timeout entry)) k p.connections
            (d k) in
        ground arith
  ]

  any-retain :
      (p : ℕ × ConnectionSlot T → Bool) (m : List (ℕ × ConnectionSlot T))
      → (any p m ≡ true → retain p m ≢ []) × (any p m ≡ false → retain p m ≡ [])
  any-retain p [] = ((λ e. cc), (λ _. refl))
  any-retain p (x ∷ m) = ground (arith, any-retain p m)

  min_expiry-some :
      (timeout : ℕ) (m : List (ℕ × ConnectionSlot T)) → m ≢ [] → min_expiry timeout m ≢ none
  unfolding min_expiry
  min_expiry-some timeout [] n = absurd (n refl)
  min_expiry-some timeout (x ∷ m) n = λ e. cc

  earliest_idle_expiry_of_extra :
      (m : List (ℕ × ConnectionSlot T)) (timeout : ℕ)
      → (has_idle_extra m ≡ true → earliest_idle_expiry m timeout ≢ none)
        × (has_idle_extra m ≡ false → earliest_idle_expiry m timeout ≡ none)
  unfolding has_idle_extra earliest_idle_expiry
  earliest_idle_expiry_of_extra m timeout = elim (Option-cases (min_seq m)) [
    | inl n ↦ ground arith
    | inr (base, n) ↦
        let a = any-retain (is_idle_extra base) m in
        let e = min_expiry-some timeout (retain (is_idle_extra base) m) in
        let z : retain (is_idle_extra base) m ≡ []
            → min_expiry timeout (retain (is_idle_extra base) m) ≡ none =
          λ q. rw q (unfold min_expiry in refl) in
        ground arith
  ]

  -- The reaper thread gives up, before its sleep or after it, exactly if the pool is closed or has
  -- no idle connection beside the base one; it then clears its flag, and otherwise leaves it.
  reaper_plan-stops :
      (p : TransferPool T) (now : ℕ)
      → (((reaper_plan now p).1 ≡ none)
          ↔ ((p.closed ≡ true) ⊎ (has_idle_extra p.connections ≡ false)))
        × ((reaper_plan now p).0.reaper_running
            ≡ (if p.closed || not (has_idle_extra p.connections) then false else p.reaper_running))
  unfolding reaper_plan
  reaper_plan-stops p now =
      let e = earliest_idle_expiry_of_extra p.connections p.idle_timeout in ground arith
