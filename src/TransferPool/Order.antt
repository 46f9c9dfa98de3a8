-- ===== src/TransferPool/Order.antt =====
-- Whom core/transfer_pool.rs wakes, cancels and sends away.
use titan_ssh.Common.{
  ℕ, ◌≤◌, ◌<◌, ◌≡◌, refl, ◌≢◌, ◌⊎◌, false, List, [], ◌∷◌, ◌++◌, none, some, arith, nat_eq, ◌==◌,
  All, leb, Option-cases, Bool-cases, inl, inr, ap, subst,
}
use titan_ssh.TransferPool.{
  TransferPool, Waiter, failed, cancelled, take_min, take_seq, take_woken, wake_next_waiter,
  cancel_waiter, wait_for_wakeup,
}

-- Where an item stands: `whole` is `before`, the item, and `after`; `rest` is without it.
pub record Stands (w : Waiter) (whole rest : List Waiter) : Type 0 where
  pub before : List Waiter
  pub after : List Waiter
  pub is_whole : whole ≡ before ++ w ∷ after
  pub is_rest : rest ≡ before ++ after

-- The earliest of a queue: it is strictly before all that stand in front of it, and no later than
-- the ones behind.
pub record IsEarliest (w : Waiter) (whole rest : List Waiter) : Type 0 where
  pub stands : Stands w whole rest
  pub in_front : All (λ (x : Waiter). w.queue_seq < x.queue_seq) stands.before
  pub behind : All (λ (x : Waiter). w.queue_seq ≤ x.queue_seq) stands.after

All-mono :
    (m n : ℕ) (ws : List Waiter)
    → m ≤ n
    → All (λ (x : Waiter). n ≤ x.queue_seq) ws
    → All (λ (x : Waiter). m ≤ x.queue_seq) ws
All-mono m n [] h a = tt
All-mono m n (w ∷ ws) h a = (omega arith, All-mono m n ws h a.1)

All-strict :
    (m n : ℕ) (ws : List Waiter)
    → m ≤ n
    → All (λ (x : Waiter). n < x.queue_seq) ws
    → All (λ (x : Waiter). m ≤ x.queue_seq) ws
All-strict m n [] h a = tt
All-strict m n (w ∷ ws) h a = (omega arith, All-strict m n ws h a.1)

All-middle :
    (m : ℕ) (xs ys : List Waiter) (w : Waiter)
    → All (λ (x : Waiter). m ≤ x.queue_seq) xs
    → m ≤ w.queue_seq
    → All (λ (x : Waiter). m ≤ x.queue_seq) ys
    → All (λ (x : Waiter). m ≤ x.queue_seq) (xs ++ w ∷ ys)
All-middle m [] ys w a h b = (h, b)
All-middle m (x ∷ xs) ys w a h b = (a.0, All-middle m xs ys w a.1 h b)

IsEarliest-first :
    (w m : Waiter) (ws rest : List Waiter)
    → m ≡ w
    → rest ≡ ws
    → All (λ (x : Waiter). w.queue_seq ≤ x.queue_seq) ws
    → IsEarliest m (w ∷ ws) rest
IsEarliest-first w m ws rest e r a =
    rw (e, r)
      (record {
        stands = record { before = []; after = ws; is_whole = refl; is_rest = refl };
        in_front = tt;
        behind = a;
      })

IsEarliest-later :
    (w m m' : Waiter) (ws rest rest' : List Waiter)
    → m ≡ m'
    → rest ≡ w ∷ rest'
    → m'.queue_seq < w.queue_seq
    → IsEarliest m' ws rest'
    → IsEarliest m (w ∷ ws) rest
IsEarliest-later w m m' ws rest rest' e r l h =
    rw (e, r)
      (record {
        stands = record {
          before = w ∷ h.stands.before;
          after = h.stands.after;
          is_whole = ap (◌∷◌ w) h.stands.is_whole;
          is_rest = ap (◌∷◌ w) h.stands.is_rest;
        };
        in_front = (l, h.in_front);
        behind = h.behind;
      })

IsEarliest-All :
    (k : ℕ) (m : Waiter) (ws rest : List Waiter)
    → k ≤ m.queue_seq
    → IsEarliest m ws rest
    → All (λ (x : Waiter). k ≤ x.queue_seq) ws
IsEarliest-All k m ws rest l h = rw h.stands.is_whole (
    All-middle k h.stands.before h.stands.after m
      (All-strict k m.queue_seq h.stands.before l h.in_front) l
      (All-mono k m.queue_seq h.stands.after l h.behind))

take_min-none : (ws : List Waiter) → take_min ws ≡ none → ws ≡ []
unfolding take_min
take_min-none [] h = refl
take_min-none (w ∷ ws) h = absurd (ground arith)

take_min-IsEarliest :
    (ws : List Waiter) (m : Waiter) (rest : List Waiter)
    → take_min ws ≡ some (m, rest)
    → IsEarliest m ws rest
unfolding take_min
take_min-IsEarliest [] m rest h = cc
take_min-IsEarliest (w ∷ ws) m rest h = elim (Option-cases (take_min ws)) [
  | inl e ↦ IsEarliest-first w m ws rest (ground arith) (ground arith) (rw (take_min-none ws e) tt)
  | inr ((m', rest'), e) ↦
      let ih = take_min-IsEarliest ws m' rest' e in
      elim (Bool-cases (leb w.queue_seq m'.queue_seq)) [
        | inl first ↦
            IsEarliest-first w m ws rest (ground arith) (ground arith)
              (IsEarliest-All w.queue_seq m' ws rest' (ground arith) ih)
        | inr later ↦
            IsEarliest-later w m m' ws rest rest' (ground arith) (ground arith) (ground arith) ih
      ]
]

take_seq-Stands :
    (q : ℕ) (ws : List Waiter) (m : Waiter) (rest : List Waiter)
    → take_seq q ws ≡ some (m, rest)
    → Stands m ws rest × (m.queue_seq ≡ q)
unfolding take_seq
take_seq-Stands q [] m rest h = cc
take_seq-Stands q (w ∷ ws) m rest h = elim (Bool-cases (w.queue_seq == q)) [
  | inl hit ↦
      let e : w ≡ m = ground arith in
      let r : ws ≡ rest = ground arith in
      (
        rw (← e, ← r) (record { before = []; after = ws; is_whole = refl; is_rest = refl }),
        ground arith,
      )
  | inr miss ↦ elim (Option-cases (take_seq q ws)) [
    | inl n ↦ absurd (ground arith)
    | inr ((m', rest'), n) ↦
        let ih = take_seq-Stands q ws m' rest' n in
        let e : m' ≡ m = ground arith in
        let r : w ∷ rest' ≡ rest = ground arith in
        (
          rw (← e, ← r)
              (record {
                before = w ∷ ih.0.before;
                after = ih.0.after;
                is_whole = ap (◌∷◌ w) ih.0.is_whole;
                is_rest = ap (◌∷◌ w) ih.0.is_rest;
              }),
          ground (arith, ih.1),
        )
  ]
]

take_seq_first :
    (x : Waiter) (before after : List Waiter)
    → All (λ (y : Waiter). y.queue_seq ≢ x.queue_seq) before
    → take_seq x.queue_seq (before ++ x ∷ after) ≡ some (x, before ++ after)
unfolding take_seq
take_seq_first x [] after a = ground arith
take_seq_first x (w ∷ before) after a = ground (arith, take_seq_first x before after a.1, a.0)

module _ {T : Type 0} where
  -- With nobody in the queue a wake-up changes nothing.
  -- Otherwise the waiter that is signalled has the least `queue_seq`, the first of equals; it alone
  -- leaves the queue, the others keep their order, and the slots stay as they are.
  wake_next_waiter-IsEarliest :
      (p : TransferPool T)
      → ((p.waiters ≡ []) × (wake_next_waiter p ≡ p))
        ⊎ ((w : Waiter) × IsEarliest w p.waiters (wake_next_waiter p).waiters
            × ((wake_next_waiter p).woken ≡ record { wake = w.wake; cancelled = false } ∷ p.woken)
            × ((wake_next_waiter p).connections ≡ p.connections))
  unfolding wake_next_waiter
  wake_next_waiter-IsEarliest p = elim (Option-cases (take_min p.waiters)) [
    | inl e ↦ inl (take_min-none p.waiters e, ground arith)
    | inr ((w, rest), e) ↦ inr (
      w,
      subst (IsEarliest w p.waiters) (ground arith) (take_min-IsEarliest p.waiters w rest e),
      ground arith,
      ground arith,
    )
  ]

  -- The first waiter `x` of the queue with its number is cancelled: it leaves the queue,
  -- its `checkout` returns `Cancelled` at once, and the slots, the others in the queue and the
  -- other signals stay as they were.
  cancel_waiter-cancelled :
      (p : TransferPool T) (x : Waiter) (before after : List Waiter) (now : ℕ)
      → p.waiters ≡ before ++ x ∷ after
      → All (λ (y : Waiter). y.queue_seq ≢ x.queue_seq) before
      → wait_for_wakeup now x (cancel_waiter x.queue_seq p)
        ≡ some (record p { waiters = before ++ after }, failed cancelled)
  unfolding cancel_waiter wait_for_wakeup take_woken
  cancel_waiter-cancelled p x before after now e a =
      let t : take_seq x.queue_seq p.waiters ≡ some (x, before ++ after) =
        rw e (take_seq_first x before after a) in
      ground arith
