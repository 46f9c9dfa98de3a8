-- ===== src/MonitorWorker/Rates.antt =====
-- `rate_between` and `compute_network_rates` of core/monitor_worker.rs: bounds, and which counters
-- are compared.
use native.Mathlib.Nat.{div-mul-le_self, lt-div-mul-add}
use titan_ssh.Common.{
  ℕ, ◌+◌, ◌-◌, ◌*◌, ◌/◌, ◌%◌, ◌^◌, ◌≤◌, ◌<◌, min, ◌≡◌, ◌⊎◌, refl, inl, inr, none, some, text_eq,
  ltb, arith, Bool-cases,
}
use titan_ssh.MonitorWorker.{u64_max, rate_between}

-- The exact rate, rounded down, or the greatest number of 64 bits.
abbrev pub IsRate : ℕ → ℕ → ℕ → Type 0
IsRate bytes_by_thousand elapsed rate =
    (rate ≤ u64_max)
    × (rate * elapsed ≤ bytes_by_thousand)
    × ((bytes_by_thousand < rate * elapsed + elapsed) ⊎ (rate ≡ u64_max))

-- A cut at a bound keeps what is below a quotient.
cut :
    (d e q top : ℕ)
    → q * e ≤ d
    → d < q * e + e
    → (min q top ≤ top) × (min q top * e ≤ d) × ((d < min q top * e + e) ⊎ (min q top ≡ top))
cut d e q top below above = elim (Bool-cases (ltb top q)) [
  | inl t ↦ (let m : min q top ≡ top = ground arith in rw m (omega arith, grind arith, inr refl))
  | inr t ↦ (let m : min q top ≡ q = ground arith in rw m (ground arith, below, inl above))
]

-- The rate between two samples is unknown exactly if the counter went back or no time has passed. If not, it is the exact number of bytes per second, rounded down, or the greatest number of 64 bits where that does not fit; with counters of 64 bits the product in between does not overflow.
pub rate_between-IsRate :
    (previous current before now : ℕ)
    → current ≤ u64_max
    → ((current < previous) ⊎ (now ≤ before) → rate_between previous current before now ≡ none)
      × (previous ≤ current
          → before < now
          → (rate : ℕ) × (rate_between previous current before now ≡ some rate)
            × IsRate ((current - previous) * 1000) (now - before) rate)
unfolding rate_between
rate_between-IsRate previous current before now h = (
  (λ c. unknown c),
  (λ p t.
      (let d = (current - previous) * 1000 in
        let e = now - before in
        let positive : 0 < e = omega arith in
        let fits : d % 2 ^ 128 ≡ d = omega arith in
        let q =
          cut d e (d / e) u64_max (div-mul-le_self d e) (lt-div-mul-add {a = d} {b = e} positive) in
        (min (d / e) u64_max, (rw fits (ground arith)), q))),
)
  where
    unknown :
        (current < previous) ⊎ (now ≤ before) → rate_between previous current before now ≡ none
    unknown (inl x) = ground arith
    unknown (inr x) = ground arith
