-- ===== src/MonitorWorker/Tests.antt =====
-- core/monitor_worker.rs: runs, and the theorems at concrete data.
use titan_ssh.Common.{
  ℕ, ◌-◌, ◌*◌, ◌<◌, ◌≤◌, ◌≡◌, ◌⊎◌, refl, Bool, true, false, not, ◌&&◌, List, [], ◌∷◌, ◌++◌, map,
  none, some, Text, codes, if◌then◌else◌, any, lines, arith, to_decimal, length, all, split_char,
  parse_uint, trim, is_whitespace, beq, strip_prefix,
}
use titan_ssh.Errors.{AppError, Result, ok, err, ssh_connection_error}
use titan_ssh.MonitorWorker.{
  Floats, NetworkCounter, rate_between, parse_network_counter, classify, parse_snapshot_at, Round,
  on_error, run_monitor_loop_with,
}
use titan_ssh.MonitorWorker.Rates.{IsRate, rate_between-IsRate}
use titan_ssh.MonitorWorker.Parsing.{
  parse_network_counter-printed, parse_snapshot_at-network, is_status, is_bad, counters,
}
use titan_ssh.MonitorWorker.Rounds.{EndsOnce, goes_well, run_monitor_loop_with-EndsOnce}

-- Whole numbers in the place of floats.
abbrev whole_numbers : Floats
whole_numbers = record {
  Float = ℕ;
  parse_float = λ s. none;
  zero_float = 0;
  percent = λ a b. 0;
  is_at_most_zero = λ a. false;
  used_percent = λ a b. 0;
}

abbrev eth0 : NetworkCounter
eth0 = record { name = 101 ∷ 116 ∷ 104 ∷ 48 ∷ []; receive_bytes = 1500; transmit_bytes = 70 }

rate_half : rate_between 1000 4000 10 2010 ≡ some 1500
unfolding rate_between
rate_half = refl

rate_back : rate_between 4000 1000 10 2010 ≡ none
unfolding rate_between
rate_back = refl

counter_lo : parse_network_counter (codes "lo,1,2") ≡ none
unfolding parse_network_counter codes split_char parse_uint trim is_whitespace beq
counter_lo = refl

counter_more : parse_network_counter (codes "eth0,1,2,3") ≡ none
unfolding parse_network_counter codes split_char parse_uint trim is_whitespace beq
counter_more = refl

rate_between-IsRate_example :
    ((4000 < 1000) ⊎ (2010 ≤ 10) → rate_between 1000 4000 10 2010 ≡ none)
    × (1000 ≤ 4000
        → 10 < 2010
        → (rate : ℕ) × (rate_between 1000 4000 10 2010 ≡ some rate)
          × IsRate ((4000 - 1000) * 1000) (2010 - 10) rate)
rate_between-IsRate_example = rate_between-IsRate 1000 4000 10 2010 (omega arith)

parse_network_counter-printed_example :
    parse_network_counter
      (eth0.name ++ (44 ∷ (to_decimal eth0.receive_bytes ++ (44 ∷ to_decimal eth0.transmit_bytes))))
    ≡ some eth0
unfolding codes is_whitespace
parse_network_counter-printed_example =
    parse_network_counter-printed eth0 (refl, (refl, (refl, (refl, tt))))
      (omega arith, (omega arith, (omega arith, (omega arith, tt)))) (λ e. cc) (λ e. ground arith)
      (omega arith) (omega arith)

abbrev output : Text
output = codes "NETWORK_STATUS=available\nNET=eth0,1500,70\nDISK=65"

parse_snapshot_at-network_example :
    let ls = map classify (lines output) in
    let p = parse_snapshot_at whole_numbers (115 ∷ []) output none none 2000 in
    (p.snapshot.network.available ≡ (any is_status ls && not (any is_bad ls)))
    × (p.network_sample ≡ (
        if any is_status ls && not (any is_bad ls)
        then some (record { timestamp = 2000; interfaces = counters ls })
        else none))
parse_snapshot_at-network_example =
    parse_snapshot_at-network whole_numbers (115 ∷ []) output none none 2000

-- The output has the one interface.
output_read :
    (parse_snapshot_at whole_numbers (115 ∷ []) output none none 2000).network_sample
    ≡ some (record { timestamp = 2000; interfaces = eth0 ∷ [] })
unfolding parse_snapshot_at codes lines strip_prefix split_char parse_uint trim is_whitespace beq
output_read = refl

abbrev rounds : List (Round whole_numbers)
rounds =
    record { shutdown = false; answer = ok output; now = 2000 }
    ∷ record { shutdown = false; answer = err (ssh_connection_error []); now = 4000 }
    ∷ []

run_monitor_loop_with-EndsOnce_example :
    EndsOnce whole_numbers (run_monitor_loop_with whole_numbers false (ok tt) (115 ∷ []) rounds)
    × ((error : AppError)
        → ◌≡◌ {A = Bool} false false
        → ◌≡◌ {A = Result (Unit {0})} (ok tt) (err error)
        → run_monitor_loop_with whole_numbers false (ok tt) (115 ∷ []) rounds ≡ on_error error ∷ [])
    × (◌≡◌ {A = Bool} false false
        → ◌≡◌ {A = Result (Unit {0})} (ok tt) (ok tt)
        → all (goes_well whole_numbers) rounds ≡ true
        → length (run_monitor_loop_with whole_numbers false (ok tt) (115 ∷ []) rounds)
          ≡ length rounds)
run_monitor_loop_with-EndsOnce_example =
    run_monitor_loop_with-EndsOnce whole_numbers false (ok tt) (115 ∷ []) rounds
