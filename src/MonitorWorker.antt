-- ===== src/MonitorWorker.antt =====
-- core/monitor_worker.rs and the snapshot of models/monitor.rs: what a monitoring worker makes of the
-- output of its script. Floating-point numbers are a parameter; a time is a number of milliseconds.
pub mod Rates
pub mod Parsing
pub mod Rounds
mod Tests
use titan_ssh.Common.{
  ℕ, suc, ◌+◌, ◌-◌, ◌*◌, ◌/◌, ◌%◌, ◌^◌, min, Bool, true, false, not, ◌&&◌, ◌||◌, List, [], ◌∷◌,
  ◌++◌, map, Option, none, some, Text, codes, text_eq, nat_eq, ◌==◌, ltb, if◌then◌else◌, find, trim,
  lines, split_char, strip_prefix, parse_uint,
}
use titan_ssh.Errors.{AppError, Result, ok, err, ◌>>=◌}

abbrev pub u64_max : ℕ
u64_max = 2 ^ 64 - 1

-- `f64`: `percent` is the rounded share of the first in the second, in per cent, for two counters,
-- and `used_percent` the same for what a total has left of its available part.
pub record Floats : Type 1 where
  pub Float : Type 0
  pub parse_float : Text → Option Float
  pub zero_float : Float
  pub percent : ℕ → ℕ → Float
  pub is_at_most_zero : Float → Bool
  pub used_percent : Float → Float → Float

pub record CpuSample : Type 0 where
  pub total : ℕ
  pub idle : ℕ

pub record NetworkCounter : Type 0 where
  pub name : Text
  pub receive_bytes : ℕ
  pub transmit_bytes : ℕ

pub record NetworkSample : Type 0 where
  pub timestamp : ℕ
  pub interfaces : List NetworkCounter

pub record NetworkInterface : Type 0 where
  pub name : Text
  pub receive_bytes_per_second : Option ℕ
  pub transmit_bytes_per_second : Option ℕ

pub record NetworkSnapshot : Type 0 where
  pub available : Bool
  pub interfaces : List NetworkInterface

pub record MonitorSnapshot (F : Type 0) : Type 0 where
  pub session_id : Text
  pub timestamp : ℕ
  pub cpu_usage : Option F
  pub memory_usage : Option F
  pub disk_usage : Option F
  pub disk_available_bytes : Option ℕ
  pub disk_total_bytes : Option ℕ
  pub network : NetworkSnapshot

-- `checked_sub`, `saturating_sub` is `-`. The product is one of `u128`, which wraps around.
unfoldable pub rate_between : ℕ → ℕ → ℕ → ℕ → Option ℕ
rate_between previous current previous_timestamp current_timestamp =
    if ltb current previous || not (ltb previous_timestamp current_timestamp)
    then none
    else some (
        min ((current - previous) * 1000 % 2 ^ 128 / (current_timestamp - previous_timestamp))
          u64_max)

-- The earlier counter of an interface.
abbrev pub previous_counter : Option NetworkSample → Text → Option (ℕ × NetworkCounter)
previous_counter previous name = elim previous [
  | none ↦ none
  | some sample ↦
      elim (find (λ (candidate : NetworkCounter). candidate.name == name) sample.interfaces) [
        | none ↦ none
        | some candidate ↦ some (sample.timestamp, candidate)
      ]
]

unfoldable pub interface_rates : Option NetworkSample → ℕ → NetworkCounter → NetworkInterface
unfolding rate_between
interface_rates previous timestamp counter = elim (previous_counter previous counter.name) [
  | none ↦ record {
    name = counter.name;
    receive_bytes_per_second = none;
    transmit_bytes_per_second = none;
  }
  | some (before, candidate) ↦ record {
    name = counter.name;
    receive_bytes_per_second =
        rate_between candidate.receive_bytes counter.receive_bytes before timestamp;
    transmit_bytes_per_second =
        rate_between candidate.transmit_bytes counter.transmit_bytes before timestamp;
  }
]

unfoldable pub compute_network_rates : Option NetworkSample → NetworkSample → List NetworkInterface
unfolding interface_rates
compute_network_rates previous current =
    map (interface_rates previous current.timestamp) current.interfaces

abbrev loopback : Text
loopback = 108 ∷ 111 ∷ []

abbrev pub parse_u64 : Text → Option ℕ
parse_u64 s = parse_uint u64_max (trim s)

-- The three fields of a line, of which there may be no more and no less.
unfoldable pub counter_of : Text → Text → Text → Option NetworkCounter
counter_of name receive transmit = elim (parse_u64 receive) [
  | none ↦ none
  | some receive_bytes ↦ elim (parse_u64 transmit) [
    | none ↦ none
    | some transmit_bytes ↦
        if trim name == loopback || trim name == []
        then none
        else some (record {
          name = trim name;
          receive_bytes = receive_bytes;
          transmit_bytes = transmit_bytes;
        })
  ]
]

unfoldable pub fields_counter : List Text → Option NetworkCounter
unfolding counter_of
fields_counter (name ∷ receive ∷ transmit ∷ []) = counter_of name receive transmit
fields_counter (name ∷ receive ∷ transmit ∷ more ∷ rest) = none
fields_counter (name ∷ receive ∷ []) = none
fields_counter (name ∷ []) = none
fields_counter [] = none

unfoldable pub parse_network_counter : Text → Option NetworkCounter
unfolding fields_counter
parse_network_counter value = fields_counter (split_char 44 value)

-- `v.split(',').next().is_some_and(|name| name.trim() == "lo")`.
abbrev is_loopback : Text → Bool
is_loopback value = elim (split_char 44 value) [ [] ↦ false | name ∷ rest ↦ trim name == loopback ]

-- What a line of the output is, by its first prefix that fits.
pub data Line : Type 0 where
  cpu_total cpu_idle memory_total memory_available disk disk_available disk_total net : Text → Line
  network_status other : Line

abbrev pub first_of : Option Text → (Text → Line) → Line → Line
first_of stripped fits otherwise = elim stripped [ none ↦ otherwise | some value ↦ fits value ]

unfoldable pub classify : Text → Line
classify line = first_of (strip_prefix (codes "CPU_TOTAL=") line) cpu_total (
    first_of (strip_prefix (codes "CPU_IDLE=") line) cpu_idle (
      first_of (strip_prefix (codes "MEM_TOTAL_KB=") line) memory_total (
        first_of (strip_prefix (codes "MEM_AVAILABLE_KB=") line) memory_available (
          first_of (strip_prefix (codes "DISK=") line) disk (
            first_of (strip_prefix (codes "DISK_AVAIL=") line) disk_available (
              first_of (strip_prefix (codes "DISK_TOTAL=") line) disk_total (
                if line == codes "NETWORK_STATUS=available"
                then network_status
                else first_of (strip_prefix (codes "NET=") line) net other)))))))

-- The variables of the loop over the lines.
pub record Fields (F : Type 0) : Type 0 where
  pub memory_total_kb : Option F
  pub memory_available_kb : Option F
  pub disk_usage : Option F
  pub disk_available_bytes : Option ℕ
  pub disk_total_bytes : Option ℕ
  pub cpu_total : Option ℕ
  pub cpu_idle : Option ℕ
  pub network_available : Bool
  pub network_parse_failed : Bool
  pub network_interfaces : List NetworkCounter

abbrev pub no_fields : {F : Type 0} → Fields F
no_fields = record {
  memory_total_kb = none;
  memory_available_kb = none;
  disk_usage = none;
  disk_available_bytes = none;
  disk_total_bytes = none;
  cpu_total = none;
  cpu_idle = none;
  network_available = false;
  network_parse_failed = false;
  network_interfaces = [];
}

abbrev pub zip : Option ℕ → Option ℕ → Option CpuSample
zip total idle = elim total [
  | none ↦ none
  | some t ↦ elim idle [ none ↦ none | some i ↦ some (record { total = t; idle = i }) ]
]

module _ (floats : Floats) where
  open floats use {Float, parse_float, zero_float, percent, is_at_most_zero, used_percent}

  unfoldable pub read_line : Line → Fields Float → Fields Float
  unfolding parse_network_counter
  read_line (Line.cpu_total v) f = record f { cpu_total = parse_u64 v }
  read_line (Line.cpu_idle v) f = record f { cpu_idle = parse_u64 v }
  read_line (memory_total v) f = record f { memory_total_kb = parse_float (trim v) }
  read_line (memory_available v) f = record f { memory_available_kb = parse_float (trim v) }
  read_line (disk v) f = record f { disk_usage = parse_float (trim v) }
  read_line (disk_available v) f = record f { disk_available_bytes = parse_u64 v }
  read_line (disk_total v) f = record f { disk_total_bytes = parse_u64 v }
  read_line network_status f = record f { network_available = true }
  read_line (net v) f = if is_loopback v then f else elim (parse_network_counter v) [
    | some counter ↦ record f { network_interfaces = f.network_interfaces ++ counter ∷ [] }
    | none ↦ record f { network_parse_failed = true }
  ]
  read_line other f = f

  unfoldable pub read_lines : List Line → Fields Float → Fields Float
  unfolding read_line
  read_lines [] f = f
  read_lines (l ∷ ls) f = read_lines ls (read_line l f)

  unfoldable pub compute_cpu_usage : Option CpuSample → Option CpuSample → Option Float
  compute_cpu_usage previous current = elim previous [
    | none ↦ none
    | some p ↦ elim current [
      | none ↦ none
      | some c ↦
          let total_delta = c.total - p.total in
          let idle_delta = c.idle - p.idle in
          if total_delta == 0
          then some zero_float
          else some (percent (total_delta - idle_delta) total_delta)
    ]
  ]

  unfoldable pub resolve_memory_usage : Option Float → Option Float → Option Float
  resolve_memory_usage total available = elim total [
    | none ↦ none
    | some t ↦
        if is_at_most_zero t
        then none
        else elim available [ none ↦ none | some a ↦ some (used_percent t a) ]
  ]

  pub record Parsed : Type 0 where
    pub snapshot : MonitorSnapshot Float
    pub cpu_sample : Option CpuSample
    pub network_sample : Option NetworkSample

  -- The sample of this time, if the network could be read.
  abbrev pub sample_of : ℕ → Fields Float → Option NetworkSample
  sample_of timestamp f =
      if f.network_available && not f.network_parse_failed
      then some (record { timestamp = timestamp; interfaces = f.network_interfaces })
      else none

  abbrev pub network_of : Option NetworkSample → Option NetworkSample → NetworkSnapshot
  network_of previous sample = elim sample [
    | none ↦ record { available = false; interfaces = [] }
    | some s ↦ record { available = true; interfaces = compute_network_rates previous s }
  ]

  unfoldable pub parse_snapshot_at :
      Text → Text → Option CpuSample → Option NetworkSample → ℕ → Parsed
  unfolding read_lines classify compute_cpu_usage resolve_memory_usage compute_network_rates
  parse_snapshot_at session_id output previous_cpu previous_network timestamp =
      let f = read_lines (map classify (lines output)) no_fields in
      let cpu_sample = zip f.cpu_total f.cpu_idle in
      let network_sample = sample_of timestamp f in
      record {
        snapshot = record {
          session_id = session_id;
          timestamp = timestamp;
          cpu_usage = compute_cpu_usage previous_cpu cpu_sample;
          memory_usage = resolve_memory_usage f.memory_total_kb f.memory_available_kb;
          disk_usage = f.disk_usage;
          disk_available_bytes = f.disk_available_bytes;
          disk_total_bytes = f.disk_total_bytes;
          network = network_of previous_network network_sample;
        };
        cpu_sample = cpu_sample;
        network_sample = network_sample;
      }

  -- What the callbacks receive.
  pub data Report : Type 0 where
    on_snapshot : MonitorSnapshot Float → Report
    on_error : AppError → Report

  -- A round of the loop: the flag that it starts with, what the script answers, and the time.
  pub record Round : Type 0 where
    pub shutdown : Bool
    pub answer : Result Text
    pub now : ℕ

  -- The loop, with the samples of the round before.
  unfoldable pub collect : Text → Option CpuSample → Option NetworkSample → List Round → List Report
  collect session_id cpu network [] = []
  collect session_id cpu network (r ∷ rounds) = if r.shutdown then [] else elim r.answer [
    | err error ↦ on_error error ∷ []
    | ok output ↦
        let p = parse_snapshot_at session_id output cpu network r.now in
        on_snapshot p.snapshot ∷ collect session_id p.cpu_sample p.network_sample rounds
  ]

  unfoldable pub run_monitor_loop_with : Bool → Result (Unit {0}) → Text → List Round → List Report
  unfolding collect
  run_monitor_loop_with shutdown connection session_id rounds =
      if shutdown then [] else elim connection [
        | err error ↦ on_error error ∷ []
        | ok _ ↦ collect session_id none none rounds
      ]
