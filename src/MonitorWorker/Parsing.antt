-- ===== src/MonitorWorker/Parsing.antt =====
-- core/monitor_worker.rs: the output of the script is read back.
use titan_ssh.Common.{
  ℕ, ◌≤◌, ◌≡◌, ◌≢◌, refl, ◌∙◌, ap, inl, inr, Bool, true, false, not, ◌&&◌, ◌||◌, List, [], ◌∷◌,
  ◌++◌, map, reverse, Option, none, some, Text, text_eq, nat_eq, if◌then◌else◌, arith, beq_iff,
  Bool-cases, Option-cases, trim, trim_start, is_whitespace, lines, split_char, All, any, IsWord,
  All-reverse, to_decimal, to_decimal-digits, parse_uint-to_decimal, is_digit, parse_uint,
}
use mathlib.Core.List.{reverse-reverse, append_assoc}
use titan_ssh.MonitorWorker.{
  u64_max, Floats, NetworkCounter, NetworkSample, CpuSample, parse_u64, counter_of, fields_counter,
  parse_network_counter, is_loopback, loopback, Line, network_status, net, other, memory_total,
  memory_available, disk, disk_available, disk_total, classify, Fields, no_fields, read_line,
  read_lines, network_of, parse_snapshot_at,
}

-- A text with no comma.
abbrev pub IsField : Text → Type 0
IsField s = All (λ (c : ℕ). c ≢ 44) s

split-field : (a s : Text) → IsField a → split_char 44 (a ++ (44 ∷ s)) ≡ a ∷ split_char 44 s
unfolding split_char
split-field [] s h = refl
split-field (c ∷ a) s h = ground (arith, split-field a s h.1, h.0)

split-last : (a : Text) → IsField a → split_char 44 a ≡ a ∷ []
unfolding split_char
split-last [] h = refl
split-last (c ∷ a) h = ground (arith, split-last a h.1, h.0)

trim_start-word : (w : Text) → IsWord w → trim_start w ≡ w
unfolding trim_start
trim_start-word [] h = refl
trim_start-word (c ∷ w) h = rw h.0 refl

pub trim-word : (w : Text) → IsWord w → trim w ≡ w
unfolding trim
trim-word w h =
    ap (λ (x : Text). reverse (trim_start (reverse x))) (trim_start-word w h)
    ∙ ap reverse (trim_start-word (reverse w) (All-reverse _ w h))
    ∙ reverse-reverse w

digit : (c : ℕ) → is_digit c ≡ true → (is_whitespace c ≡ false) × (c ≢ 44)
unfolding is_whitespace
digit c h = ground arith

digits : (s : Text) → All (λ (c : ℕ). is_digit c ≡ true) s → IsWord s × IsField s
digits [] h = (tt, tt)
digits (c ∷ s) h = (let d = digit c h.0 in let r = digits s h.1 in ((d.0, r.0), (d.1, r.1)))

number : (n : ℕ) → n ≤ u64_max → parse_u64 (to_decimal n) ≡ some n
number n h =
    ap (parse_uint u64_max)
      (trim-word (to_decimal n) (digits (to_decimal n) (to_decimal-digits n)).0)
    ∙ parse_uint-to_decimal u64_max n h

counter_of-fields :
    (c : NetworkCounter) (receive transmit : Text)
    → trim c.name ≡ c.name
    → parse_u64 receive ≡ some c.receive_bytes
    → parse_u64 transmit ≡ some c.transmit_bytes
    → c.name ≢ []
    → c.name ≢ loopback
    → counter_of c.name receive transmit ≡ some c
unfolding counter_of
counter_of-fields c receive transmit w r t named real =
    ground (arith, beq_iff (trim c.name) loopback, beq_iff (trim c.name) [])

-- A line of the script for an interface is read back with its name and its counters, for a name that has no white space and no comma and is neither empty nor `lo`, and counters of 64 bits.
pub parse_network_counter-printed :
    (c : NetworkCounter)
    → IsWord c.name
    → IsField c.name
    → c.name ≢ []
    → c.name ≢ loopback
    → c.receive_bytes ≤ u64_max
    → c.transmit_bytes ≤ u64_max
    → parse_network_counter
        (c.name ++ (44 ∷ (to_decimal c.receive_bytes ++ (44 ∷ to_decimal c.transmit_bytes))))
      ≡ some c
unfolding parse_network_counter fields_counter counter_of
parse_network_counter-printed c word field named real r t =
    let a = to_decimal c.receive_bytes in
    let b = to_decimal c.transmit_bytes in
    let da = digits a (to_decimal-digits c.receive_bytes) in
    let db = digits b (to_decimal-digits c.transmit_bytes) in
    let s : split_char 44 (c.name ++ (44 ∷ (a ++ (44 ∷ b)))) ≡ c.name ∷ a ∷ b ∷ [] =
      split-field c.name (a ++ (44 ∷ b)) field
      ∙ ap (λ (l : List Text). c.name ∷ l)
          (split-field a b da.1 ∙ ap (λ (l : List Text). a ∷ l) (split-last b db.1)) in
    ap fields_counter s
    ∙ counter_of-fields c a b (trim-word c.name word) (number c.receive_bytes r)
        (number c.transmit_bytes t) named real

-- The counters of the lines, one after the other, and whether a line cannot be read.
unfoldable pub counters : List Line → List NetworkCounter
counters [] = []
counters (net v ∷ ls) =
    let rest = counters ls in
    if is_loopback v
    then rest
    else elim (parse_network_counter v) [ none ↦ rest | some c ↦ c ∷ rest ]
counters (network_status ∷ ls) = counters ls
counters (Line.cpu_total v ∷ ls) = counters ls
counters (Line.cpu_idle v ∷ ls) = counters ls
counters (memory_total v ∷ ls) = counters ls
counters (memory_available v ∷ ls) = counters ls
counters (disk v ∷ ls) = counters ls
counters (disk_available v ∷ ls) = counters ls
counters (disk_total v ∷ ls) = counters ls
counters (other ∷ ls) = counters ls

abbrev pub is_bad : Line → Bool
is_bad l = elim l [
  | net v ↦ not (is_loopback v) && elim (parse_network_counter v) [ none ↦ true | some c ↦ false ]
  | _ ↦ false
]

abbrev pub is_status : Line → Bool
is_status l = elim l [ network_status ↦ true | _ ↦ false ]

module _ (floats : Floats) where
  -- What the loop makes of the lines of the network.
  abbrev Network : List Line → Fields floats.Float → Type 0
  Network ls f =
      ((read_lines floats ls f).network_available ≡ (f.network_available || any is_status ls))
      × ((read_lines floats ls f).network_parse_failed ≡ (f.network_parse_failed || any is_bad ls))
      × ((read_lines floats ls f).network_interfaces ≡ f.network_interfaces ++ counters ls)

  -- One line of an interface, after which the fields are `g`.
  carried :
      (v : Text) (ls : List Line) (f g : Fields floats.Float)
      → Network ls g
      → read_line floats (net v) f ≡ g
      → (g.network_available || any is_status ls)
        ≡ (f.network_available || any is_status (net v ∷ ls))
      → (g.network_parse_failed || any is_bad ls)
        ≡ (f.network_parse_failed || any is_bad (net v ∷ ls))
      → g.network_interfaces ++ counters ls ≡ f.network_interfaces ++ counters (net v ∷ ls)
      → Network (net v ∷ ls) f
  unfolding read_lines
  carried v ls f g h e x y z =
      let k : read_lines floats (net v ∷ ls) f ≡ read_lines floats ls g =
        ap (read_lines floats ls) e in
      (
        ap (λ (r : Fields floats.Float). r.network_available) k ∙ h.0 ∙ x,
        ap (λ (r : Fields floats.Float). r.network_parse_failed) k ∙ h.1 ∙ y,
        ap (λ (r : Fields floats.Float). r.network_interfaces) k ∙ h.2 ∙ z,
      )

  read_lines-Network : (ls : List Line) (f : Fields floats.Float) → Network ls f
  unfolding read_lines read_line counters
  read_lines-Network [] f = (
    or_false f.network_available,
    or_false f.network_parse_failed,
    append_nil f.network_interfaces,
  )
    where
      or_false : (b : Bool) → b ≡ (b || false)
      or_false true = refl
      or_false false = refl

      append_nil : (xs : List NetworkCounter) → xs ≡ xs ++ []
      append_nil [] = refl
      append_nil (x ∷ xs) = ap (λ (l : List NetworkCounter). x ∷ l) (append_nil xs)
  read_lines-Network (network_status ∷ ls) f =
      (let h = read_lines-Network ls (record f { network_available = true }) in
        (h.0 ∙ ground arith, h.1, h.2))
  read_lines-Network (Line.cpu_total v ∷ ls) f =
      read_lines-Network ls (read_line floats (Line.cpu_total v) f)
  read_lines-Network (Line.cpu_idle v ∷ ls) f =
      read_lines-Network ls (read_line floats (Line.cpu_idle v) f)
  read_lines-Network (memory_total v ∷ ls) f =
      read_lines-Network ls (read_line floats (memory_total v) f)
  read_lines-Network (memory_available v ∷ ls) f =
      read_lines-Network ls (read_line floats (memory_available v) f)
  read_lines-Network (disk v ∷ ls) f = read_lines-Network ls (read_line floats (disk v) f)
  read_lines-Network (disk_available v ∷ ls) f =
      read_lines-Network ls (read_line floats (disk_available v) f)
  read_lines-Network (disk_total v ∷ ls) f =
      read_lines-Network ls (read_line floats (disk_total v) f)
  read_lines-Network (other ∷ ls) f = read_lines-Network ls f
  read_lines-Network (net v ∷ ls) f = elim (Bool-cases (is_loopback v)) [
    | inl q ↦
        carried v ls f f (read_lines-Network ls f) (ground arith) refl (ground arith) (ground arith)
    | inr q ↦ elim (Option-cases (parse_network_counter v)) [
      | inl n ↦
          (let g : Fields floats.Float = record f { network_parse_failed = true } in
            carried v ls f g (read_lines-Network ls g) (ground arith) refl (ground arith)
              (ground arith))
      | inr (c, n) ↦
          (let g : Fields floats.Float = record f {
            network_interfaces = f.network_interfaces ++ c ∷ [];
          } in
            carried v ls f g (read_lines-Network ls g) (ground arith) refl (ground arith)
              (append_assoc f.network_interfaces (c ∷ []) (counters ls) ∙ (ground arith)))
    ]
  ]

  -- The network part of a snapshot: it is available exactly if the output has the status line and every line of an interface other than `lo` can be read, and the sample for the next round then has all these interfaces in the order of the output. If not, there is no sample.
  pub parse_snapshot_at-network :
      (session_id output : Text) (cpu : Option CpuSample) (previous : Option NetworkSample)
      (timestamp : ℕ)
      → let ls = map classify (lines output) in
        let p = parse_snapshot_at floats session_id output cpu previous timestamp in
        (p.snapshot.network.available ≡ (any is_status ls && not (any is_bad ls)))
        × (p.network_sample ≡ (
            if any is_status ls && not (any is_bad ls)
            then some (record { timestamp = timestamp; interfaces = counters ls })
            else none))
  unfolding parse_snapshot_at
  parse_snapshot_at-network session_id output cpu previous timestamp =
      let ls = map classify (lines output) in
      let h = read_lines-Network ls no_fields in
      rw h.0 (rw h.1 (rw h.2 (cases (any is_status ls && not (any is_bad ls)), refl)))
    where
      cases :
          (b : Bool)
          → (network_of floats previous (
              if b
              then some (record {
                timestamp = timestamp;
                interfaces = counters (map classify (lines output));
              })
              else none)).available
            ≡ b
      cases true = refl
      cases false = refl
