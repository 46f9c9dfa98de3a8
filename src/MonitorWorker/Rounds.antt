-- ===== src/MonitorWorker/Rounds.antt =====
-- `run_monitor_loop_with` of core/monitor_worker.rs: what a worker reports, in order.
use titan_ssh.Common.{
  suc, ◌≡◌, refl, ap, inl, inr, Bool, true, false, not, ◌&&◌, List, [], ◌∷◌, Option, none, Text,
  length, all, Bool-cases,
}
use titan_ssh.Errors.{AppError, Result, ok, err, Result-cases}
use titan_ssh.MonitorWorker.{
  Floats, CpuSample, NetworkSample, Report, on_snapshot, on_error, Round, collect,
  run_monitor_loop_with, parse_snapshot_at,
}

module _ (floats : Floats) where
  -- Snapshots, and at most one error, at the end.
  abbrev pub EndsOnce : List (Report floats) → Type 0
  EndsOnce [] = Unit {0}
  EndsOnce (on_snapshot s ∷ reports) = EndsOnce reports
  EndsOnce (on_error e ∷ reports) = reports ≡ []

  abbrev pub goes_well : Round floats → Bool
  goes_well r = not r.shutdown && elim r.answer [ ok _ ↦ true | err _ ↦ false ]

  collect-EndsOnce :
      (session_id : Text) (cpu : Option CpuSample) (network : Option NetworkSample)
      (rounds : List (Round floats))
      → EndsOnce (collect floats session_id cpu network rounds)
        × (all goes_well rounds ≡ true
            → length (collect floats session_id cpu network rounds) ≡ length rounds)
  unfolding collect
  collect-EndsOnce session_id cpu network [] = (tt, (λ _. refl))
  collect-EndsOnce session_id cpu network (r ∷ rounds) = elim (Bool-cases r.shutdown) [
    | inl q ↦ rw q (tt, (λ h. cc))
    | inr q ↦ rw q (elim (Result-cases r.answer) [
      | inl (output, a) ↦
          (let p = parse_snapshot_at floats session_id output cpu network r.now in
            let h = collect-EndsOnce session_id p.cpu_sample p.network_sample rounds in
            rw a (h.0, (λ k. ap suc (h.1 k))))
      | inr (error, a) ↦ rw a (refl, (λ k. cc))
    ])
  ]

  -- A worker reports snapshots, and at most one error, which is then the last thing it reports; a worker whose connection failed reports that error alone. With a connection, and in every round no shutdown and an answer, it reports one snapshot for each round.
  pub run_monitor_loop_with-EndsOnce :
      (shutdown : Bool) (connection : Result (Unit {0})) (session_id : Text)
      (rounds : List (Round floats))
      → EndsOnce (run_monitor_loop_with floats shutdown connection session_id rounds)
        × ((error : AppError)
            → shutdown ≡ false
            → connection ≡ err error
            → run_monitor_loop_with floats shutdown connection session_id rounds
              ≡ on_error error ∷ [])
        × (shutdown ≡ false
            → connection ≡ ok tt
            → all goes_well rounds ≡ true
            → length (run_monitor_loop_with floats shutdown connection session_id rounds)
              ≡ length rounds)
  unfolding run_monitor_loop_with
  run_monitor_loop_with-EndsOnce true connection session_id rounds = (tt, (λ e h. cc), (λ h. cc))
  run_monitor_loop_with-EndsOnce false (err error) session_id rounds =
      (refl, (λ e h k. cc), (λ h k. cc))
  run_monitor_loop_with-EndsOnce false (ok _) session_id rounds =
      (let h = collect-EndsOnce session_id none none rounds in (h.0, (λ e p k. cc), (λ p k. h.1)))
