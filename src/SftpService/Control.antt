-- ===== src/SftpService/Control.antt =====
-- `run_control_op` of core/sftp_service.rs: an operation on the control connection, with one retry.
-- Between two steps of the thread any other may change the connection; what the connector and the
-- operation answer are arguments.
use titan_ssh.Common.{
  ◌≡◌, refl, ap, subst, ◌⊎◌, inl, inr, Bool, true, false, List, [], ◌∷◌, if◌then◌else◌, if_rule,
}
use titan_ssh.Errors.{AppError, Result, ok, err}
use titan_ssh.SftpService.Connection.{
  Transport, ConnectionState, Turn, returns, waits, connects, get_turn, finish_get,
  invalidate_if_ready, is_connection_failure,
}

-- Where the thread stands; the flag tells the first attempt from the retry.
pub data Phase (A : Type 0) : Type 0 where
  getting : Bool → Phase A
  connecting : Bool → Phase A
  running : Bool → Transport → Phase A
  finished : Result A → Phase A

module _ {A : Type 0} where
  abbrev pub with_connection : Bool → Result Transport → Phase A
  with_connection first result = elim result [ ok t ↦ running first t | err e ↦ finished (err e) ]

  abbrev pub after_turn : Bool → Turn → Phase A
  after_turn first turn = elim turn [
    | returns result ↦ with_connection first result
    | waits ↦ getting first
    | connects ↦ connecting first
  ]

  -- The operation has answered.
  unfoldable pub after_op :
      Bool → Transport → Result A → ConnectionState → ConnectionState × Phase A
  after_op first t (ok value) s = (s, finished (ok value))
  after_op false t (err error) s = (s, finished (err error))
  after_op true t (err error) s =
      if is_connection_failure error
      then (invalidate_if_ready t s, getting false)
      else (s, finished (err error))

  -- One step of the thread, in the state that it finds.
  unfoldable pub run_control_op :
      Result Transport → Result A → Phase A → ConnectionState → ConnectionState × Phase A
  unfolding after_op
  run_control_op connector answer (getting first) s =
      ((get_turn s).0, after_turn first (get_turn s).1)
  run_control_op connector answer (connecting first) s =
      ((finish_get connector s).0, with_connection first (finish_get connector s).1)
  run_control_op connector answer (running first t) s = after_op first t answer s
  run_control_op connector answer (finished result) s = (s, finished result)

  -- The answers of the operation, latest first.
  abbrev pub asked : Phase A → Result A → List (Result A) → List (Result A)
  asked p answer answers = elim p [
    | running _ _ ↦ answer ∷ answers
    | getting _ ↦ answers
    | connecting _ ↦ answers
    | finished _ ↦ answers
  ]

  -- What the thread has been through.
  pub data Trace : List (Result A) → Phase A → Type 0 where
    starts : Trace [] (getting true)
    steps :
        {answers : List (Result A)} {p : Phase A} (connector : Result Transport) (answer : Result A)
        (s : ConnectionState)
        → Trace answers p
        → Trace (asked p answer answers) (run_control_op connector answer p s).1

  -- What has been asked, by the phase: a retry follows one failure of the connection.
  abbrev pub Asked : Phase A → List (Result A) → Type 0
  Asked (getting true) answers = answers ≡ []
  Asked (connecting true) answers = answers ≡ []
  Asked (running true t) answers = answers ≡ []
  Asked (getting false) answers =
      (error : AppError) × (answers ≡ err error ∷ []) × (is_connection_failure error ≡ true)
  Asked (connecting false) answers =
      (error : AppError) × (answers ≡ err error ∷ []) × (is_connection_failure error ≡ true)
  Asked (running false t) answers =
      (error : AppError) × (answers ≡ err error ∷ []) × (is_connection_failure error ≡ true)
  Asked (finished result) answers =
      ((failure : AppError) × (result ≡ err failure) × (answers ≡ []))
      ⊎ ((failure error : AppError) × (result ≡ err failure)
          × (answers ≡ err error ∷ [])
          × (is_connection_failure error ≡ true))
      ⊎ ((answers ≡ result ∷ [])
          × ((error : AppError) → result ≡ err error → is_connection_failure error ≡ false))
      ⊎ ((error : AppError) × (answers ≡ result ∷ err error ∷ [])
          × (is_connection_failure error ≡ true))

  connected-Asked :
      (first : Bool) (result : Result Transport) (answers : List (Result A))
      → Asked (getting first) answers
      → Asked (with_connection first result) answers
  connected-Asked true (ok t) answers h = h
  connected-Asked false (ok t) answers h = h
  connected-Asked true (err e) answers h = inl (e, refl, h)
  connected-Asked false (err e) answers h = inr (inl (e, h.0, refl, h.1, h.2))

  turn-Asked :
      (first : Bool) (turn : Turn) (answers : List (Result A))
      → Asked (getting first) answers
      → Asked (after_turn first turn) answers
  turn-Asked first (returns result) answers h = connected-Asked first result answers h
  turn-Asked first waits answers h = h
  turn-Asked true connects answers h = h
  turn-Asked false connects answers h = h

  connecting-Asked :
      (first : Bool) (answers : List (Result A))
      → Asked (connecting first) answers
      → Asked (getting first) answers
  connecting-Asked true answers h = h
  connecting-Asked false answers h = h

  op-Asked :
      (first : Bool) (t : Transport) (answer : Result A) (s : ConnectionState)
      (answers : List (Result A))
      → Asked (running first t) answers
      → Asked (after_op first t answer s).1 (answer ∷ answers)
  unfolding after_op
  op-Asked true t (ok value) s answers h = inr (inr (inl (ap (λ l. ok value ∷ l) h, (λ e q. cc))))
  op-Asked false t (ok value) s answers h = inr (inr (inr (h.0, ap (λ l. ok value ∷ l) h.1, h.2)))
  op-Asked false t (err error) s answers h = inr (inr (inr (h.0, ap (λ l. err error ∷ l) h.1, h.2)))
  op-Asked true t (err error) s answers h =
      if_rule (λ (r : ConnectionState × Phase A). Asked r.1 (err error ∷ answers))
        (is_connection_failure error) (λ q. (error, ap (λ l. err error ∷ l) h, q))
        (λ q. inr (
          inr (
            inl (
              ap (λ l. err error ∷ l) h,
              (λ e z. (let y : error ≡ e = cc in subst (λ x. is_connection_failure x ≡ false) y q)),
            ))))

  step-Asked :
      (connector : Result Transport) (answer : Result A) (p : Phase A) (s : ConnectionState)
      (answers : List (Result A))
      → Asked p answers
      → Asked (run_control_op connector answer p s).1 (asked p answer answers)
  unfolding run_control_op
  step-Asked connector answer (getting first) s answers h =
      turn-Asked first (get_turn s).1 answers h
  step-Asked connector answer (connecting first) s answers h =
      connected-Asked first (finish_get connector s).1 answers (connecting-Asked first answers h)
  step-Asked connector answer (running first t) s answers h = op-Asked first t answer s answers h
  step-Asked connector answer (finished result) s answers h = h

  -- Whatever other threads do to the connection meanwhile, a control operation is asked at most twice, and a second time only after a failure of the connection. Its result is the answer of the last time it was asked, if that was not the first of two; or, if no connection could be had for the first or the second time, the error that says so. An error of the operation itself is returned without a retry.
  pub Trace-Asked : {answers : List (Result A)} {p : Phase A} → Trace answers p → Asked p answers
  Trace-Asked starts = refl
  Trace-Asked (steps {answers} {p} connector answer s t) =
      step-Asked connector answer p s answers (Trace-Asked t)
