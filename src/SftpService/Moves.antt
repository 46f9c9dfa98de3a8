-- ===== src/SftpService/Moves.antt =====
-- core/sftp_service.rs: a finished file takes the place of the target of a transfer, on the local
-- disk or on the server.
use titan_ssh.Common.{
  ℕ, ◌≤◌, ◌≡◌, ◌≢◌, refl, sym, ◌∙◌, ◌⊎◌, inl, inr, List, Option, none, some, Text, text_eq, get,
  insert, remove, entries, arith, beq_iff, Option-cases, get-insert, get-remove_self,
  entries-insert-le,
}
use titan_ssh.SftpService.Transfer.{Files, with_intruder, move}

-- What the target holds after a transfer that did not succeed: what it held, or the file that
-- another program has put there meanwhile.
abbrev pub IsUntouched : Option (List ℕ) → Text → Files → Files → Type 0
IsUntouched intruder target before after =
    (get target after ≡ get target before)
    ⊎ ((content : List ℕ) × (intruder ≡ some content) × (get target after ≡ some content))

module _ (intruder : Option (List ℕ)) (temp target : Text) (ne : temp ≢ target)
    (before : Files) where
  pub IsUntouched-after :
      (files later : Files)
      → get target later ≡ get target files
      → IsUntouched intruder target before files
      → IsUntouched intruder target before later
  IsUntouched-after files later e (inl q) = inl (e ∙ q)
  IsUntouched-after files later e (inr (c, i, q)) = inr (c, i, e ∙ q)

  pub moved :
      (whole : List ℕ) (files : Files)
      → get temp files ≡ some whole
      → entries temp files ≤ 1
      → (get target (move temp target files) ≡ some whole)
        × (get temp (move temp target files) ≡ none)
  unfolding move
  moved whole files g single = (
    ground (arith, get-insert target target whole (remove temp files), beq_iff target target),
    ground (
      arith,
      get-insert target temp whole (remove temp files),
      beq_iff target temp,
      get-remove_self temp files,
    ),
  )

  pub intruded :
      (whole : List ℕ) (files : Files)
      → get temp files ≡ some whole
      → entries temp files ≤ 1
      → get target files ≡ get target before
      → let later = with_intruder intruder target files in
        (get temp later ≡ some whole)
        × (entries temp later ≤ 1)
        × IsUntouched intruder target before later
        × (get target later ≡ none → (get target before ≡ none) × (intruder ≡ none))
  intruded whole files g single e = elim (Option-cases intruder) [
    | inl q ↦ rw q (g, single, inl e, (λ n. (sym e ∙ n, refl)))
    | inr (c, q) ↦
        (let self : get target (insert target c files) ≡ some c =
            ground (arith, get-insert target target c files, beq_iff target target) in
          rw q (
            ground (arith, get-insert target temp c files, beq_iff target temp),
            entries-insert-le target temp c files single,
            inr (c, refl, self),
            (λ n. (let y : some c ≡ none = sym self ∙ n in cc)),
          ))
  ]
