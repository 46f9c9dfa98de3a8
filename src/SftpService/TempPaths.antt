-- ===== src/SftpService/TempPaths.antt =====
-- `download_temp_path` and `upload_temp_path` of core/sftp_service.rs: temporary paths are apart from
-- their targets, and from each other.
use titan_ssh.Common.{
  ℕ, ◌≡◌, ◌≢◌, refl, sym, ◌∙◌, ap, subst, inl, inr, true, false, ◌||◌, [], ◌∷◌, ◌++◌, reverse,
  Option, some, Text, codes, text_eq, nat_eq, ◌==◌, length, arith, beq, Bool-cases, file_name,
  parent, join, length-append, All, option_rule, if_rule,
}
use mathlib.Core.List.{
  reverse-append, reverse-reverse, append_assoc, append_cancel_left, append_cancel_right,
}
use titan_ssh.Common.Paths.{skip, last_part, ends_with_separator}
use titan_ssh.SftpService.Transfer.{download_temp_path, or_empty, temp_name, beside}

-- A text with no separator in it.
abbrev pub IsSegment : Text → Type 0
IsSegment s = All (λ (c : ℕ). c ≢ 47) s

IsSegment-append : (a b : Text) → IsSegment a → IsSegment b → IsSegment (a ++ b)
IsSegment-append [] b h k = k
IsSegment-append (c ∷ a) b h k = (h.0, IsSegment-append a b h.1 k)

IsSegment-reverse : (a : Text) → IsSegment a → IsSegment (reverse a)
IsSegment-reverse [] h = tt
IsSegment-reverse (c ∷ a) h =
    rw (reverse-append (c ∷ []) a)
      (IsSegment-append (reverse a) (c ∷ []) (IsSegment-reverse a h.1) (h.0, tt))

last_part-IsSegment : (r : Text) → IsSegment (last_part r)
unfolding last_part
last_part-IsSegment [] = tt
last_part-IsSegment (c ∷ r) = elim (Bool-cases (c == 47)) [
  | inl q ↦ rw q tt
  | inr q ↦ rw q (ground arith, last_part-IsSegment r)
]

-- A name is the last part of a path that ends with it after a separator.
last_part-append :
    (s r : Text) → IsSegment s → ends_with_separator r ≡ true → last_part (s ++ r) ≡ s
unfolding last_part
last_part-append [] [] h k = refl
last_part-append [] (c ∷ r) h k = ground arith
last_part-append (c ∷ s) r h k = ground (arith, last_part-append s r h.1 k, h.0)

temp_name-IsSegment :
    (name id : Text) → IsSegment name → IsSegment id → IsSegment (temp_name name id)
unfolding codes
temp_name-IsSegment name id h k = (
  (omega arith),
  IsSegment-append name _ h ((omega arith), IsSegment-append id (codes ".part") k (omega arith)),
)

-- It ends with a letter.
temp_name-reverse : (name id : Text) → (rest : Text) × (reverse (temp_name name id) ≡ 116 ∷ rest)
unfolding codes
temp_name-reverse name id =
    let front = 46 ∷ (name ++ (46 ∷ id)) in
    let e : temp_name name id ≡ front ++ codes ".part" =
      ap (λ (l : Text). 46 ∷ l) (sym (append_assoc name (46 ∷ id) (codes ".part"))) in
    (114 ∷ 97 ∷ 112 ∷ 46 ∷ reverse front, ap reverse e ∙ reverse-append front (codes ".part"))

is_name :
    (name id : Text)
    → (temp_name name id == [] || temp_name name id == 46 ∷ [] || temp_name name id == 46 ∷ 46 ∷ [])
      ≡ false
unfolding codes beq
is_name [] [] = refl
is_name [] (c ∷ id) = refl
is_name (c ∷ []) id = ground arith
is_name (c ∷ d ∷ name) id = ground arith

skip-letter : (c : ℕ) (r : Text) → c ≡ 116 → skip false (c ∷ r) ≡ c ∷ r
unfolding skip
skip-letter c r e = ground arith

file_name-append :
    (front name id : Text)
    → IsSegment name
    → IsSegment id
    → ends_with_separator (reverse front) ≡ true
    → file_name (front ++ temp_name name id) ≡ some (temp_name name id)
unfolding file_name
file_name-append front name id h k s =
    let t = temp_name name id in
    let (rest, e) = temp_name-reverse name id in
    let r : reverse (front ++ t) ≡ reverse t ++ reverse front = reverse-append front t in
    let kept : skip false (reverse (front ++ t)) ≡ reverse t ++ reverse front =
      ap (skip false) r
      ∙ ap (λ x. skip false (x ++ reverse front)) e
      ∙ skip-letter 116 (rest ++ reverse front) refl
      ∙ ap (λ x. x ++ reverse front) (sym e) in
    let named : reverse (last_part (skip false (reverse (front ++ t)))) ≡ t =
      ap (λ x. reverse (last_part x)) kept
      ∙ ap reverse (
          last_part-append (reverse t) (reverse front)
            (IsSegment-reverse t (temp_name-IsSegment name id h k)) s)
      ∙ reverse-reverse t in
    rw named (rw (is_name name id) refl)

file_name-IsSegment : (path name : Text) → file_name path ≡ some name → IsSegment name
unfolding file_name
file_name-IsSegment path name h =
    let last = reverse (last_part (skip false (reverse path))) in
    let s : IsSegment last =
      IsSegment-reverse _ (last_part-IsSegment (skip false (reverse path))) in
    let e : last ≡ name = ground arith in subst IsSegment e s

-- The temporary file has its own name, after the last separator.
beside-file_name :
    (path name id : Text)
    → IsSegment name
    → IsSegment id
    → file_name (beside path (temp_name name id)) ≡ some (temp_name name id)
unfolding beside join
beside-file_name path name id s k =
    let named = λ (t : Text). file_name t ≡ some (temp_name name id) in
    let bare = file_name-append [] name id s k refl in
    option_rule named (parent path) (λ _. bare)
      (λ d _.
        if_rule named (d == []) (λ _. bare)
          (λ _.
            if_rule named (ends_with_separator (reverse d)) (λ y. file_name-append d name id s k y)
              (λ _. subst named (append_assoc d (47 ∷ []) (temp_name name id)) (
                file_name-append (d ++ 47 ∷ []) name id s k
                  (rw (reverse-append d (47 ∷ [])) refl)))))

temp_path-file_name :
    (path name id : Text)
    → file_name path ≡ some name
    → IsSegment id
    → file_name (download_temp_path path id) ≡ some (temp_name name id)
unfolding download_temp_path
temp_path-file_name path name id h k =
    ap (λ (n : Option Text). file_name (beside path (temp_name (or_empty n) id))) h
    ∙ beside-file_name path name id (file_name-IsSegment path name h) k

name-ne : (name id : Text) → temp_name name id ≢ name
name-ne name id e =
    (let n = ap length e in
      let m = length-append {0} name (46 ∷ (id ++ codes ".part")) in absurd (omega arith))

temp_name-inj : (name i j : Text) → temp_name name i ≡ temp_name name j → i ≡ j
temp_name-inj name i j e =
    (let tails : 46 ∷ (i ++ codes ".part") ≡ 46 ∷ (j ++ codes ".part") =
        append_cancel_left name _ _ (ap (λ (l : Text). tail l) e) in
      append_cancel_right i j (codes ".part") (ap (λ (l : Text). tail l) tails))
  where
    tail : Text → Text
    tail [] = []
    tail (c ∷ s) = s

-- The temporary path of a task, whose id has no separator, is not the path of its target, if the target has a file name; and tasks with different ids have different temporary paths for one target, so that they cannot write to one file.
pub download_temp_path-distinct :
    (path name i j : Text)
    → file_name path ≡ some name
    → IsSegment i
    → IsSegment j
    → (download_temp_path path i ≢ path)
      × (download_temp_path path i ≡ download_temp_path path j → i ≡ j)
download_temp_path-distinct path name i j h si sj =
    let a = temp_path-file_name path name i h si in
    let b = temp_path-file_name path name j h sj in
    (
      (λ e.
          (let z : some (temp_name name i) ≡ some name = sym a ∙ ap file_name e ∙ h in
            name-ne name i (some_inj z))),
      (λ e.
          (let z : some (temp_name name i) ≡ some (temp_name name j) = sym a ∙ ap file_name e ∙ b in
            temp_name-inj name i j (some_inj z))),
    )
  where
    some_inj : {a b : Text} → some a ≡ some b → a ≡ b
    some_inj e = cc
