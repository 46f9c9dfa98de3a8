-- ===== src/Common/Words.antt =====
-- Reading back a line of words that single spaces part.
use Prim.Native.Nat.{ℕ}
use mathlib.Core.Path.{◌≡◌, refl, ap, sym, ◌∙◌}
use mathlib.Core.Logic.{◌≢◌}
use mathlib.Core.Bool.{false, not}
use mathlib.Core.List.{
  [], ◌∷◌, ◌++◌, reverse, reverse-append, append_assoc, reverse-reverse, reverse-cons,
}
use native.Mathlib.Omega.{arith}
use titan_ssh.Common.Tests.{nat_eq}
use titan_ssh.Common.Lists.{All, retain, is_empty}
use titan_ssh.Common.Texts.{Text, is_whitespace, trim, trim_start}
use titan_ssh.Common.Lines.{lines, split_at_whitespace, split_whitespace}

-- A text with no white space in it.
abbrev pub IsWord : Text → Type 0
IsWord s = All (λ (c : ℕ). is_whitespace c ≡ false) s

-- A text that is one line, with no carriage return.
abbrev pub IsLine : Text → Type 0
IsLine s = All (λ (c : ℕ). (c ≢ 10) × (c ≢ 13)) s

pub All-append {ℓ} : (P : ℕ → Type ℓ) (xs ys : Text) → All P xs → All P ys → All P (xs ++ ys)
All-append P [] ys a b = b
All-append P (x ∷ xs) ys a b = (a.0, All-append P xs ys a.1 b)

pub All-reverse {ℓ} : (P : ℕ → Type ℓ) (xs : Text) → All P xs → All P (reverse xs)
All-reverse P [] a = tt
All-reverse P (x ∷ xs) a =
    rw (reverse-cons x xs) (All-append P (reverse xs) (x ∷ []) (All-reverse P xs a.1) (a.0, tt))

not_break : (c : ℕ) → is_whitespace c ≡ false → (c ≢ 10) × (c ≢ 13)
unfolding is_whitespace
not_break c h = ground arith

pub IsWord-IsLine : (s : Text) → IsWord s → IsLine s
IsWord-IsLine [] a = tt
IsWord-IsLine (c ∷ s) a = (not_break c a.0, IsWord-IsLine s a.1)

split_at_word :
    (a s : Text) → IsWord a → split_at_whitespace (a ++ (32 ∷ s)) ≡ a ∷ split_at_whitespace s
unfolding split_at_whitespace is_whitespace
split_at_word [] s h = refl
split_at_word (c ∷ a) s h = rw (h.0, split_at_word a s h.1)

split_last_word : (a : Text) → IsWord a → split_at_whitespace a ≡ a ∷ []
unfolding split_at_whitespace
split_last_word [] h = refl
split_last_word (c ∷ a) h = rw (h.0, split_last_word a h.1)

-- Three words are found again.
pub split_whitespace_three :
    (a b c : Text)
    → IsWord a
    → IsWord b
    → IsWord c
    → a ≢ []
    → b ≢ []
    → c ≢ []
    → split_whitespace (a ++ (32 ∷ (b ++ (32 ∷ c)))) ≡ a ∷ b ∷ c ∷ []
unfolding split_whitespace
split_whitespace_three a b c ha hb hc na nb nc =
    rw (split_at_word a (b ++ (32 ∷ c)) ha, split_at_word b c hb, split_last_word c hc)
      (kept a b c na nb nc)
  where
    kept :
        (a b c : Text)
        → a ≢ []
        → b ≢ []
        → c ≢ []
        → retain (λ l. not (is_empty l)) (a ∷ b ∷ c ∷ []) ≡ a ∷ b ∷ c ∷ []
    kept a b c na nb nc = ground arith

trim_start-word : (c : ℕ) (s : Text) → is_whitespace c ≡ false → trim_start (c ∷ s) ≡ c ∷ s
unfolding trim_start
trim_start-word c s h = rw h

pub trim_start-append : (a s : Text) → IsWord a → a ≢ [] → trim_start (a ++ s) ≡ a ++ s
trim_start-append [] s h n = absurd (n refl)
trim_start-append (c ∷ a) s h n = trim_start-word c (a ++ s) h.0

reverse-ne : (s : Text) → s ≢ [] → reverse s ≢ []
reverse-ne s n e = n (sym (reverse-reverse s) ∙ ap reverse e)

-- A text that begins and ends with a word has no white space to trim.
pub trim_words :
    (a m c : Text) → IsWord a → IsWord c → a ≢ [] → c ≢ [] → trim (a ++ (m ++ c)) ≡ a ++ (m ++ c)
unfolding trim
trim_words a m c ha hc na nc =
    let w : Text = a ++ (m ++ c) in
    let e : reverse w ≡ reverse c ++ reverse (a ++ m) =
      ap reverse (sym (append_assoc a m c)) ∙ reverse-append (a ++ m) c in
    let front : trim_start w ≡ w = trim_start-append a (m ++ c) ha na in
    let back : trim_start (reverse w) ≡ reverse w =
      rw e
        (trim_start-append (reverse c) (reverse (a ++ m)) (All-reverse _ c hc) (reverse-ne c nc)) in
    ap (λ (x : Text). reverse (trim_start (reverse x))) front ∙ ap reverse back ∙ reverse-reverse w

pub lines-line : (s rest : Text) → IsLine s → lines (s ++ (10 ∷ rest)) ≡ s ∷ lines rest
unfolding lines
lines-line [] rest h = refl
lines-line (c ∷ s) rest h = ground (arith, lines-line s rest h.1, h.0)
