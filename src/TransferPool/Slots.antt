-- ===== src/TransferPool/Slots.antt =====
-- The connection slots of core/transfer_pool.rs, counted: which are held by a checkout, and how
-- the map's operations move them.
use titan_ssh.Common.{
  ℕ, suc, ◌≤◌, ◌≡◌, refl, ◌≢◌, Bool, true, false, List, [], ◌∷◌, none, some, arith, nat_eq, ◌==◌,
  if◌then◌else◌, length, retain, get, insert, remove, entries,
}
use titan_ssh.TransferPool.{ConnectionSlot, is_idle, idle_min_seq}

module _ {T : Type 0} where
  -- How many slots are held by a checkout.
  abbrev pub held : List (ℕ × ConnectionSlot T) → ℕ
  held [] = 0
  held ((k, slot) ∷ m) = if is_idle slot then held m else suc (held m)

  -- How many held slots have this sequence number.
  abbrev pub busy : ℕ → List (ℕ × ConnectionSlot T) → ℕ
  busy k [] = 0
  busy k ((j, slot) ∷ m) =
      if j == k then (if is_idle slot then busy k m else suc (busy k m)) else busy k m

  abbrev pub Distinct : List (ℕ × ConnectionSlot T) → Type 0
  Distinct m = (k : ℕ) → entries k m ≤ 1

  pub busy-le-entries : (k : ℕ) (m : List (ℕ × ConnectionSlot T)) → busy k m ≤ entries k m
  busy-le-entries k [] = omega arith
  busy-le-entries k ((j, slot) ∷ m) = ground (arith, busy-le-entries k m)

  pub held_le : (m : List (ℕ × ConnectionSlot T)) → held m ≤ length m
  held_le [] = omega arith
  held_le ((j, slot) ∷ m) = ground (arith, held_le m)

  pub held_all : (m : List (ℕ × ConnectionSlot T)) → idle_min_seq m ≡ none → held m ≡ length m
  unfolding idle_min_seq
  held_all [] h = refl
  held_all ((j, slot) ∷ m) h = ground (arith, held_all m)

  pub held-insert_idle :
      (k : ℕ) (v : ConnectionSlot T) (m : List (ℕ × ConnectionSlot T)) (slot : ConnectionSlot T)
      → get k m ≡ some slot
      → is_idle slot ≡ true
      → is_idle v ≡ false
      → held (insert k v m) ≡ suc (held m)
  held-insert_idle k v [] slot g h n = cc
  held-insert_idle k v ((j, w) ∷ m) slot g h n = ground (arith, held-insert_idle k v m slot)

  pub held-insert_new :
      (k : ℕ) (v : ConnectionSlot T) (m : List (ℕ × ConnectionSlot T))
      → entries k m ≡ 0
      → is_idle v ≡ false
      → held (insert k v m) ≡ suc (held m)
  held-insert_new k v [] g n = ground arith
  held-insert_new k v ((j, w) ∷ m) g n = ground (arith, held-insert_new k v m)

  pub held-insert-ge :
      (k : ℕ) (v : ConnectionSlot T) (m : List (ℕ × ConnectionSlot T))
      → held m ≤ suc (held (insert k v m))
  held-insert-ge k v [] = omega arith
  held-insert-ge k v ((j, w) ∷ m) = ground (arith, held-insert-ge k v m)

  pub held-remove-ge : (k : ℕ) (m : List (ℕ × ConnectionSlot T)) → held m ≤ suc (held (remove k m))
  held-remove-ge k [] = omega arith
  held-remove-ge k ((j, w) ∷ m) = ground (arith, held-remove-ge k m)

  pub length-insert_present :
      (k : ℕ) (v : ConnectionSlot T) (m : List (ℕ × ConnectionSlot T))
      → 1 ≤ entries k m
      → length (insert k v m) ≡ length m
  length-insert_present k v [] h = absurd (omega arith)
  length-insert_present k v ((j, w) ∷ m) h = ground (arith, length-insert_present k v m)

  pub length-insert-le :
      (k : ℕ) (v : ConnectionSlot T) (m : List (ℕ × ConnectionSlot T))
      → length (insert k v m) ≤ suc (length m)
  length-insert-le k v [] = omega arith
  length-insert-le k v ((j, w) ∷ m) = ground (arith, length-insert-le k v m)

  pub length-remove-le : (k : ℕ) (m : List (ℕ × ConnectionSlot T)) → length (remove k m) ≤ length m
  length-remove-le k [] = omega arith
  length-remove-le k ((j, w) ∷ m) = ground (arith, length-remove-le k m)

  pub entries-insert_ne :
      (k j : ℕ) (v : ConnectionSlot T) (m : List (ℕ × ConnectionSlot T))
      → j ≢ k
      → (entries k (insert j v m) ≡ entries k m) × (busy k (insert j v m) ≡ busy k m)
  entries-insert_ne k j v [] n = ground arith
  entries-insert_ne k j v ((i, w) ∷ m) n = ground (arith, entries-insert_ne k j v m)

  pub entries-insert_self :
      (k : ℕ) (v : ConnectionSlot T) (m : List (ℕ × ConnectionSlot T))
      → entries k m ≤ 1
      → (entries k (insert k v m) ≡ 1) × (busy k (insert k v m) ≡ (if is_idle v then 0 else 1))
  entries-insert_self k v [] n = ground arith
  entries-insert_self k v ((i, w) ∷ m) n =
      ground (arith, entries-insert_self k v m, busy-le-entries k m)

  pub entries-remove_ne :
      (k j : ℕ) (m : List (ℕ × ConnectionSlot T))
      → j ≢ k
      → (entries k (remove j m) ≡ entries k m) × (busy k (remove j m) ≡ busy k m)
  entries-remove_ne k j [] n = ground arith
  entries-remove_ne k j ((i, w) ∷ m) n = ground (arith, entries-remove_ne k j m)

  pub entries-remove_self :
      (k : ℕ) (m : List (ℕ × ConnectionSlot T))
      → entries k m ≤ 1
      → (entries k (remove k m) ≡ 0) × (busy k (remove k m) ≡ 0)
  entries-remove_self k [] n = ground arith
  entries-remove_self k ((i, w) ∷ m) n =
      ground (arith, entries-remove_self k m, busy-le-entries k m)

  pub entries_of_get :
      (k : ℕ) (m : List (ℕ × ConnectionSlot T)) (slot : ConnectionSlot T)
      → get k m ≡ some slot
      → 1 ≤ entries k m
  entries_of_get k [] slot h = cc
  entries_of_get k ((i, w) ∷ m) slot h = ground (arith, entries_of_get k m slot)

  -- A filter that lets every held slot through.
  abbrev pub KeepsHeld : (ℕ × ConnectionSlot T → Bool) → Type 0
  KeepsHeld p = (k : ℕ) (slot : ConnectionSlot T) → is_idle slot ≡ false → p (k, slot) ≡ true

  pub held-retain :
      (p : ℕ × ConnectionSlot T → Bool) (m : List (ℕ × ConnectionSlot T))
      → KeepsHeld p
      → held (retain p m) ≡ held m
  held-retain p [] h = refl
  held-retain p ((k, slot) ∷ m) h = ground (arith, held-retain p m h, h k slot)

  pub busy-retain :
      (p : ℕ × ConnectionSlot T → Bool) (k : ℕ) (m : List (ℕ × ConnectionSlot T))
      → KeepsHeld p
      → (busy k (retain p m) ≡ busy k m) × (entries k (retain p m) ≤ entries k m)
  busy-retain p k [] h = ground arith
  busy-retain p k ((j, slot) ∷ m) h = ground (arith, busy-retain p k m h, h j slot)

  pub busy_of_idle :
      (k : ℕ) (m : List (ℕ × ConnectionSlot T)) (slot : ConnectionSlot T)
      → get k m ≡ some slot
      → is_idle slot ≡ true
      → entries k m ≤ 1
      → busy k m ≡ 0
  busy_of_idle k [] slot h i n = refl
  busy_of_idle k ((j, w) ∷ m) slot h i n =
      ground (arith, busy_of_idle k m slot, busy-le-entries k m)
