-- ===== src/TransferPool/Keys.antt =====
-- One sequence number of the pool of core/transfer_pool.rs: the slots in the map and the
-- threads that have them.
use titan_ssh.Common.{
  ℕ, suc, ◌≤◌, ◌≡◌, refl, ◌≢◌, true, false, List, [], ◌∷◌, some, arith, nat_eq, ◌==◌, count, get,
  insert, remove, entries, subst,
}
use native.Mathlib.Decide.{ℕ_discrete}
use titan_ssh.TransferPool.{ConnectionSlot, is_idle}
use titan_ssh.TransferPool.World.{drop_first, is_reserved}
use titan_ssh.TransferPool.Slots.{
  busy, entries-insert_ne, entries-insert_self, entries-remove_ne, entries-remove_self,
  busy-le-entries, busy_of_idle,
}

-- How many threads have the slot.
abbrev pub owners : ℕ → List ℕ → ℕ
owners k js = count (λ j. j == k) js

pub owners-drop_self :
    (k : ℕ) (js : List ℕ) → is_reserved k js ≡ true → suc (owners k (drop_first k js)) ≡ owners k js
owners-drop_self k [] h = cc
owners-drop_self k (j ∷ js) h = ground (arith, owners-drop_self k js)

pub owners-drop_ne : (k j : ℕ) (js : List ℕ) → j ≢ k → owners k (drop_first j js) ≡ owners k js
owners-drop_ne k j [] n = refl
owners-drop_ne k j (i ∷ js) n = ground (arith, owners-drop_ne k j js)

module _ {T : Type 0} where
  -- What holds of one sequence number.
  pub record IsKept (k : ℕ) (m : List (ℕ × ConnectionSlot T)) (next : ℕ) (js : List ℕ)
      : Type 0 where
    pub single : entries k m ≤ 1
    pub owned : owners k js ≡ busy k m
    pub fresh : next ≤ k → entries k m ≡ 0

  module _ (j : ℕ) (v : ConnectionSlot T) (m : List (ℕ × ConnectionSlot T)) (next : ℕ)
      (js : List ℕ) where
    give_self :
        (slot : ConnectionSlot T)
        → get j m ≡ some slot
        → is_idle slot ≡ true
        → is_idle v ≡ false
        → 1 ≤ entries j m
        → IsKept j m next js
        → IsKept j (insert j v m) next (j ∷ js)
    give_self slot g i b e h =
        ground
          (arith, entries-insert_self j v m h.single, busy_of_idle j m slot g i h.single, h.fresh)

    -- A thread takes the transport of an idle slot.
    pub give-IsKept :
        (k : ℕ) (slot : ConnectionSlot T)
        → get j m ≡ some slot
        → is_idle slot ≡ true
        → is_idle v ≡ false
        → 1 ≤ entries j m
        → IsKept k m next js
        → IsKept k (insert j v m) next (j ∷ js)
    give-IsKept k slot g i b e h = elim (ℕ_discrete j k) [
      | yes q ↦
          subst (λ x. IsKept x m next js → IsKept x (insert j v m) next (j ∷ js)) q
            (give_self slot g i b e) h
      | no n ↦ ground (arith, entries-insert_ne k j v m n, h.fresh)
    ]

    return_self :
        is_idle v ≡ true
        → is_reserved j js ≡ true
        → IsKept j m next js
        → IsKept j (insert j v m) next (drop_first j js)
    return_self i r h = ground (
      arith,
      entries-insert_self j v m h.single,
      owners-drop_self j js r,
      busy-le-entries j m,
      h.fresh,
    )

    -- A thread gives its transport back.
    pub return-IsKept :
        (k : ℕ)
        → is_idle v ≡ true
        → is_reserved j js ≡ true
        → IsKept k m next js
        → IsKept k (insert j v m) next (drop_first j js)
    return-IsKept k i r h = elim (ℕ_discrete j k) [
      | yes q ↦
          subst (λ x. IsKept x m next js → IsKept x (insert j v m) next (drop_first j js)) q
            (return_self i r) h
      | no n ↦ ground (arith, entries-insert_ne k j v m n, owners-drop_ne k j js n, h.fresh)
    ]

  module _ (j : ℕ) (v : ConnectionSlot T) (m : List (ℕ × ConnectionSlot T)) (js : List ℕ) where
    new_self : is_idle v ≡ false → IsKept j m j js → IsKept j (insert j v m) (suc j) (j ∷ js)
    new_self b h = ground (arith, entries-insert_self j v m h.single, busy-le-entries j m, h.fresh)

    -- A slot is reserved under the next sequence number.
    pub new-IsKept :
        (k : ℕ) → is_idle v ≡ false → IsKept k m j js → IsKept k (insert j v m) (suc j) (j ∷ js)
    new-IsKept k b h = elim (ℕ_discrete j k) [
      | yes q ↦
          subst (λ x. IsKept x m j js → IsKept x (insert j v m) (suc j) (j ∷ js)) q (new_self b) h
      | no n ↦ ground (arith, entries-insert_ne k j v m n, h.fresh)
    ]

  module _ (j : ℕ) (m : List (ℕ × ConnectionSlot T)) (next : ℕ) (js : List ℕ) where
    lose_self :
        is_reserved j js ≡ true → IsKept j m next js → IsKept j (remove j m) next (drop_first j js)
    lose_self r h = ground (
      arith,
      entries-remove_self j m h.single,
      owners-drop_self j js r,
      busy-le-entries j m,
      h.fresh,
    )

    -- A slot goes together with the connection of its thread.
    pub lose-IsKept :
        (k : ℕ)
        → is_reserved j js ≡ true
        → IsKept k m next js
        → IsKept k (remove j m) next (drop_first j js)
    lose-IsKept k r h = elim (ℕ_discrete j k) [
      | yes q ↦
          subst (λ x. IsKept x m next js → IsKept x (remove j m) next (drop_first j js)) q
            (lose_self r) h
      | no n ↦ ground (arith, entries-remove_ne k j m n, owners-drop_ne k j js n, h.fresh)
    ]

    -- The thread that has a slot finds it in the map.
    pub entries_of_reserved : is_reserved j js ≡ true → IsKept j m next js → 1 ≤ entries j m
    entries_of_reserved r h = ground (arith, owners-drop_self j js r, busy-le-entries j m)
