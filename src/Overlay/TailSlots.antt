-- ===== src/Overlay/TailSlots.antt =====
-- vllm-exl3/overlay/patch_kpool_tail_slotmap.py: the replica of the slot mapping, with and without the
-- clamp that the patch inserts. Positions are those of tokens, from 0 on.
pub mod Clamped
use glm5_3_flash_2x_dgx_spar.Prelude.{
  ℕ, ◌+◌, ◌-◌, ◌*◌, ◌/◌, ◌%◌, min, Bool, true, false, ◌||◌, Option, none, some, List, [], ◌∷◌,
  count_if, length, get_elem?, ltb, leb, ◌==◌, if◌then◌else◌, Result, ok, err, ◌>>=◌,
}

pub data SlotError : Type 0 where
  bad_sizes empty_row zero_block : SlotError
  past_stride : ℕ → ℕ → SlotError

unfoldable pub count_overruns : List ℕ → ℕ → ℕ → Result SlotError ℕ
count_overruns positions block_size stride =
    if ltb block_size 1 || ltb stride 1
    then err bad_sizes
    else ok (count_if (λ p. leb stride (p / block_size)) positions)

-- `block_table_row[idx]`, of an index within the row
abbrev block_at : List ℕ → ℕ → ℕ
block_at row idx = elim (get_elem? row idx) [ none ↦ 0 | some b ↦ b ]

abbrev slot : List ℕ → ℕ → ℕ → ℕ → ℕ
slot row block_size p idx = block_at row idx * block_size + p % block_size

slot_of : List ℕ → ℕ → Bool → ℕ → Result SlotError ℕ
slot_of row block_size true p = ok (slot row block_size p (min (p / block_size) (length row - 1)))
slot_of row block_size false p =
    let idx = p / block_size in
    if leb (length row) idx then err (past_stride p idx) else ok (slot row block_size p idx)

slots : List ℕ → ℕ → Bool → List ℕ → Result SlotError (List ℕ)
unfolding slot_of
slots row block_size clamp [] = ok []
slots row block_size clamp (p ∷ ps) =
    slot_of row block_size clamp p >>= λ s. slots row block_size clamp ps >>= λ ss. ok (s ∷ ss)

-- a block size of 0 divides by it at the first position
unfoldable pub circular_slot_ids : List ℕ → List ℕ → ℕ → Bool → Result SlotError (List ℕ)
unfolding slots
circular_slot_ids positions [] block_size clamp = err empty_row
circular_slot_ids [] (b ∷ row) block_size clamp = ok []
circular_slot_ids (p ∷ ps) (b ∷ row) block_size clamp =
    if block_size == 0 then err zero_block else slots (b ∷ row) block_size clamp (p ∷ ps)
