-- ===== src/Examples/Blocks.antt =====
-- A block of four bytes, and a memory of three.
use chton.Prelude.{◌+◌, ◌-◌, ◌≤◌, ◌<◌, ◌≡◌, ◌⊎◌, [], ◌∷◌, replicate, arith}
use chton.Prelude.Outcome.{failed}
use chton.Origin.{out_of_bounds}
use chton.Origin.Memory
use chton.Origin.Memory.{MemoryOrigin}
use chton.Origin.Block.{BlockSlice, write, erase, erased}
use chton.Origin.Block.Laws.{IsWritten, write_exact, erase_exact}

abbrev four_bytes : BlockSlice
four_bytes = record { region = 1 ∷ 2 ∷ 3 ∷ 4 ∷ [] }

write_exact_example :
    (1 + 2 ≤ 4) × IsWritten 1 (8 ∷ 9 ∷ []) four_bytes (write 1 (8 ∷ 9 ∷ []) four_bytes)
    ⊎ (4 < 1 + 2) × (write 1 (8 ∷ 9 ∷ []) four_bytes ≡ failed (out_of_bounds 1 2) four_bytes)
write_exact_example = write_exact 1 (8 ∷ 9 ∷ []) four_bytes (omega arith)

erase_exact_example :
    (1 + (3 - 1) ≤ 4) × IsWritten 1 (replicate (3 - 1) erased) four_bytes (erase 1 3 four_bytes)
    ⊎ (4 < 1 + (3 - 1)) × (erase 1 3 four_bytes ≡ failed (out_of_bounds 1 (3 - 1)) four_bytes)
erase_exact_example = erase_exact 1 3 four_bytes (omega arith)

abbrev three_bytes : MemoryOrigin
three_bytes = record { bytes = 1 ∷ 2 ∷ 3 ∷ [] }
