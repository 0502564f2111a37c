-- ===== src/Examples/Bounds.antt =====
-- What holds over any origin, at stores over memory.
use chton.Prelude.{
  ◌++◌, replicate, ℕ, ◌+◌, ◌≤◌, ◌<◌, ◌≡◌, ◌⊎◌, refl, ap, ◌∙◌, arith, none, some, List, [], ◌∷◌,
  length,
}
use chton.Prelude.{length-append, length-drop, drop, min, ◌-◌}
use chton.Prelude.Bytes.{from_le, bytes_at, length-bytes_at}
use chton.Prelude.Outcome.{ok, err, done, failed}
use chton.Origin.Laws.{fill}
use chton.Origin.Memory
use chton.Origin.Memory.{MemoryOrigin, memory_origin}
use chton.Origin.Memory.Medium.{byte_of, memory-IsMedium}
use chton.Binding.{node_bytes, BindingError, Bound, TreeStrategy, Slot, bitmap_bytes}
use chton.Binding.Read.{check_child_in_bounds, slot_pos, read_slot}
use chton.Binding.Tree.{locate, locate_loop}
use chton.Binding.Header.{load_or_new}
use chton.Binding.Bounds.{IsAdopted, IsFresh, IsSlot, IsUsable, locate-IsSlot, load_or_new-IsUsable}
use chton.Binding.Alloc.{alloc_record}
use chton.Binding.Recycle.{IsAllocated, alloc_record-IsAllocated}
use chton.Map.Contents.{get_path-Represents}
use chton.Map.Put.{update, update_self}
use chton.Map.Bounds.{IsBuffered, get_path-fits}
use chton.Examples.Alphabet.{two_letters, two_letters-laws}
use chton.Examples.Stores.{no_bytes, key_ab, none_yet, stored_ab}

-- The first slot of the root holds 81, and the second slot of the node there 98.
abbrev two_nodes : MemoryOrigin
two_nodes = record {
  bytes = replicate 65 0 ++ (81 ∷ replicate 15 0) ++ (replicate 9 0 ++ (98 ∷ replicate 7 0));
}

abbrev held_slot : Slot
held_slot = record { leaf_node = 81; leaf_index = 1; leaf_slot_offset = 90; record_offset = 98 }

locate-key_ab : locate two_nodes key_ab ≡ ok held_slot
unfolding locate locate_loop slot_pos read_slot check_child_in_bounds bitmap_bytes node_bytes
    Memory.read from_le
locate-key_ab = refl

locate-IsSlot_example : IsSlot two_nodes held_slot
locate-IsSlot_example = locate-IsSlot two_letters-laws two_nodes key_ab held_slot locate-key_ab

load_or_new-IsUsable_example :
    (16 < 8) × (load_or_new no_bytes 16 ≡ none)
    ⊎ ((8 ≤ 16)
        × (((e : BindingError) × (load_or_new no_bytes 16 ≡ some (err e)))
            ⊎ ((st : TreeStrategy) × (load_or_new no_bytes 16 ≡ some (ok st))
                × IsUsable no_bytes st
                × (IsFresh no_bytes 16 st ⊎ IsAdopted no_bytes st))))
load_or_new-IsUsable_example = load_or_new-IsUsable no_bytes 16

-- A strategy whose free list begins beyond the end of its medium.
abbrev stray : Bound MemoryOrigin
stray = record {
  strategy = record {
    record_slot_size = 16;
    bump = 100;
    free_head = 200;
    node_size = 17;
    record_count = 0;
  };
  medium = no_bytes;
}

alloc_record-IsAllocated_example :
    ((e : BindingError) × (alloc_record stray ≡ failed e stray))
    ⊎ ((area : ℕ) × (after : Bound MemoryOrigin) × (alloc_record stray ≡ done area after)
        × IsAllocated stray area after)
alloc_record-IsAllocated_example = alloc_record-IsAllocated stray

memory-IsBuffered : IsBuffered memory_origin
memory-IsBuffered s offset buf out n e =
    let count = min (memory_origin.len s - offset) (length buf) in
    let same : fill (byte_of s) offset count buf ≡ out =
      ground (arith, memory-IsMedium.reads s offset buf) in
    omega (
      arith,
      ap (λ (l : List ℕ). length l) same,
      length-append (bytes_at (byte_of s) offset count) (drop count buf),
      length-bytes_at (byte_of s) offset count,
      length-drop count buf,
    )

get_path-fits_example : 8 + 2 ≤ stored_ab.after.bound.strategy.record_slot_size
get_path-fits_example =
    get_path-fits memory-IsBuffered stored_ab.after (omega (arith, stored_ab.same_size))
      (omega (arith, stored_ab.same_size)) key_ab (7 ∷ 8 ∷ [])
      (get_path-Represents two_letters-laws memory-IsMedium 1 refl stored_ab.after
          (update 1 none_yet key_ab (some (7 ∷ 8 ∷ []))) key_ab stored_ab.represents
        ∙ ap ok (update_self 1 none_yet key_ab (some (7 ∷ 8 ∷ []))))
