-- ===== src/Examples/Trees.antt =====
-- Paths in the tree of an empty store.
use chton.Prelude.{ℕ, List, length, ◌%◌, ◌^◌, ◌≡◌, refl, arith}
use chton.Prelude.Outcome.{ok, done}
use chton.Origin.Memory.{memory_origin}
use chton.Origin.Memory.Medium.{byte_of, memory-IsMedium}
use chton.Binding.{Slot, node_bytes, bitmap_bytes}
use chton.Binding.Tree.{locate, slot_at}
use chton.Binding.Alloc.{locate_or_create}
use chton.Binding.Shape.{trail, index_at}
use chton.Binding.Holds.Locate.{locate-tree, Located}
use chton.Binding.Holds.Create.{create, Created}
use chton.Map.Fresh.{fresh_store}
use chton.Map.Contents.{Represents}
use chton.Binding.Walk.{iter, count_records}
use chton.Binding.Enumerate.Count.{count_records-iter}
use chton.Examples.Alphabet.{Pair, two_letters, two_letters-laws}
use chton.Examples.Stores.{no_bytes, key_ab, none_yet, fresh-empty}

abbrev e : Represents byte_of 1 (fresh_store no_bytes 16) none_yet
e = fresh-empty

locate-tree_example :
    (s : Slot) × (locate no_bytes key_ab ≡ ok s)
    × Located memory-IsMedium
        (fresh_store no_bytes 16).bound
        e.tree
        e.free
        e.ready.holds
        e.ready.root
        key_ab
        1
        s
locate-tree_example =
    locate-tree memory-IsMedium (fresh_store no_bytes 16).bound e.tree e.free e.ready.holds
      e.ready.root two_letters-laws key_ab 1 refl

create_example :
    (c : Created byte_of key_ab 1 (fresh_store no_bytes 16).bound e.tree e.free e.vals 1 0)
    × (locate_or_create key_ab (fresh_store no_bytes 16).bound
        ≡ done
            (slot_at (c.tree (trail key_ab 1)) (index_at key_ab 1) (c.tree (trail key_ab 2)))
            c.after)
unfolding node_bytes bitmap_bytes
create_example =
    create memory-IsMedium two_letters-laws key_ab 1 refl e.free e.vals
      (fresh_store no_bytes 16).bound e.tree e.ready (omega arith)

count_records-iter_example :
    (out : List (Pair × ℕ)) × (iter no_bytes ≡ ok out)
    × (count_records no_bytes ≡ ok (length out % 2 ^ 64))
count_records-iter_example =
    count_records-iter memory-IsMedium (fresh_store no_bytes 16).bound e.tree e.free e.ready.holds
      e.ready.root two_letters-laws 1 refl
