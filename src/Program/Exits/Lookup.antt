-- ===== src/Program/Exits/Lookup.antt =====
-- The sixteen slots of the exit book as a finite map from ids to open tickets.
use agama_magicblock.Prelude.{
  ℕ, ◌<◌, ◌≡◌, refl, false, List, [], ◌∷◌, Option, none, some, ◌==◌, ltb, if◌then◌else◌, arith,
}
use agama_magicblock.Program.State.{Exit, free_exit}
use agama_magicblock.Program.Exits.{has_id, find_id, replace_id}
use agama_magicblock.Program.Exits.Slots.{AreDistinct}

-- What the slots say of an id: no ticket has the id 0.
abbrev pub lookup : List Exit → ℕ → Option Exit
lookup es id = if ltb 0 id then find_id id es else none

-- A map with one more ticket, and a map with one less.
abbrev pub insert : Exit → (ℕ → Option Exit) → ℕ → Option Exit
insert t m id = if id == t.group_id then some t else m id

abbrev pub remove : ℕ → (ℕ → Option Exit) → ℕ → Option Exit
remove gone m id = if id == gone then none else m id

pub find_id_missing : (id : ℕ) (es : List Exit) → has_id id es ≡ false → find_id id es ≡ none
unfolding has_id find_id
find_id_missing id [] h = refl
find_id_missing id (e ∷ es) h = ground (arith, find_id_missing id es)

find_id-open :
    (id : ℕ) (new free : Exit) (es : List Exit)
    → 0 < id
    → 0 < new.group_id
    → has_id new.group_id es ≡ false
    → find_id 0 es ≡ some free
    → find_id id (replace_id 0 new es) ≡ insert new (λ j. find_id j es) id
unfolding has_id find_id replace_id
find_id-open id new free [] pos new_pos fresh found = cc
find_id-open id new free (e ∷ es) pos new_pos fresh found =
    ground (arith, find_id-open id new free es pos new_pos, find_id_missing id es)

find_id-settle :
    (id gone : ℕ) (es : List Exit)
    → 0 < id
    → 0 < gone
    → AreDistinct es
    → find_id id (replace_id gone free_exit es) ≡ remove gone (λ j. find_id j es) id
unfolding has_id find_id replace_id
find_id-settle id gone [] pos gone_pos d = ground arith
find_id-settle id gone (e ∷ es) pos gone_pos d =
    ground (arith, find_id-settle id gone es pos gone_pos d.1, find_id_missing id es)

-- Writing a ticket with a fresh id into a free slot adds it to the map.
pub lookup-insert :
    (new free : Exit) (es : List Exit)
    → 0 < new.group_id
    → has_id new.group_id es ≡ false
    → find_id 0 es ≡ some free
    → lookup (replace_id 0 new es) ≡ insert new (lookup es)
lookup-insert new free es new_pos fresh found i id = one_id id i
  where
    one_id : (id : ℕ) → lookup (replace_id 0 new es) id ≡ insert new (lookup es) id
    one_id id = ground (arith, find_id-open id new free es)

-- Freeing the slot of a ticket takes it out of the map.
pub lookup-remove :
    (gone : ℕ) (es : List Exit)
    → 0 < gone
    → AreDistinct es
    → lookup (replace_id gone free_exit es) ≡ remove gone (lookup es)
lookup-remove gone es gone_pos d i id = one_id id i
  where
    one_id : (id : ℕ) → lookup (replace_id gone free_exit es) id ≡ remove gone (lookup es) id
    one_id id = ground (arith, find_id-settle id gone es)
