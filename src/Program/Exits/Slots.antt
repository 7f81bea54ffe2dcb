-- ===== src/Program/Exits/Slots.antt =====
-- The sixteen slots of the exit book, as a list: what is owed, and that open tickets have
-- distinct ids.
use agama_magicblock.Prelude.{
  ℕ, ◌+◌, ◌<◌, ◌≡◌, refl, ◌≢◌, ◌⊎◌, true, false, List, [], ◌∷◌, some, arith, ◌==◌, if◌then◌else◌,
  length,
}
use agama_magicblock.Program.State.{Exit, free_exit}
use agama_magicblock.Program.Exits.{has_id, find_id, replace_id}

-- What the custody still owes: the dollars of every open ticket.
abbrev pub owed : List Exit → ℕ
owed [] = 0
owed (e ∷ es) = (if e.group_id == 0 then 0 else e.assets) + owed es

-- No two open tickets share an id.
abbrev pub AreDistinct : List Exit → Type 0
AreDistinct [] = Unit {0}
AreDistinct (e ∷ es) = ((e.group_id ≡ 0) ⊎ (has_id e.group_id es ≡ false)) × AreDistinct es

pub length-replace_id :
    (id : ℕ) (new : Exit) (es : List Exit) → length (replace_id id new es) ≡ length es
unfolding replace_id
length-replace_id id new [] = refl
length-replace_id id new (e ∷ es) = ground (arith, length-replace_id id new es)

pub owed-open :
    (new free : Exit) (es : List Exit)
    → 0 < new.group_id
    → find_id 0 es ≡ some free
    → owed (replace_id 0 new es) ≡ owed es + new.assets
unfolding find_id replace_id
owed-open new free [] pos found = cc
owed-open new free (e ∷ es) pos found = ground (arith, owed-open new free es pos)

pub owed-settle :
    (id : ℕ) (slot : Exit) (es : List Exit)
    → 0 < id
    → find_id id es ≡ some slot
    → owed (replace_id id free_exit es) + slot.assets ≡ owed es
unfolding find_id replace_id
owed-settle id slot [] pos found = cc
owed-settle id slot (e ∷ es) pos found = ground (arith, owed-settle id slot es pos)

pub has_id-replace_id :
    (j id : ℕ) (new : Exit) (es : List Exit)
    → has_id j es ≡ false
    → j ≢ new.group_id
    → has_id j (replace_id id new es) ≡ false
unfolding has_id replace_id
has_id-replace_id j id new [] h ne = refl
has_id-replace_id j id new (e ∷ es) h ne = ground (arith, has_id-replace_id j id new es)

-- A new id keeps the ids distinct.
pub open-AreDistinct :
    (new : Exit) (es : List Exit)
    → AreDistinct es
    → has_id new.group_id es ≡ false
    → AreDistinct (replace_id 0 new es)
unfolding has_id replace_id
open-AreDistinct new [] d fresh = tt
open-AreDistinct new (e ∷ es) d fresh =
    ground (arith, open-AreDistinct new es d.1, has_id-replace_id e.group_id 0 new es)

pub settle-AreDistinct :
    (id : ℕ) (es : List Exit) → AreDistinct es → AreDistinct (replace_id id free_exit es)
unfolding has_id replace_id
settle-AreDistinct id [] d = tt
settle-AreDistinct id (e ∷ es) d =
    ground (arith, settle-AreDistinct id es d.1, has_id-replace_id e.group_id id free_exit es)

-- A settled ticket is gone: with distinct ids, its id is on no slot any more.
pub has_id-settled :
    (id : ℕ) (es : List Exit)
    → 0 < id
    → AreDistinct es
    → has_id id (replace_id id free_exit es) ≡ false
unfolding has_id replace_id
has_id-settled id [] pos d = refl
has_id-settled id (e ∷ es) pos d = ground (arith, has_id-settled id es pos d.1)

pub find_id-group_id :
    (id : ℕ) (slot : Exit) (es : List Exit) → find_id id es ≡ some slot → slot.group_id ≡ id
unfolding find_id
find_id-group_id id slot [] h = cc
find_id-group_id id slot (e ∷ es) h = ground (arith, find_id-group_id id slot es)

pub find_id-has_id :
    (id : ℕ) (slot : Exit) (es : List Exit) → find_id id es ≡ some slot → has_id id es ≡ true
unfolding find_id has_id
find_id-has_id id slot [] h = cc
find_id-has_id id slot (e ∷ es) h = ground (arith, find_id-has_id id slot es)
