-- ===== src/Tests/Custody.antt =====
-- A custody with one open ticket: a second is opened, and the first is paid.
use agama_magicblock.Prelude.{◌+◌, ◌≤◌, ◌≡◌, refl, [], ◌∷◌, ok, arith}
use agama_magicblock.Program.State.{ExitBook, free_exit}
use agama_magicblock.Program.Introspect.{previous_instruction}
use agama_magicblock.Program.Exits.{
  SettleExit, find_id, replace_id, pays_amounts, pays_accounts, settle_exit, ticket,
}
use agama_magicblock.Program.Exits.Slots.{owed}
use agama_magicblock.Program.Private.Solvency.{
  Custody, opened as opened_step, settled, Reaches, here, step, IsSolvent, reaches_covered,
}
use agama_magicblock.Program.Private.Refinement.{Promises, ledger_of, Reaches-Promises}
use agama_magicblock.Tests.Fixtures.{a_shielded, a_loader, a_settlement, addresses, a_ticket}
use agama_magicblock.Tests.Exits.{paying, redemption, order, opened, tickets_differ, opens}

abbrev start : Custody
start = record {
  shielded = a_shielded;
  exits = record { vault = 10; slots = a_ticket ∷ free_exit ∷ [] };
  held = 3_650_000_000;
}

abbrev middle : Custody
middle = record start { shielded = opened.shielded; exits = opened.exits }

abbrev settlement : SettleExit
settlement = record a_settlement { shielded = opened.shielded; exits = opened.exits }

abbrev left : ExitBook
left = record { vault = 10; slots = free_exit ∷ ticket order 1_155_555 ∷ [] }

abbrev end : Custody
end = record middle { exits = left; held = 3_400_000_000 }

first_paid : settle_exit addresses settlement (paying ∷ paying ∷ []) 1 9 ≡ ok left
unfolding settle_exit previous_instruction find_id replace_id pays_amounts pays_accounts
first_paid = refl

start-IsSolvent : IsSolvent start
start-IsSolvent = record {
  books = refl;
  promised = omega arith;
  total_64bit = omega arith;
  distinct = tickets_differ;
}

way : Reaches a_loader addresses start end
way = step start middle end (opened_step start redemption opened order 1_500 refl refl opens) (
    step middle end end
      (settled middle settlement (paying ∷ paying ∷ []) 1 9 paying left refl refl first_paid)
      (here end))

reaches_covered_example :
    (owed left.slots ≤ 3_400_000_000)
    × (3_400_000_000 + opened.shielded.total_out ≡ opened.shielded.total_in + owed left.slots)
reaches_covered_example = reaches_covered a_loader addresses start end start-IsSolvent way

Reaches-Promises_example : Promises (ledger_of start) (ledger_of end)
Reaches-Promises_example = Reaches-Promises a_loader addresses start end start-IsSolvent way
