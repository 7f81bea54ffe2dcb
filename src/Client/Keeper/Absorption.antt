-- ===== src/Client/Keeper/Absorption.antt =====
-- The keeper's absorption and the program's: what `absorb_flows` reads and sends, and what `absorb`
-- makes of it.
use agama_magicblock.Prelude.{
  ℕ, suc, ◌+◌, ◌-◌, ◌≤◌, ◌<◌, ◌≡◌, false, ◌==◌, ◌&&◌, List, [], ◌∷◌, some, ok, arith, length, ap,
  sym, ◌∙◌, Result-cases, inl, inr,
}
use agama_magicblock.Program.Machine.{Outcome, u64_size, saturating_add}
use agama_magicblock.Program.State.{Vault, PoolBook, Shielded, pool_count}
use agama_magicblock.Program.Pricing.{nav_for_pricing}
use agama_magicblock.Program.Book.{tick, absorb}
use agama_magicblock.Program.Book.Accrual.{Fits, with_yield, value_sum}
use agama_magicblock.Program.Book.Absorb.{worth, owed, uncovered, absorb_lem, absorb_pricing}
use agama_magicblock.Client.Sdk.{Ix, Method, call, ◌:=◌}
use agama_magicblock.Client.Keys.{vault_pda, book_pda, shielded_pda}
use agama_magicblock.Client.Net.{Env, World, called, rpc, semantics}
use agama_magicblock.Client.PrivateKeeper.{committed_shielded}
use agama_magicblock.Client.Keeper.{absorb_flows}

-- What the round reads, in this order: the vault on Solana, the book on the rollup, and the aggregate
-- as Solana last saw it.
pub record Reads (env : Env) (w : World) (vault : Vault) (book : PoolBook) (shielded : Shielded)
    : Type 0 where
  pub vault_read :
      env.net.vault (env.net.connect env.config.base_rpc) (vault_pda env.sdk) w.asked ≡ ok vault
  pub book_read : env.net.book w.loop.er (book_pda env.sdk) (suc w.asked) ≡ ok book
  pub shielded_read :
      env.net.shielded
        (env.net.connect env.config.base_rpc)
        (shielded_pda env.sdk)
        (suc (suc w.asked))
      ≡ ok (some shielded)

abbrev pub missing_in : Vault → Shielded → PoolBook → ℕ
missing_in vault shielded book = vault.total_in + shielded.total_in - book.marked_in

abbrev pub missing_out : Vault → Shielded → PoolBook → ℕ
missing_out vault shielded book = vault.total_out + shielded.total_out - book.marked_out

abbrev pub absorb_call : Env → (inflow outflow : ℕ) → List Ix
absorb_call env inflow outflow =
    call (Method.absorb inflow outflow)
      ("authority" := env.config.wallet ∷ "book" := book_pda env.sdk ∷ [])
    ∷ []

absorb_flows-called :
    (env : Env) (w : World) (vault : Vault) (book : PoolBook) (shielded : Shielded)
    → Reads env w vault book shielded
    → (missing_in vault shielded book == 0 && missing_out vault shielded book == 0) ≡ false
    → (absorb_flows env w).1.log
      ≡ called w.loop.er
          (absorb_call env (missing_in vault shielded book) (missing_out vault shielded book))
        ∷ w.log
unfolding absorb_flows committed_shielded rpc semantics
absorb_flows-called env w vault book shielded reads some_flow =
    let ixs = absorb_call env (missing_in vault shielded book) (missing_out vault shielded book) in
    rw (reads.vault_read, reads.book_read, reads.shielded_read, some_flow)
      (elim (Result-cases (env.net.rpc w.loop.er env.config.wallet ixs (suc (suc (suc w.asked))))) [
        | inl (sig, e) ↦ rw e
        | inr (x, e) ↦ rw e
      ])

-- Behind the totals nothing is unmarked: the price is the book's own NAV over the supply.
marked_up :
    (vault : Vault) (shielded : Shielded) (after : PoolBook)
    → vault.total_in + shielded.total_in < u64_size
    → vault.total_out + shielded.total_out < u64_size
    → vault.shares + shielded.shares < u64_size
    → after.nav < u64_size
    → after.marked_in ≡ vault.total_in + shielded.total_in
    → after.marked_out ≡ vault.total_out + shielded.total_out
    → nav_for_pricing vault after shielded ≡ ok (after.nav, vault.shares + shielded.shares)
unfolding nav_for_pricing
marked_up vault shielded after ins outs shares nav same_in same_out = ground arith

-- One absorption of the keeper, from what it reads to what the program makes of it. Where the book's
-- marks are not ahead of the totals and something is missing from them, `absorb_flows` sends one
-- `absorb` of exactly the two differences. The book's authority's `absorb` of them succeeds at any later
-- time and brings both marks to the totals. The NAV that shares are priced on is then the book's own,
-- over all shares; it is the one that a tick at that time leaves, except that the part of the outflow
-- that neither the principals nor the inflow cover is counted once more. The pools are four, and no
-- amount leaves 64 bits.
pub absorb_flows-absorb :
    (env : Env) (w : World) (vault : Vault) (book : PoolBook) (shielded : Shielded) (now : ℕ)
    → Reads env w vault book shielded
    → (missing_in vault shielded book == 0 && missing_out vault shielded book == 0) ≡ false
    → book.marked_in ≤ vault.total_in + shielded.total_in
    → book.marked_out ≤ vault.total_out + shielded.total_out
    → book.last_ts < now
    → length book.pools ≡ pool_count
    → Fits (now - book.last_ts) book.pools
    → vault.total_in + shielded.total_in < u64_size
    → vault.total_out + shielded.total_out < u64_size
    → vault.shares + shielded.shares < u64_size
    → value_sum (with_yield (now - book.last_ts) book.pools) + vault.total_in + shielded.total_in
      < u64_size
    → let inflow = missing_in vault shielded book in
      let outflow = missing_out vault shielded book in
      let supply = vault.shares + shielded.shares in
      let nav = worth now book vault shielded in
      ((absorb_flows env w).1.log ≡ called w.loop.er (absorb_call env inflow outflow) ∷ w.log)
      × ((ticked after : PoolBook) × (tick now book ≡ ok ticked)
          × (absorb book.authority now inflow outflow book ≡ ok after)
          × (after.marked_in ≡ vault.total_in + shielded.total_in)
          × (after.marked_out ≡ vault.total_out + shielded.total_out)
          × (nav_for_pricing vault ticked shielded ≡ ok (nav - owed book vault shielded, supply))
          × (nav_for_pricing vault after shielded
              ≡ ok (nav + uncovered inflow outflow book - owed book vault shielded, supply))
          × (nav_for_pricing vault after shielded ≡ ok (after.nav, supply)))
absorb_flows-absorb env w vault book shielded now reads some_flow ins outs later n fits in_fits
      out_fits shares_fit room =
    let inflow = missing_in vault shielded book in
    let outflow = missing_out vault shielded book in
    let all_shares : saturating_add vault.shares shielded.shares ≡ vault.shares + shielded.shares =
      omega arith in
    let (ticked, after, t, did, before_it, after_it) =
      absorb_pricing now inflow outflow book vault shielded later n fits in_fits out_fits
        (omega arith) (omega arith) room in
    let (end, did_too, by) =
      absorb_lem now inflow outflow book later n fits (omega arith) (omega arith) (omega arith) in
    let by_nav = by.nav in
    let by_in = by.marked_in in
    let by_out = by.marked_out in
    let to_in : end.marked_in ≡ vault.total_in + shielded.total_in = omega arith in
    let to_out : end.marked_out ≡ vault.total_out + shielded.total_out = omega arith in
    let same : after ≡ end = ok_injective (sym did ∙ did_too) in
    (
      absorb_flows-called env w vault book shielded reads some_flow,
      (
        ticked,
        end,
        t,
        did_too,
        to_in,
        to_out,
        before_it
            ∙ ap (λ n. ok (worth now book vault shielded - owed book vault shielded, n)) all_shares,
        ap (λ b. nav_for_pricing vault b shielded) (sym same)
            ∙ after_it
            ∙ ap
                (λ n. ok (
                  worth now book vault shielded
                      + uncovered inflow outflow book
                      - owed book vault shielded,
                  n,
                ))
                all_shares,
        marked_up vault shielded end in_fits out_fits shares_fit (omega arith) to_in to_out,
      ),
    )
  where
    ok_injective : {x y : PoolBook} → Path (Outcome PoolBook) (ok x) (ok y) → x ≡ y
    ok_injective e = cc
