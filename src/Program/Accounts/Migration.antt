-- ===== src/Program/Accounts/Migration.antt =====
-- The migrated book behaves as the legacy one: the same price at once, the same accrual later.
use agama_magicblock.Prelude.{ℕ, ◌≡◌, ok, arith, ap, ◌∙◌}
use agama_magicblock.Chain.{Pubkey}
use agama_magicblock.Program.State.{Vault, PoolBook, Shielded}
use agama_magicblock.Program.Pricing.{Loader, RawAccount, read_book, nav_for_pricing}
use agama_magicblock.Program.Book.{tick, accrue, marked_value}
use agama_magicblock.Program.Accounts.{migrate_book}

-- The book without its links: what pricing and accrual read and write.
abbrev pub relinked : (vault authority : Pubkey) → PoolBook → PoolBook
relinked vault authority book = record book { vault = vault; authority = authority }

-- A migration copies the book that the legacy account holds, links aside.
migrate_book_lem :
    (loader : Loader) (vault_key : Pubkey) (vault : Vault) (authority : Pubkey) (info : RawAccount)
    (old new : PoolBook)
    → read_book loader info ≡ ok old
    → migrate_book loader vault_key vault authority info ≡ ok new
    → new ≡ relinked vault_key vault.authority old
unfolding migrate_book
migrate_book_lem loader vault_key vault authority info old new read done = ground arith

-- A tick does not read the links.
tick-relinked :
    (vault authority : Pubkey) (now : ℕ) (old ticked : PoolBook)
    → tick now old ≡ ok ticked
    → tick now (relinked vault authority old) ≡ ok (relinked vault authority ticked)
unfolding tick accrue marked_value
tick-relinked vault authority now old ticked h = ground arith

-- A migration by the authority prices as the legacy book does at once, and where a tick of the legacy
-- book would have given a book, the same tick gives the migrated one that book's state: both hold for
-- every vault state and aggregate, and for every time.
pub migrate_book-tick :
    (loader : Loader) (vault_key : Pubkey) (vault : Vault) (authority : Pubkey) (info : RawAccount)
    (old new : PoolBook)
    → read_book loader info ≡ ok old
    → migrate_book loader vault_key vault authority info ≡ ok new
    → ((v : Vault) (shielded : Shielded)
        → nav_for_pricing v new shielded ≡ nav_for_pricing v old shielded)
      × ((now : ℕ) (ticked : PoolBook)
          → tick now old ≡ ok ticked
          → tick now new ≡ ok (relinked vault_key vault.authority ticked))
unfolding nav_for_pricing
migrate_book-tick loader vault_key vault authority info old new read done =
    let copied = migrate_book_lem loader vault_key vault authority info old new read done in
    (
      λ v shielded. ap (λ (b : PoolBook). nav_for_pricing v b shielded) copied,
      λ now ticked h.
          ap (tick now) copied ∙ tick-relinked vault_key vault.authority now old ticked h,
    )
