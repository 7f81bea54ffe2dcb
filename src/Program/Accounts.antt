-- ===== src/Program/Accounts.antt =====
-- Opening the program's accounts and handing them to a rollup: `init_book`, `faucet`, `init_position`,
-- `migrate_book`, `prepare_for_rollup`, `init_shielded`, `init_shielded_permission`, and the handlers
-- that only hand an account over or commit it. A handler lists the calls it makes of other programs.
pub mod Faucet
pub mod Migration
use agama_magicblock.Prelude.{
  ℕ, ◌+◌, ◌-◌, ◌*◌, Bool, true, false, ◌||◌, not, List, [], ◌∷◌, ◌++◌, map, Option, none, some, ok,
  ◌>>=◌, ◌>>◌, require, ltb, leb, ◌==◌, if◌then◌else◌,
}
use agama_magicblock.Chain.{Pubkey, default_key}
use agama_magicblock.Program.Machine.{Outcome, saturating_add, unauthorized, faucet_cooldown}
use agama_magicblock.Program.State.{
  Vault, PoolEntry, PoolBook, Position, Shielded, ExitBook, one, max_permission_members,
}
use agama_magicblock.Program.Pricing.{Loader, RawAccount, read_book}
use agama_magicblock.Program.Vault.{TokenCall, mint_to, user_usdc, vault_pda}
use agama_magicblock.Program.Access.{Members, PermissionCall, create, owner_flags}

abbrev pub rollup_clone_floor : ℕ
rollup_clone_floor = 30_000_000

abbrev pub faucet_amount : ℕ
faucet_amount = 1_000 * one

abbrev pub faucet_cooldown_s : ℕ
faucet_cooldown_s = 60

pub record PoolInit : Type 0 where
  pub name : List ℕ
  pub sector : List ℕ
  pub apr_bps : ℕ
  pub weight_bps : ℕ

abbrev new_pool : PoolInit → PoolEntry
new_pool p = record {
  name = p.name;
  sector = p.sector;
  apr_bps = p.apr_bps;
  weight_bps = p.weight_bps;
  principal = 0;
  accrued = 0;
}

-- The authority alone opens a book.
unfoldable pub init_book :
    (vault_key : Pubkey)
    → Vault
    → (authority : Pubkey) → (now : ℕ) → List PoolInit
    → Outcome PoolBook
init_book vault_key vault authority now pools = do
  require (authority == vault.authority) unauthorized
  ok (record {
    vault = vault_key;
    authority = authority;
    pools = map new_pool pools;
    nav = 0;
    marked_in = 0;
    marked_out = 0;
    last_ts = now;
    ticks = 0;
  })

pub record FaucetClaim : Type 0 where
  pub owner : Pubkey
  pub last_ts : ℕ

-- `now - claim.last_ts` is signed, and negative before the last claim.
unfoldable pub faucet : FaucetClaim → Pubkey → ℕ → Outcome (FaucetClaim × List TokenCall)
faucet claim user now = do
  require (claim.last_ts == 0 || leb (claim.last_ts + faucet_cooldown_s) now) faucet_cooldown
  ok (record { owner = user; last_ts = now }, mint_to user_usdc vault_pda faucet_amount ∷ [])

-- A transfer of the system program.
pub record LamportsCall : Type 0 where
  pub from : Pubkey
  pub to : Pubkey
  pub amount : ℕ

-- `rent` is the rent of a permission for so many members, by MagicBlock's SDK. The fields that the
-- handler leaves alone are zero in a new account.
unfoldable pub init_position :
    (rent : ℕ → ℕ) (vault_key owner position_key : Pubkey) → Position × List LamportsCall
init_position rent vault_key owner position_key = (
  record {
    owner = owner;
    vault = vault_key;
    shares = 0;
    private_shares = 0;
    entry_price = one;
    value_usdc = 0;
    cost_basis = 0;
    yield_usdc = 0;
    synced_ts = 0;
    syncs = 0;
    is_private = false;
    session_key = default_key;
    session_expiry = 0;
  },
  record { from = owner; to = position_key; amount = rent (max_permission_members + 1) } ∷ [],
)

unfoldable pub migrate_book :
    Loader → (vault_key : Pubkey) → Vault → (authority : Pubkey) → RawAccount → Outcome PoolBook
migrate_book loader vault_key vault authority legacy_book = do
  require (authority == vault.authority) unauthorized
  old ← read_book loader legacy_book
  ok (record {
    vault = vault_key;
    authority = authority;
    pools = old.pools;
    nav = old.nav;
    marked_in = old.marked_in;
    marked_out = old.marked_out;
    last_ts = old.last_ts;
    ticks = old.ticks;
  })

-- What brings one account up to a floor: nothing where it is there already.
unfoldable pub top_up : (floor : ℕ) (payer : Pubkey) → Pubkey × ℕ → List LamportsCall
top_up floor payer (account, have) =
    if leb floor have then [] else record { from = payer; to = account; amount = floor - have } ∷ []

-- The position, and the owner's agYLD account where it has one, each with what it holds.
unfoldable pub prepare_for_rollup :
    (owner : Pubkey) → (position : Pubkey × ℕ) → Option (Pubkey × ℕ) → List LamportsCall
prepare_for_rollup owner position none = top_up rollup_clone_floor owner position
prepare_for_rollup owner position (some agyld) =
    top_up rollup_clone_floor owner position ++ top_up rollup_clone_floor owner agyld

unfoldable pub init_shielded :
    (rent : ℕ → ℕ)
    → (vault_key : Pubkey) → Vault
    → (authority : Pubkey) → (shielded exits : Pubkey × ℕ) → ExitBook
    → (custody_owner : Pubkey) → Outcome (Shielded × ExitBook × List LamportsCall)
init_shielded rent vault_key vault authority shielded exits book custody_owner = do
  require (authority == vault.authority) unauthorized
  let floor = saturating_add rollup_clone_floor (rent 2)
  ok (
    record {
      vault = vault_key;
      custody_owner = custody_owner;
      shares = 0;
      total_in = 0;
      total_out = 0;
    },
    record book { vault = vault_key },
    top_up floor authority shielded ++ top_up floor authority exits,
  )

-- A call that creates a permission, unless there is one.
abbrev create_unless : Bool → Members → List PermissionCall
create_unless created members = if created then [] else create members ∷ []

-- The calls for the aggregate and for the exit book, by whether their permissions are there.
unfoldable pub init_shielded_permission :
    Vault
    → (authority : Pubkey) → (created exits_created : Bool)
    → Outcome (List PermissionCall × List PermissionCall)
init_shielded_permission vault authority created exits_created = do
  require (authority == vault.authority) unauthorized
  let members : Members = record {
    is_private = true;
    members = record { flags = owner_flags; pubkey = authority } ∷ [];
  }
  ok (create_unless created members, create_unless exits_created members)

-- What MagicBlock's programs are asked to do with an account: hand it to a rollup, with or without
-- naming the validator; commit it; or commit it and hand it back.
pub data Handover : Type 0 where
  delegate : (validator : Option Pubkey) → Handover
  commit : Handover
  commit_and_undelegate : Handover

-- `delegate_book`, `delegate_shielded` and `delegate_exits`: the vault's authority pays.
unfoldable pub delegate_account : Vault → (payer : Pubkey) → Option Pubkey → Outcome Handover
delegate_account vault payer validator = do
  require (payer == vault.authority) unauthorized
  ok (delegate validator)

-- `delegate_position`: the address is the signer's own, by its seeds.
unfoldable pub delegate_position : Option Pubkey → Handover
delegate_position validator = delegate validator

-- `commit_book` and `undelegate_book`: whoever pays.
unfoldable pub commit_book : Handover
commit_book = commit

unfoldable pub undelegate_book : Handover
undelegate_book = commit_and_undelegate

-- `commit_shielded` and `undelegate_shielded`: the vault's authority alone.
unfoldable pub commit_shielded : Vault → (payer : Pubkey) → Outcome Handover
commit_shielded vault payer = do require (payer == vault.authority) unauthorized; ok commit

unfoldable pub undelegate_shielded : Vault → (payer : Pubkey) → Outcome Handover
undelegate_shielded vault payer = do
  require (payer == vault.authority) unauthorized
  ok commit_and_undelegate

-- `undelegate_position`: only back to its owner, whoever pays.
unfoldable pub undelegate_position : Position → (owner : Pubkey) → Outcome Handover
undelegate_position position owner = do
  require (owner == position.owner) unauthorized
  ok commit_and_undelegate
