-- ===== src/Client/Readers.antt =====
-- state.ts: the same deployment from both sides, and its NAV on each. Its numbers are `BN`s, integers
-- without bounds and with a sign, which the library's ℤ over the native ℕ stands for here.
pub mod Agreement
use agama_magicblock.Prelude.{ℕ, ◌+◌, ◌-◌, suc, leb, if◌then◌else◌, Option, none, some}
use agama_magicblock.Program.State.{Vault, PoolBook, Shielded}
use agama_magicblock.Client.Keys.{vault_pda, book_pda}
use agama_magicblock.Client.Net.{process, Script, pure, ask, asks, ◌>>=◌, ◌>>◌, base_connection}
use agama_magicblock.Client.Common.{er_endpoint_for}
use agama_magicblock.Client.PrivateKeeper.{committed_shielded}

pub data ℤ : Type 0 where
  pos : ℕ → ℤ
  negsuc : ℕ → ℤ

infixl 60 ◌⊖◌ ◌+ℤ◌ ◌-ℤ◌
-- The difference of two naturals.
unfoldable pub ◌⊖◌ : ℕ → ℕ → ℤ
m ⊖ n = if leb n m then pos (m - n) else negsuc (n - m - 1)

-- `x.add(y)`.
unfoldable pub ◌+ℤ◌ : ℤ → ℤ → ℤ
pos m +ℤ pos n = pos (m + n)
pos m +ℤ negsuc n = m ⊖ suc n
negsuc m +ℤ pos n = n ⊖ suc m
negsuc m +ℤ negsuc n = negsuc (suc (m + n))

-- `x.sub(y)`.
unfoldable pub ◌-ℤ◌ : ℤ → ℤ → ℤ
pos m -ℤ pos n = m ⊖ n
pos m -ℤ negsuc n = pos (m + suc n)
negsuc m -ℤ pos n = negsuc (m + n)
negsuc m -ℤ negsuc n = n ⊖ m

-- The committed aggregate, or zeros.
unfoldable pub or_zeros : Option Shielded → ℕ × ℕ × ℕ
or_zeros none = (0, 0, 0)
or_zeros (some sh) = (sh.shares, sh.total_in, sh.total_out)

-- `navOf(book)` under the totals of the public and the private custody.
unfoldable pub nav_of : (total_in total_out : ℕ) → PoolBook → ℤ
nav_of total_in total_out book =
    (pos book.nav +ℤ (pos total_in -ℤ pos book.marked_in)) -ℤ (pos total_out -ℤ pos book.marked_out)

-- What the script prints of the deployment: the settled NAV, the live one, and the share supply.
pub record Report : Type 0 where
  pub settled : ℤ
  pub live : ℤ
  pub supply : ℕ

unfoldable pub report_of : Vault → Option Shielded → (settled live : PoolBook) → Report
report_of vault committed settled live =
    let (shares, private_in, private_out) = or_zeros committed in
    record {
      settled = nav_of (vault.total_in + private_in) (vault.total_out + private_out) settled;
      live = nav_of (vault.total_in + private_in) (vault.total_out + private_out) live;
      supply = vault.shares + shares;
    }

-- `main`.
unfoldable pub state : Script Report
state = do
  env ← asks (λ env. env)
  base ← base_connection
  url ← er_endpoint_for (book_pda env.sdk)
  let er = env.net.connect url
  vault ← ask (λ env. env.net.vault base (vault_pda env.sdk))
  settled ← ask (λ env. env.net.book base (book_pda env.sdk))
  live ← ask (λ env. env.net.book er (book_pda env.sdk))
  committed ← committed_shielded base
  pure (report_of vault committed settled live)

unfoldable pub state_process : Script (Unit {0})
state_process = process state
