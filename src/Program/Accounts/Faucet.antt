-- ===== src/Program/Accounts/Faucet.antt =====
-- The faucet over time.
use agama_magicblock.Prelude.{ℕ, suc, ◌+◌, ◌*◌, ◌<◌, ◌≤◌, ◌≡◌, List, ok, arith}
use agama_magicblock.Chain.{Pubkey}
use agama_magicblock.Program.Vault.{TokenCall}
use agama_magicblock.Program.Accounts.{FaucetClaim, faucet, faucet_cooldown_s}

-- One wallet's successful claims, each at its own time; failed attempts leave no trace.
pub data Claims (user : Pubkey) : FaucetClaim → ℕ → FaucetClaim → Type 0 where
  start : (claim : FaucetClaim) → Claims user claim 0 claim
  again :
      (first last next : FaucetClaim) (n now : ℕ) (calls : List TokenCall)
      → Claims user first n last
      → faucet last user now ≡ ok (next, calls)
      → Claims user first (suc n) next

-- A claim that is taken moves the stamp by the cooldown at least.
faucet_stamp :
    (claim next : FaucetClaim) (user : Pubkey) (now : ℕ) (calls : List TokenCall)
    → 0 < claim.last_ts
    → faucet claim user now ≡ ok (next, calls)
    → claim.last_ts + faucet_cooldown_s ≤ next.last_ts
unfolding faucet
faucet_stamp claim next user now calls stamped taken = ground arith

-- Once a wallet has a stamp, n further claims take n cooldowns of the cluster's clock at least,
-- whatever the times they are tried at.
pub Claims-faucet_cooldown_s :
    (user : Pubkey) (first last : FaucetClaim) (n : ℕ)
    → 0 < first.last_ts
    → Claims user first n last
    → first.last_ts + n * faucet_cooldown_s ≤ last.last_ts
Claims-faucet_cooldown_s user first _ _ stamped (start _) = omega arith
Claims-faucet_cooldown_s user first _ _ stamped (again _ last next n now calls before taken) =
    let so_far = Claims-faucet_cooldown_s user first last n stamped before in
    let step = faucet_stamp last next user now calls (omega arith) taken in omega arith
