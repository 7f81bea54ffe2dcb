-- ===== src/Client/Setup/Rerun.antt =====
-- setup.ts on a deployment that is in place.
use agama_magicblock.Prelude.{
  ℕ, suc, ◌+◌, ◌≡◌, refl, ap, ◌∙◌, err, true, false, List, [], ◌∷◌, some, Result, ok, ltb, arith,
}
use agama_magicblock.Chain.{Pubkey}
use agama_magicblock.Client.Sdk.{Failure, Ix}
use agama_magicblock.Client.Keys.{vault_pda, book_pda}
use agama_magicblock.Client.Net.{
  ◌>>=◌, Script, asks, pure, AccountInfo, Delegation, Env, World, slept, sleep, note, when,
  semantics,
}
use agama_magicblock.Client.Common.{is_delegated, delegation_status}
use agama_magicblock.Client.Recycle.{clone_rent_floor}
use agama_magicblock.Client.Setup.{unless_there, top_up_for_cloning, setup}

-- The account is on Solana at every question, with the rent that cloning needs.
pub record Standing (env : Env) (account : Pubkey) : Type 0 where
  pub info : ℕ → AccountInfo
  pub answered :
      (n : ℕ) → env.net.account (env.net.connect env.config.base_rpc) account n ≡ ok (some (info n))
  pub endowed : (n : ℕ) → ltb (info n).lamports clone_rent_floor ≡ false

-- The router says of the account, at every question, that it is delegated.
pub record Delegated (env : Env) (account : Pubkey) : Type 0 where
  pub status : ℕ → Delegation
  pub answered : (n : ℕ) → env.net.delegation account n ≡ ok (some (status n))
  pub there : (n : ℕ) → (status n).is_delegated ≡ true

-- From `w` the script gives `a` and leaves `v`.
record Leads {A : Type 0} (env : Env) (m : Script A) (w v : World) (a : A) : Type 0 where
  leads : m env w ≡ (ok a, v)

module _ {A B : Type 0} {env : Env} {m : Script A} where
  bind-Leads :
      (f : A → Script B) {w v u : World} {a : A} {b : B}
      → Leads env m w v a
      → Leads env (f a) v u b
      → Leads env (m >>= f) w u b
  unfolding ◌>>=◌
  bind-Leads f first next = record {
    leads =
        ap
          (λ r. elim (r.0) as (λ _. Result Failure B × World) [
            | ok a ↦ f a env r.1
            | err e ↦ (err e, r.1)
          ])
          first.leads
        ∙ next.leads;
  }

module _ {A : Type 0} {env : Env} {w : World} where
  asks-Leads : (g : Env → A) → Leads env (asks g) w w (g env)
  unfolding asks
  asks-Leads g = record { leads = refl }

  pure-Leads : (a : A) → Leads env (pure a) w w a
  unfolding pure
  pure-Leads a = record { leads = refl }

skips : (env : Env) (w : World) (m : Script (Unit {0})) → Leads env (when false m) w w tt
unfolding when pure
skips env w m = record { leads = refl }

pauses :
    (env : Env) (w : World) (ms : ℕ)
    → Leads env (sleep ms) w (record w { log = slept ms ∷ w.log }) tt
unfolding sleep note
pauses env w ms = record { leads = refl }

-- The process after one question.
abbrev once : World → World
once w = record w { asked = suc w.asked }

module _ (env : Env) (account : Pubkey) (standing : Standing env account) (w : World) where
  there_already :
      (ix : Env → Ix)
      → Leads env (unless_there (env.net.connect env.config.base_rpc) account ix) w (once w) tt
  unfolding semantics
  there_already ix = record { leads = rw (standing.answered w.asked) refl }

  topped_up :
      (accounts : List Pubkey)
      → top_up_for_cloning (env.net.connect env.config.base_rpc) (account ∷ accounts) env w
        ≡ top_up_for_cloning (env.net.connect env.config.base_rpc) accounts env (once w)
  unfolding top_up_for_cloning semantics
  topped_up accounts = rw (standing.answered w.asked, standing.endowed w.asked) refl

module _ (env : Env) (account : Pubkey) (delegated : Delegated env account) (w : World) where
  delegated_already : Leads env (is_delegated account) w (once w) true
  unfolding is_delegated delegation_status semantics
  delegated_already = record {
    leads = rw (delegated.answered w.asked, delegated.there w.asked) refl;
  }

  status_answered :
      Leads env (delegation_status account) w (once w) (some (delegated.status w.asked))
  unfolding delegation_status semantics
  status_answered = record { leads = rw (delegated.answered w.asked) refl }

both_topped_up :
    (env : Env) (first second : Pubkey)
    → Standing env first
    → Standing env second
    → (w : World)
    → Leads env
        (top_up_for_cloning (env.net.connect env.config.base_rpc) (first ∷ second ∷ []))
        w
        (once (once w))
        tt
unfolding top_up_for_cloning pure
both_topped_up env first second s t w = record {
  leads = topped_up env first s w (second ∷ []) ∙ topped_up env second t (once w) [];
}

-- Setting up again changes nothing. Where the vault and the book are on Solana with their rent and the
-- book is delegated, `setup` comes to its end after six questions and its one pause, and sends nothing.
pub setup_again :
    (env : Env) (w : World)
    → Standing env (vault_pda env.sdk)
    → Standing env (book_pda env.sdk)
    → Delegated env (book_pda env.sdk)
    → setup env w ≡ (ok tt, record w { asked = 6 + w.asked; log = slept 3_000 ∷ w.log })
unfolding setup
setup_again env w vault book delegated =
    let through : Leads env setup w
        (record w { asked = suc (suc (suc (suc (suc (suc w.asked))))); log = slept 3_000 ∷ w.log })
        tt =
      bind-Leads _ (asks-Leads _) (
        bind-Leads _ (asks-Leads _) (
          bind-Leads _ (asks-Leads _) (
            bind-Leads _ (there_already env (vault_pda env.sdk) vault w _) (
              bind-Leads _ (there_already env (book_pda env.sdk) book (once w) _) (
                bind-Leads _ (both_topped_up env _ _ vault book (once (once w))) (
                  bind-Leads _ (delegated_already env _ delegated _) (
                    bind-Leads _ (skips env _ _) (
                      bind-Leads _ (pauses env _ 3_000) (
                        bind-Leads _ (status_answered env _ delegated _) (pure-Leads tt)))))))))) in
    let six : suc (suc (suc (suc (suc (suc w.asked))))) ≡ 6 + w.asked = omega arith in
    through.leads ∙ ap (λ n. (ok tt, record w { asked = n; log = slept 3_000 ∷ w.log })) six
