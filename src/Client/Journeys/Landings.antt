-- ===== src/Client/Journeys/Landings.antt =====
-- What the end-to-end scripts read back of a transaction that has landed: the accounts it names and
-- the programs it ran.
use Prim.Native.String.{◌++◌ as concat}
use text.Mathlib.Text.{◌==◌ as str_eq}
use agama_magicblock.Prelude.{
  ℕ, zero, suc, List, [], ◌∷◌, map, ◌++◌, String, none, some, if◌then◌else◌,
}
use agama_magicblock.Chain.{Pubkey}
use agama_magicblock.Client.Sdk.{Sdk}
use agama_magicblock.Client.Keys.{program_id}
use agama_magicblock.Client.Net.{
  Url, Connection, Landed, Script, pure, ask, asks, ◌>>=◌, ◌>>◌, sleep,
}
use agama_magicblock.Client.Journeys.{key_of, distinct}

-- The polling of `getTransaction`, ten rounds of it: an unknown transaction ran nothing.
unfoldable pub await_landed : (Landed → List ℕ) → Url → String → ℕ → Script (List Pubkey)
await_landed indices url sig zero = pure []
await_landed indices url sig (suc rounds) = do
  landed ← ask (λ env. env.net.landed url sig)
  elim landed [
    | some tx ↦ pure (distinct [] (map (key_of tx.account_keys) (indices tx)))
    | none ↦ do sleep 1500; await_landed indices url sig rounds
  ]

-- The programs that a transaction invoked at the top level.
unfoldable pub programs_in : Connection → String → Script (List Pubkey)
programs_in conn sig = await_landed (λ tx. tx.programs) conn.http sig 10

-- The programs that a transaction invoked, those its instructions invoked included.
unfoldable pub programs_of : String → Script (List Pubkey)
programs_of sig = do
  url ← asks (λ env. env.net.parse_url env.config.base_rpc)
  await_landed (λ tx. tx.programs ++ tx.inner_programs) url sig 10

-- The accounts that a transaction names: none where it is not known.
unfoldable pub keys_in : String → Script (List Pubkey)
keys_in sig = do
  url ← asks (λ env. env.net.parse_url env.config.base_rpc)
  landed ← ask (λ env. env.net.landed url sig)
  pure (elim landed [ none ↦ [] | some tx ↦ tx.account_keys ])

-- `NAMES[id] ?? id`.
abbrev name_in : List (String × String) → String → String
name_in [] id = id
name_in (entry ∷ entries) id =
    let rest = name_in entries id in if str_eq entry.0 id then entry.1 else rest

abbrev program_names : Sdk → List (String × String)
program_names sdk =
    (sdk.key_text program_id, "AGAMA")
    ∷ (sdk.key_text sdk.espl_program, "MagicBlock Ephemeral SPL Token")
    ∷ (sdk.key_text sdk.token_program, "SPL Token")
    ∷ (sdk.key_text sdk.associated_token_program, "Associated Token")
    ∷ (sdk.key_text sdk.system_program, "System")
    ∷ ("DELeGGvXpWV2fqJUhqcF5ZSYMS4JTLjteaAMARRSaeSh", "MagicBlock Delegation (commit)")
    ∷ ("noopb9bkMVfRPU8AsbpTUg8AQkHtKwMYZiFUjNRtMmV", "Noop")
    ∷ []

-- `named(ids)`: their names, with a comma between two.
unfoldable pub named : Sdk → List Pubkey → String
named sdk [] = ""
named sdk (id ∷ []) = name_in (program_names sdk) (sdk.key_text id)
named sdk (id ∷ ids) =
    concat (name_in (program_names sdk) (sdk.key_text id)) (concat ", " (named sdk ids))
