-- ===== src/Client/Probe.antt =====
-- probe-qfs.ts: what a query filtering service says with and without a token. A request is one question
-- to the network, whose answer is the status and the text.
use Prim.Native.String.{◌++◌, slice, len}
use agama_magicblock.Prelude.{List, [], ◌∷◌, String, Option, none, some}
use agama_magicblock.Client.Private.{or_else}
use agama_magicblock.Client.Net.{Script, pure, ask, asks, ◌>>=◌, ◌>>◌, report, process}
use agama_magicblock.Client.Common.{qfs_token}
use agama_magicblock.Client.Journeys.{for_each}

-- `URL_`, from the variable `QFS_URL` of the process's environment.
abbrev probe_url : Option String → String
probe_url qfs_url = or_else qfs_url "http://127.0.0.1:6699"

-- A request, with the label that its answers are printed under.
pub record Body : Type 0 where
  pub label : String
  pub method : String
  pub params : Option (List String)

-- `call`.
unfoldable pub probe_call : String → Body → Script String
probe_call url body = do
  (status, text) ← ask (λ env. env.net.post url body.method body.params)
  sdk ← asks (λ env. env.sdk)
  pure (sdk.number_text status ++ (" " ++ slice text 0 180))

-- The transaction of the last one is garbage.
abbrev probe_bodies : List Body
probe_bodies =
    record { label = "getVersion"; method = "getVersion"; params = none }
    ∷ record { label = "getSlot"; method = "getSlot"; params = none }
    ∷ record {
      label = "sendTransaction (garbage payload)";
      method = "sendTransaction";
      params = some ("AQAB" ∷ []);
    }
    ∷ []

unfoldable pub probe_both : (url authed : String) → Body → Script (Unit {0})
probe_both url authed body = do
  report ("\n" ++ body.label)
  without ← probe_call url body
  report ("  no token : " ++ without)
  with_token ← probe_call authed body
  report ("  token    : " ++ with_token)

-- `main`, with what `QFS_URL` is set to.
unfoldable pub probe : Option String → Script (Unit {0})
probe qfs_url = do
  env ← asks (λ env. env)
  let url = probe_url qfs_url
  report ("endpoint " ++ url)
  token ← qfs_token url env.config.wallet
  report (
      "token    "
      ++ (slice token 0 24 ++ ("… (" ++ (env.sdk.number_text (len token) ++ " chars)"))))
  for_each probe_bodies (probe_both url (url ++ ("?token=" ++ token)))

unfoldable pub probe_process : Option String → Script (Unit {0})
probe_process qfs_url = process (probe qfs_url)
