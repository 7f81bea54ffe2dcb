-- ===== src/Client/Journeys/Refusing.antt =====
-- `refuses` of e2e-private.ts: what is expected to fail, and for which reason.
use Prim.Native.String.{◌++◌, slice, len, [], ◌∷◌}
use Prim.Native.Char.{Char, code}
use text.Mathlib.Text.{starts_with}
use agama_magicblock.Prelude.{
  ℕ, ◌+◌, ◌-◌, ◌*◌, leb, ◌&&◌, Bool, true, false, List, String, Option, none, some, ◌==◌, not,
  if◌then◌else◌,
}
use agama_magicblock.Chain.{Pubkey}
use agama_magicblock.Client.Sdk.{Sdk, Failure, message, out_of_range, Ix}
use agama_magicblock.Client.Net.{
  Connection, Script, pure, catch, asks, ◌>>=◌, ◌>>◌, when, report, fail,
}
use agama_magicblock.Client.Common.{contains, send_and_poll}

-- What a run found of an attempt that should fail.
pub data Verdict : Type 0 where
  accepted : Verdict
  refused_as : String → Verdict
  wrong_reason : String → Verdict

-- `String(e?.message)`.
abbrev pub text_of : Sdk → Failure → String
text_of sdk (message m) = m
text_of sdk out_of_range = sdk.range_error_text

abbrev is_digit : Char → Bool
is_digit c = leb 48 (code c) && leb (code c) 57

-- The number that a text's first digits continue, and the number that it begins with, if with any.
abbrev continued : ℕ → String → ℕ
continued n [] = n
continued n (c ∷ s) =
    let rest = continued (n * 10 + (code c - 48)) s in if is_digit c then rest else n

abbrev number_in_front : String → Option ℕ
number_in_front [] = none
number_in_front (c ∷ s) = if is_digit c then some (continued 0 (c ∷ s)) else none

-- `Number(/"Custom":(\d+)/.exec(m)?.[1])`: the first `"Custom":` with digits behind it. A program's
-- codes are 32-bit numbers, so their value is exact.
unfoldable pub custom_code : String → Option ℕ
custom_code [] = none
custom_code (c ∷ s) =
    let later = custom_code s in
    if starts_with (c ∷ s) "\"Custom\":"
    then elim (number_in_front (slice (c ∷ s) 9 (len (c ∷ s)))) [ none ↦ later | some n ↦ some n ]
    else later

-- The program's name for the error in a message, through its number.
unfoldable pub name_of : Sdk → Failure → String
name_of sdk e =
    let m = text_of sdk e in
    let beginning = "error " ++ slice m 0 60 in
    elim (custom_code m) [
      | none ↦ beginning
      | some n ↦ elim (sdk.error_name n) [
        | some name ↦ name
        | none ↦ if n == 0 then beginning else "error " ++ sdk.number_text n
      ]
    ]

unfoldable pub verdict_of : Sdk → List String → Failure → Verdict
unfolding name_of
verdict_of sdk codes e =
    if contains (name_of sdk e) codes
    then refused_as (name_of sdk e)
    else wrong_reason (name_of sdk e)

abbrev pub verdict_text : Verdict → String
verdict_text accepted = "ACCEPTED"
verdict_text (refused_as name) = "refused, " ++ name
verdict_text (wrong_reason name) = "REFUSED FOR THE WRONG REASON: " ++ name

abbrev pub is_refused : Verdict → Bool
is_refused accepted = false
is_refused (refused_as name) = true
is_refused (wrong_reason name) = false

-- `refuses(what, conn, ixs, signers, ...codes)`: the first signer pays.
unfoldable pub refuses :
    String → Connection → List Ix → Pubkey → List Pubkey → List String → Script (Unit {0})
refuses what conn ixs first others codes = do
  verdict ←
      catch (do _ ← send_and_poll conn ixs first others; pure accepted)
        (λ e. asks (λ env. verdict_of env.sdk codes e))
  report (what ++ (" " ++ verdict_text verdict))
  when (not (is_refused verdict)) fail
