-- ===== src/Client/AppCheck/Verdict.antt =====
-- check-app-espl.ts: what its exit code says of the app's instructions.
use mathlib.Core.Path.{subst}
use agama_magicblock.Prelude.{
  ℕ, zero, suc, ◌≡◌, refl, sym, ap, ◌∙◌, ◌↔◌, Bool, true, false, ◌&&◌, List, [], ◌∷◌, ◌++◌, Option,
  none, some, Result, ok, err, ◌==◌, length, arith, &&_inv, eq_of_test, eq-==_self,
}
use agama_magicblock.Chain.{AccountMeta, Instruction}
use agama_magicblock.Client.Sdk.{Sdk, Failure}
use agama_magicblock.Client.Keys.{tee_validator, usdc_mint}
use agama_magicblock.Client.AppCheck.{
  App, Shuttles, Keys, same_flag, same_key, same_keys, same_bytes, pick, same, count, same_each,
  plain_parts, app_deposit, sdk_deposit, opens, sdk_shield, check_app, exit_of,
}

&&_intro : (a b : Bool) → a ≡ true → b ≡ true → a && b ≡ true
&&_intro true true p q = refl
&&_intro true false p q = q
&&_intro false b p q = p

-- A test that everything passes against itself holds of equals.
test_of :
    {A : Type 0} (test : A → A → Bool) {a b : A}
    → ((x : A) → test x x ≡ true)
    → a ≡ b
    → test a b ≡ true
test_of test {a} self p = subst (λ x. test a x ≡ true) p (self a)

same_flag_inv : (a b : Bool) → same_flag a b ≡ true → a ≡ b
same_flag_inv true true p = refl
same_flag_inv false false p = refl
same_flag_inv true false p = sym p
same_flag_inv false true p = p

same_flag_self : (a : Bool) → same_flag a a ≡ true
same_flag_self true = refl
same_flag_self false = refl

same_key_inv : (j k : AccountMeta) → same_key j k ≡ true → j ≡ k
same_key_inv j k p =
    let both = &&_inv _ _ p in
    let flags = &&_inv _ _ (both.1) in
    let key = eq_of_test j.pubkey k.pubkey (both.0) in
    let signer = same_flag_inv j.is_signer k.is_signer (flags.0) in
    let writable = same_flag_inv j.is_writable k.is_writable (flags.1) in
    λ i. record { pubkey = key i; is_signer = signer i; is_writable = writable i }

same_key_self : (k : AccountMeta) → same_key k k ≡ true
same_key_self k =
    &&_intro _ _ (eq-==_self k.pubkey)
      (&&_intro _ _ (same_flag_self k.is_signer) (same_flag_self k.is_writable))

same_keys_inv : (js ks : List AccountMeta) → same_keys js ks ≡ true → js ≡ ks
same_keys_inv [] [] p = refl
same_keys_inv [] (k ∷ ks) p = cc
same_keys_inv (j ∷ js) [] p = cc
same_keys_inv (j ∷ js) (k ∷ ks) p =
    let both = &&_inv (same_key j k) (same_keys js ks) p in
    λ i. same_key_inv j k (both.0) i ∷ same_keys_inv js ks (both.1) i

same_keys_self : (ks : List AccountMeta) → same_keys ks ks ≡ true
same_keys_self [] = refl
same_keys_self (k ∷ ks) = &&_intro _ _ (same_key_self k) (same_keys_self ks)

same_bytes_inv : (as' bs : List ℕ) → same_bytes as' bs ≡ true → as' ≡ bs
same_bytes_inv [] [] p = refl
same_bytes_inv [] (b ∷ bs) p = cc
same_bytes_inv (a ∷ as') [] p = cc
same_bytes_inv (a ∷ as') (b ∷ bs) p =
    let both = &&_inv (a == b) (same_bytes as' bs) p in
    λ i. eq_of_test a b (both.0) i ∷ same_bytes_inv as' bs (both.1) i

same_bytes_self : (bs : List ℕ) → same_bytes bs bs ≡ true
same_bytes_self [] = refl
same_bytes_self (b ∷ bs) = &&_intro _ _ (eq-==_self b) (same_bytes_self bs)

-- Two instructions with one program, the same accounts and flags, and the same plain data.
abbrev pub Alike : Option (List (ℕ × ℕ)) → Instruction → Instruction → Type 0
Alike ranges a b =
    (a.program_id ≡ b.program_id)
    × ((a.keys ≡ b.keys)
        × ((length a.bytes ≡ length b.bytes) × (pick ranges a.bytes ≡ pick ranges b.bytes)))

same-Alike :
    (ranges : Option (List (ℕ × ℕ))) (a b : Instruction) → same ranges a b ≡ true → Alike ranges a b
unfolding same
same-Alike ranges a b p =
    let program = &&_inv _ _ p in
    let keys = &&_inv _ _ (program.1) in
    let rest = &&_inv _ _ (keys.1) in
    (
      eq_of_test _ _ (program.0),
      (same_keys_inv _ _ (keys.0), (eq_of_test _ _ (rest.0), same_bytes_inv _ _ (rest.1))),
    )

Alike-same :
    (ranges : Option (List (ℕ × ℕ))) (a b : Instruction) → Alike ranges a b → same ranges a b ≡ true
unfolding same
Alike-same ranges a b alike = &&_intro _ _ (test_of (λ x y. x == y) eq-==_self (alike.0)) (
    &&_intro _ _ (test_of same_keys same_keys_self (alike.1.0)) (
      &&_intro _ _ (test_of (λ x y. x == y) eq-==_self (alike.1.1.0))
        (test_of same_bytes same_bytes_self (alike.1.1.1))))

Alike-equal : (a b : Instruction) → Alike none a b → a ≡ b
Alike-equal a b alike =
    λ i. record { program_id = alike.0 i; keys = alike.1.0 i; bytes = alike.1.1.1 i }

equal-Alike : {a b : Instruction} → a ≡ b → Alike none a b
equal-Alike p = (
  ap (λ x. x.program_id) p,
  (ap (λ x. x.keys) p, (ap (λ x. length x.bytes) p, ap (λ x. x.bytes) p)),
)

count_inv : (b : Bool) (n : ℕ) → count b n ≡ 0 → (b ≡ true) × (n ≡ 0)
count_inv true n p = (refl, p)
count_inv false n p = ground arith

-- The instructions that the app builds are the first of the SDK's.
abbrev pub Begins : List Instruction → List Instruction → Type 0
Begins app_ixs sdk_ixs = (rest : List Instruction) × (sdk_ixs ≡ app_ixs ++ rest)

same_each-Begins :
    (app_ixs sdk_ixs : List Instruction) (n : ℕ)
    → same_each app_ixs sdk_ixs n ≡ ok 0
    → Begins app_ixs sdk_ixs × (n ≡ 0)
unfolding same_each
same_each-Begins [] sdk_ixs n p = ((sdk_ixs, refl), cc)
same_each-Begins (a ∷ app_ixs) [] n p = cc
same_each-Begins (a ∷ app_ixs) (b ∷ sdk_ixs) n p =
    let later = same_each-Begins app_ixs sdk_ixs (count (same none a b) n) p in
    let counted = count_inv (same none a b) n (later.1) in
    let equal = Alike-equal a b (same-Alike none a b (counted.0)) in
    ((later.0.0, (λ i. sym equal i ∷ later.0.1 i)), counted.1)

Begins-same_each : (app_ixs rest : List Instruction) → same_each app_ixs (app_ixs ++ rest) 0 ≡ ok 0
unfolding same_each
Begins-same_each [] rest = refl
Begins-same_each (a ∷ app_ixs) rest =
    ap (λ found. same_each app_ixs (app_ixs ++ rest) (count found 0))
      (Alike-same none a a (equal-Alike refl))
    ∙ Begins-same_each app_ixs rest

exit_inv : (r : Result Failure ℕ) → exit_of r ≡ 0 → r ≡ ok 0
unfolding exit_of
exit_inv (err e) p = cc
exit_inv (ok zero) p = refl
exit_inv (ok (suc n)) p = cc

-- The last count, of the sealed box.
finish_inv :
    (r : Result Failure ℕ) (b : Bool)
    → elim r [ err e ↦ err e | ok n ↦ ok (count b n) ] ≡ ok 0
    → (r ≡ ok 0) × (b ≡ true)
finish_inv (err e) b p = cc
finish_inv (ok n) b p = let counted = count_inv b n cc in (ap ok (counted.1), counted.0)

-- The app builds the instructions of the SDK, its deposit outside of the encrypted parts, and of the
-- sponsored shield the first ones; and what it seals can be opened.
abbrev pub IsFaithful : App → Sdk → Shuttles → Keys → Type 0
IsFaithful app sdk shuttles keys =
    let w = keys.wallet in
    let eata = sdk.derive_ephemeral_ata w (usdc_mint sdk) in
    (app.init_eata_ix w w ≡ sdk.init_ephemeral_ata eata w (usdc_mint sdk) w)
    × ((app.delegate_eata_ix w w ≡ sdk.delegate_ephemeral_ata w eata tee_validator)
        × (Alike (some plain_parts) (app_deposit app keys) (sdk_deposit sdk shuttles keys)
            × (Begins (app.sponsored_shield_ixs keys.destination keys.sponsor 5_000_000)
                  (sdk_shield sdk keys)
                × (opens app shuttles keys ≡ true))))

passes :
    (b : Bool) {r : Result Failure ℕ}
    → r ≡ ok 0
    → b ≡ true
    → exit_of (elim r [ err e ↦ err e | ok n ↦ ok (count b n) ]) ≡ 0
unfolding exit_of
passes b {r} p q = λ i. exit_of (elim (p i) [ err e ↦ err e | ok n ↦ ok (count (q i) n) ])

same_each_passes :
    (app_ixs sdk_ixs : List Instruction) (b c d : Bool)
    → b ≡ true
    → c ≡ true
    → d ≡ true
    → Begins app_ixs sdk_ixs
    → same_each app_ixs sdk_ixs (count d (count c (count b 0))) ≡ ok 0
same_each_passes app_ixs sdk_ixs b c d p q r begins =
    (λ i. same_each app_ixs (begins.1 i) (count (r i) (count (q i) (count (p i) 0))))
    ∙ Begins-same_each app_ixs (begins.0)

-- The process of check-app-espl.ts ends with exit code 0 if and only if the app's instructions to open
-- and to delegate an account are the SDK's; its encrypted deposit has the SDK's program, accounts,
-- flags and length, and its data outside of the encrypted parts; the instructions that it builds for a
-- sponsored shield are the first ones of the SDK's, in the SDK's order, be they all or fewer; and the
-- box that it seals, where it seals any, opens to what was sealed.
pub check_app-IsFaithful :
    (app : App) (sdk : Sdk) (shuttles : Shuttles) (keys : Keys)
    → (exit_of (check_app app sdk shuttles keys) ≡ 0) ↔ IsFaithful app sdk shuttles keys
unfolding check_app
check_app-IsFaithful app sdk shuttles keys = (
  (λ p.
      let finished = finish_inv _ _ (exit_inv _ p) in
      let shielded = same_each-Begins _ _ _ (finished.0) in
      let deposited = count_inv _ _ (shielded.1) in
      let delegated = count_inv _ _ (deposited.1) in
      let started = count_inv _ _ (delegated.1) in
      (
        Alike-equal _ _ (same-Alike _ _ _ (started.0)),
        (
          Alike-equal _ _ (same-Alike _ _ _ (delegated.0)),
          (same-Alike _ _ _ (deposited.0), (shielded.0, finished.1)),
        ),
      )),
  λ faithful.
      passes (opens app shuttles keys)
        (same_each_passes _ _ _ _ _ (Alike-same _ _ _ (equal-Alike (faithful.0)))
          (Alike-same _ _ _ (equal-Alike (faithful.1.0))) (Alike-same _ _ _ (faithful.1.1.0))
          (faithful.1.1.1.0))
        (faithful.1.1.1.1),
)
