-- ===== src/Tests/Fixtures.antt =====
-- A vault, a book of four pools, a loader, a toolkit and a network to test with.
use Prim.Native.String.{len}
use agama_magicblock.Prelude.{false, ℕ, ◌+◌, ◌*◌, true, [], ◌∷◌, none, some, ok, replicate}
use agama_magicblock.Chain.{Pubkey, Instruction}
use agama_magicblock.Chain.Bytes.{to_le, from_le}
use agama_magicblock.Program.State.{PoolEntry, PoolBook, Vault, Shielded, Position, Exit, free_exit}
use agama_magicblock.Program.Pricing.{RawAccount, Loader}
use agama_magicblock.Program.Exits.{SettleExit, Addresses}
use agama_magicblock.Client.Sdk.{Sdk}
use agama_magicblock.Client.Net.{Url, Connection, Network, World, Env, confirmed}
use agama_magicblock.Client.Session.Rotation.{ed25519_data}

abbrev pool : ℕ → ℕ → ℕ → PoolEntry
pool apr weight principal = record {
  name = [];
  sector = [];
  apr_bps = apr;
  weight_bps = weight;
  principal = principal;
  accrued = 0;
}

abbrev pub a_book : PoolBook
a_book = record {
  vault = 10;
  authority = 7;
  pools =
      pool 1200 4000 4_000_000_000
      ∷ pool 480 2000 2_000_000_000
      ∷ pool 620 1000 1_000_000_000
      ∷ pool 900 3000 3_000_000_000
      ∷ [];
  nav = 10_000_000_000;
  marked_in = 10_000_000_000;
  marked_out = 0;
  last_ts = 1_000;
  ticks = 5;
}

abbrev pub a_vault : Vault
a_vault = record {
  authority = 7;
  usdc_mint = 20;
  agyld_mint = 21;
  shares = 6_000_000_000;
  total_in = 7_000_000_000;
  total_out = 0;
}

abbrev pub a_shielded : Shielded
a_shielded = record {
  vault = 10;
  custody_owner = 31;
  shares = 3_000_000_000;
  total_in = 3_500_000_000;
  total_out = 100_000_000;
}

abbrev pub an_account : RawAccount
an_account = record { owner = 1; bytes = replicate 9 0 }

abbrev pub a_loader : Loader
a_loader = record {
  program = 1;
  delegation = 2;
  book = record { discriminator = replicate 8 0; deserialize = λ bytes. some a_book };
  shielded = record { discriminator = replicate 8 0; deserialize = λ bytes. some a_shielded };
}

abbrev pub a_position : Position
a_position = record {
  owner = 40;
  vault = 10;
  shares = 0;
  private_shares = 500_000_000;
  entry_price = 1_000_000;
  value_usdc = 0;
  cost_basis = 0;
  yield_usdc = 0;
  synced_ts = 0;
  syncs = 0;
  is_private = true;
  session_key = 41;
  session_expiry = 2_000;
}

abbrev silent : Pubkey → Instruction
silent program = record { program_id = program; keys = []; bytes = [] }

abbrev pub an_sdk : Sdk
an_sdk = record {
  find_program_address = λ seeds program. 20;
  associated_token = λ mint owner. mint + 100 * owner;
  token_program = 50;
  associated_token_program = 51;
  system_program = 52;
  instructions_sysvar = 53;
  espl_program = 54;
  ephemeral_vault = 55;
  magic_program = 56;
  permission_program = 57;
  create_transfer = λ source destination owner amount. record {
    program_id = 50;
    keys =
        record { pubkey = source; is_signer = false; is_writable = true }
        ∷ record { pubkey = destination; is_signer = false; is_writable = true }
        ∷ record { pubkey = owner; is_signer = true; is_writable = false }
        ∷ [];
    bytes = 3 ∷ to_le 8 amount;
  };
  create_associated_token = λ payer ata owner mint. silent 51;
  derive_ephemeral_ata = λ owner mint. 60;
  derive_vault = λ mint. 61;
  derive_vault_ata = λ mint vault. 62;
  derive_transfer_queue = λ mint validator. 63;
  derive_queue_vault_ata = λ mint validator. 64;
  derive_group_receipt = λ queue owner group_id. 65;
  init_ephemeral_ata = λ eata owner mint payer. silent 54;
  transfer_to_vault = λ eata vault mint source vault_ata owner amount. silent 54;
  create_eata_permission = λ eata payer. silent 54;
  delegate_ephemeral_ata = λ payer eata validator. silent 54;
  rent_pda = 67;
  init_rent_pda = λ payer rent_pda. silent 54;
  init_vault = λ vault mint payer. silent 54;
  init_vault_ata = λ payer vault_ata vault mint. silent 54;
  init_transfer_queue = λ payer queue mint validator. silent 54;
  delegate_transfer_queue = λ queue payer mint. silent 54;
  magic_fee_vault = λ validator. 68;
  ensure_transfer_queue_crank = λ payer queue fee_vault. silent 54;
  escrow_pda = λ authority. 69;
  create_top_up_escrow = λ escrow authority payer amount. silent 52;
  private_transfer = λ from to mint amount validator min_delay_ms max_delay_ms split. [];
  ed25519_verify = λ public_key message signature. record {
    program_id = 58;
    keys = [];
    bytes = ed25519_data (to_le 32 public_key) message signature;
  };
  sign = λ signer message. replicate 64 signer;
  error_name = λ code. some "Unauthorized";
  range_error_text = "out of range";
  to_key = from_le;
  sha256 = λ bytes. replicate 32 1;
  keypair_from_seed = λ seed. (66, seed);
  text_bytes = λ s. replicate (len s) 65;
  key_text = λ k. "key";
  number_text = λ n. "9";
  encode_call = λ method accounts. silent 1;
  encode_lamports = λ from to amount. silent 52;
}

abbrev pub addresses : Addresses
addresses = record {
  token_program = 50;
  espl_program = 54;
  ed25519_program = 58;
  associated_token = λ owner mint. mint + 100 * owner;
  to_bytes = to_le 32;
}

-- One open ticket, number 9, and a free slot.
abbrev pub a_ticket : Exit
a_ticket = record {
  owner = 40;
  assets = 250_000_000;
  min_delay_ms = 1_000;
  max_delay_ms = 5_000;
  group_id = 9;
  split = 2;
}

abbrev pub a_settlement : SettleExit
a_settlement = record {
  authority = 7;
  vault = a_vault;
  shielded = a_shielded;
  exits = record { vault = 10; slots = a_ticket ∷ free_exit ∷ [] };
}

abbrev a_url : Url
a_url = record { protocol = "https:"; host = "node"; port = none; token = none }

abbrev pub a_connection : Connection
a_connection = record { http = a_url; ws = a_url }

-- It confirms everything at once.
abbrev pub a_network : Network
a_network = record {
  parse_url = λ s. a_url;
  connect = λ url. a_connection;
  seconds_text = λ ms. "15s";
  delegation_text = λ d. "nothing";
  delegation = λ k n. ok none;
  blockhash = λ conn n. ok 77;
  submit = λ conn tx n. ok "signature";
  status = λ conn sig n. ok (some (record { failure = none; confirmation = confirmed }));
  account = λ conn k n. ok none;
  rpc = λ conn wallet ixs n. ok "signature";
  auth_token = λ url wallet n. ok "token";
  attest = λ url n. ok tt;
  vault = λ conn k n. ok a_vault;
  book = λ conn k n. ok a_book;
  shielded = λ conn k n. ok (some a_shielded);
  exits = λ conn k n. ok (a_ticket ∷ []);
  position = λ conn k n. ok a_position;
  balance = λ conn k n. ok 1_000_000_000;
  anonymous_read = λ url k n. ok none;
  post = λ url method params n. ok (401, method);
  landed = λ url sig n. ok none;
  signatures = λ conn k limit n. ok [];
  confirm = λ conn sig n. ok tt;
  fresh_key = λ n. ok (900 + n);
  random_group_id = λ n. ok (1 + n);
  clock = λ n. ok n;
}

abbrev pub an_env : Env
an_env = record {
  config = record {
    is_local = true;
    base_rpc = "https://base";
    tee_rpc = "https://tee";
    er_override = some "https://er";
    wallet = 7;
    custody = 31;
    sponsor = none;
    tick_ms = 1_000;
    absorb_every = 15;
    commit_every = 600;
    shielded_commit_every = 60;
    exits_every = 5;
    exit_grace_s = 0;
    sponsor_every = 60;
    plain_shield = false;
  };
  sdk = an_sdk;
  net = a_network;
}

abbrev pub a_world : World
a_world = record {
  asked = 0;
  log = [];
  attested = [];
  loop = record {
    n = 0;
    priv_at = 0;
    last_ticks = none;
    stalled = 0;
    commits = 10;
    er = a_connection;
  };
  private = record { commits = 10; seen = []; tee = a_connection; tee_custody = a_connection };
  exit_code = 0;
}
