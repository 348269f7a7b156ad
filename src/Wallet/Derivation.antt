-- ===== src/Wallet/Derivation.antt =====
-- wallet-backend/crypto/derivation.go: the key of each account from one master seed. The functions
-- HMAC-SHA512, ed25519, base58 and BIP39 are library code: parameters.
use tchebets_open.Prelude.{
  ℕ, zero, suc, ◌+◌, ◌/◌, ◌%◌, String, Bool, List, [], ◌∷◌, ◌++◌, Result, ok, err, ltb,
  if◌then◌else◌,
}

abbrev pub Bytes : Type 0
Bytes = List ℕ

-- `sum[:n]` and `sum[n:]`, of at least n bytes.
abbrev pub first_bytes : ℕ → Bytes → Bytes
first_bytes zero bs = []
first_bytes (suc n) [] = []
first_bytes (suc n) (b ∷ bs) = b ∷ first_bytes n bs

abbrev pub after_bytes : ℕ → Bytes → Bytes
after_bytes zero bs = bs
after_bytes (suc n) [] = []
after_bytes (suc n) (b ∷ bs) = after_bytes n bs

-- `copy` into n bytes of a new slice, which are 0.
abbrev pub copied : ℕ → Bytes → Bytes
copied zero bs = []
copied (suc n) [] = 0 ∷ copied n []
copied (suc n) (b ∷ bs) = b ∷ copied n bs

-- `binary.BigEndian.PutUint32`.
abbrev pub put_uint32 : ℕ → Bytes
put_uint32 n = n / 16777216 % 256 ∷ n / 65536 % 256 ∷ n / 256 % 256 ∷ n % 256 ∷ []

-- 2 ^ 31.
abbrev pub hardened_offset : ℕ
hardened_offset = 2147483648

-- `index|hardenedOffset`, of 32 bits.
abbrev pub harden : ℕ → ℕ
harden index = if ltb index hardened_offset then index + hardened_offset else index

-- "ed25519 seed".
abbrev pub ed25519_seed_key : Bytes
ed25519_seed_key = 101 ∷ 100 ∷ 50 ∷ 53 ∷ 53 ∷ 49 ∷ 57 ∷ 32 ∷ 115 ∷ 101 ∷ 101 ∷ 100 ∷ []

pub record Libraries : Type 0 where
  pub hmac_sha512 : (key message : Bytes) → Bytes
  -- `ed25519.NewKeyFromSeed` and `Public`.
  pub key_from_seed : Bytes → Bytes
  pub public_key : Bytes → Bytes
  pub base58 : Bytes → String
  -- `bip39.IsMnemonicValid` and `bip39.NewSeed`.
  pub is_mnemonic_valid : String → Bool
  pub new_seed : String → String → Bytes

-- The one error of `NewMasterWalletFromMnemonic`.
pub data MnemonicError : Type 0 where
  invalid_mnemonic : MnemonicError

-- `MasterWallet`.
pub record MasterWallet : Type 0 where
  pub seed : Bytes

-- `sum[:32], sum[32:]`.
abbrev pub split_key : Bytes → Bytes × Bytes
split_key sum = (first_bytes 32 sum, after_bytes 32 sum)

-- `data` of `deriveChildHardened`.
abbrev pub child_message : Bytes → ℕ → Bytes
child_message key index = 0 ∷ copied 32 key ++ put_uint32 index

module _ (lib : Libraries) where
  -- `NewMasterWalletFromMnemonic`.
  unfoldable pub new_master_wallet :
      (mnemonic passphrase : String) → Result MnemonicError MasterWallet
  new_master_wallet mnemonic passphrase =
      if lib.is_mnemonic_valid mnemonic
      then ok (record { seed = lib.new_seed mnemonic passphrase })
      else err invalid_mnemonic

  -- `masterKey`: the key and the chain code.
  unfoldable pub master_key : Bytes → Bytes × Bytes
  master_key seed = split_key (lib.hmac_sha512 ed25519_seed_key seed)

  -- `deriveChildHardened`.
  unfoldable pub derive_child_hardened : (key chain_code : Bytes) → ℕ → Bytes × Bytes
  derive_child_hardened key chain_code index =
      split_key (lib.hmac_sha512 chain_code (child_message key index))

  -- The loop of `derivePath`.
  unfoldable pub walk_path : List ℕ → Bytes × Bytes → Bytes × Bytes
  walk_path [] node = node
  walk_path (index ∷ path) (key, chain_code) =
      walk_path path (derive_child_hardened key chain_code (harden index))

  -- `derivePath`.
  unfoldable pub derive_path : MasterWallet → List ℕ → Bytes
  unfolding master_key walk_path
  derive_path w path = (walk_path path (master_key w.seed)).0

  -- `DeriveAccount`: the private key at m/44'/501'/index'/0'.
  unfoldable pub derive_account : MasterWallet → ℕ → Bytes
  derive_account w index = lib.key_from_seed (derive_path w (44 ∷ 501 ∷ index ∷ 0 ∷ []))

  -- `Address`.
  unfoldable pub address : Bytes → String
  address priv = lib.base58 (lib.public_key priv)
