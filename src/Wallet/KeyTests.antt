-- ===== src/Wallet/KeyTests.antt =====
-- The theorem on wallet-backend/crypto/derivation.go, with toy functions for the libraries.
use tchebets_open.Prelude.{ℕ, ◌≡◌, refl, true, [], ◌∷◌, ◌++◌, ◌⊎◌, arith, length}
use tchebets_open.Wallet.Derivation.{Bytes, copied, Libraries, MasterWallet, address}
use tchebets_open.Wallet.Distinct.{
  Collision, AddressCollision, length-copied, derive_account-distinct,
}

-- The message and the key, cut to 64 bytes: its first 32 bytes leave the index out.
abbrev hmac : Bytes → Bytes → Bytes
hmac key message = copied 64 (message ++ key)

abbrev libraries : Libraries
libraries = record {
  hmac_sha512 = hmac;
  key_from_seed = λ seed. seed;
  public_key = λ priv. priv;
  base58 = λ bytes. "address";
  is_mnemonic_valid = λ mnemonic. true;
  new_seed = λ mnemonic passphrase. 7 ∷ 8 ∷ [];
}

hmac-sized : (k m : Bytes) → length (hmac k m) ≡ 64
hmac-sized k m = length-copied 64 (m ++ k)

abbrev wallet : MasterWallet
wallet = record { seed = 7 ∷ 8 ∷ [] }

derive_account-distinct_example : (◌≡◌ {A = ℕ} 3 4) ⊎ (AddressCollision libraries ⊎ Collision hmac)
unfolding address
derive_account-distinct_example =
    derive_account-distinct libraries hmac-sized wallet 3 4 (ground arith) (ground arith) refl
