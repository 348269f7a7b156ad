-- ===== src/Wallet/Distinct.antt =====
-- The keys of wallet-backend/crypto/derivation.go are distinct, as far as its library functions are.
use tchebets_open.Prelude.{
  ℕ, zero, suc, ◌+◌, ◌/◌, ◌%◌, ◌<◌, ◌≡◌, ◌≢◌, refl, ap, sym, ◌∙◌, ◌⊎◌, inl, inr, [], ◌∷◌, ◌++◌,
  length, arith, Bool-cases, ◌==◌,
}
use tchebets_open.Wallet.Derivation.{
  Bytes, first_bytes, after_bytes, copied, put_uint32, hardened_offset, harden, child_message,
  Libraries, MasterWallet, master_key, derive_child_hardened, walk_path, derive_path,
  derive_account, address,
}

bytes-cases : (xs ys : Bytes) → (xs ≡ ys) ⊎ (xs ≢ ys)
bytes-cases [] [] = inl refl
bytes-cases [] (y ∷ ys) = inr (λ e. absurd (ground arith))
bytes-cases (x ∷ xs) [] = inr (λ e. absurd (ground arith))
bytes-cases (x ∷ xs) (y ∷ ys) = elim (Bool-cases (x == y)) [
  | inr p ↦ inr (λ e. absurd (ground arith))
  | inl p ↦ elim (bytes-cases xs ys) [
    | inl q ↦ inl (ground arith)
    | inr q ↦ inr (λ e. q (ground arith))
  ]
]

first-after : (n : ℕ) (xs : Bytes) → first_bytes n xs ++ after_bytes n xs ≡ xs
first-after zero xs = refl
first-after (suc n) [] = refl
first-after (suc n) (x ∷ xs) = ap (λ (t : Bytes). x ∷ t) (first-after n xs)

copied-first :
    (n m : ℕ) (xs : Bytes) → length xs ≡ n + m → copied n (first_bytes n xs) ≡ first_bytes n xs
copied-first zero m xs e = refl
copied-first (suc n) m [] e = absurd (omega arith)
copied-first (suc n) m (x ∷ xs) e = ap (λ (t : Bytes). x ∷ t) (copied-first n m xs (omega arith))

pub length-copied : (n : ℕ) (xs : Bytes) → length (copied n xs) ≡ n
length-copied zero xs = refl
length-copied (suc n) [] = omega (arith, length-copied n [])
length-copied (suc n) (x ∷ xs) = omega (arith, length-copied n xs)

append-split : (xs ys s t : Bytes) → length xs ≡ length ys → xs ++ s ≡ ys ++ t → (xs ≡ ys) × (s ≡ t)
append-split [] [] s t n e = (refl, e)
append-split [] (y ∷ ys) s t n e = absurd (omega arith)
append-split (x ∷ xs) [] s t n e = absurd (omega arith)
append-split (x ∷ xs) (y ∷ ys) s t n e =
    let (front, back) = append-split xs ys s t (omega arith) (ground arith) in
    (ground (arith, front), back)

put_uint32-injective :
    (i j : ℕ) → i < 4294967296 → j < 4294967296 → put_uint32 i ≡ put_uint32 j → i ≡ j
put_uint32-injective i j hi hj e =
    let a : i / 16777216 % 256 ≡ j / 16777216 % 256 = ground arith in
    let b : i / 65536 % 256 ≡ j / 65536 % 256 = ground arith in
    let c : i / 256 % 256 ≡ j / 256 % 256 = ground arith in
    let d : i % 256 ≡ j % 256 = ground arith in omega arith

harden-injective :
    (i j : ℕ) → i < hardened_offset → j < hardened_offset → harden i ≡ harden j → i ≡ j
harden-injective i j hi hj e = ground arith

-- Messages of children agree only for the same key, as copied, and the same index.
child_message-split :
    (k l : Bytes) (i j : ℕ)
    → child_message k i ≡ child_message l j
    → (copied 32 k ≡ copied 32 l) × (put_uint32 i ≡ put_uint32 j)
child_message-split k l i j e =
    append-split (copied 32 k) (copied 32 l) (put_uint32 i) (put_uint32 j)
      (length-copied 32 k ∙ sym (length-copied 32 l)) (ground arith)

-- Two different inputs of HMAC-SHA512 whose outputs share their first 32 bytes.
pub record Collision (hmac : Bytes → Bytes → Bytes) : Type 0 where
  pub key : Bytes
  pub key' : Bytes
  pub message : Bytes
  pub message' : Bytes
  pub distinct : (key ≢ key') ⊎ (message ≢ message')
  pub same : first_bytes 32 (hmac key message) ≡ first_bytes 32 (hmac key' message')

-- Two different seeds that ed25519 and base58 take to one address.
abbrev pub AddressCollision : Libraries → Type 0
AddressCollision lib =
    (s : Bytes) × (t : Bytes) × (s ≢ t)
    × (address lib (lib.key_from_seed s) ≡ address lib (lib.key_from_seed t))

module _ (lib : Libraries) (sized : (k m : Bytes) → length (lib.hmac_sha512 k m) ≡ 64) where
  -- The last two levels of the path, below a node.
  abbrev account_sum : (key chain_code : Bytes) → ℕ → Bytes
  account_sum key chain_code i = lib.hmac_sha512 chain_code (child_message key (harden i))

  abbrev last_sum : Bytes → Bytes
  last_sum sum =
      lib.hmac_sha512 (after_bytes 32 sum) (child_message (first_bytes 32 sum) (harden 0))

  -- Outputs that differ have children whose inputs differ.
  last_sum-Collision :
      (x y : Bytes)
      → length x ≡ 64
      → length y ≡ 64
      → x ≢ y
      → first_bytes 32 (last_sum x) ≡ first_bytes 32 (last_sum y)
      → Collision lib.hmac_sha512
  last_sum-Collision x y lx ly other e = record {
    key = after_bytes 32 x;
    key' = after_bytes 32 y;
    message = child_message (first_bytes 32 x) (harden 0);
    message' = child_message (first_bytes 32 y) (harden 0);
    distinct = elim (bytes-cases (after_bytes 32 x) (after_bytes 32 y)) [
      | inr p ↦ inl p
      | inl p ↦ inr (λ q.
          let (front, _) =
            child_message-split (first_bytes 32 x) (first_bytes 32 y) (harden 0) (harden 0) q in
          let same : first_bytes 32 x ≡ first_bytes 32 y =
            sym (copied-first 32 32 x lx) ∙ (front ∙ copied-first 32 32 y ly) in
          other (
            sym (first-after 32 x)
            ∙ (ap (λ (t : Bytes). t ++ after_bytes 32 x) same
                ∙ (ap (λ (t : Bytes). first_bytes 32 y ++ t) p ∙ first-after 32 y))))
    ];
    same = e;
  }

  account_sum-Collision :
      (key chain_code : Bytes) (i j : ℕ)
      → i < hardened_offset
      → j < hardened_offset
      → i ≢ j
      → first_bytes 32 (last_sum (account_sum key chain_code i))
        ≡ first_bytes 32 (last_sum (account_sum key chain_code j))
      → Collision lib.hmac_sha512
  account_sum-Collision key chain_code i j hi hj other e =
      elim (bytes-cases (account_sum key chain_code i) (account_sum key chain_code j)) [
        | inr p ↦
            last_sum-Collision (account_sum key chain_code i) (account_sum key chain_code j)
              (sized chain_code (child_message key (harden i)))
              (sized chain_code (child_message key (harden j))) p e
        | inl p ↦ record {
          key = chain_code;
          key' = chain_code;
          message = child_message key (harden i);
          message' = child_message key (harden j);
          distinct = inr (λ q.
              let (_, back) = child_message-split key key (harden i) (harden j) q in
              other (
                harden-injective i j hi hj
                  (put_uint32-injective (harden i) (harden j) (ground arith) (ground arith) back)));
          same = ap (first_bytes 32) p;
        }
      ]

  -- Where HMAC-SHA512 returns 64 bytes: if the accounts at two indices below 2^31 have the same
  -- address, the indices are the same, or two different seeds of ed25519 have one address, or two
  -- different inputs of HMAC-SHA512 have outputs that share their first 32 bytes.
  pub derive_account-distinct :
      (w : MasterWallet) (i j : ℕ)
      → i < hardened_offset
      → j < hardened_offset
      → address lib (derive_account lib w i) ≡ address lib (derive_account lib w j)
      → (i ≡ j) ⊎ (AddressCollision lib ⊎ Collision lib.hmac_sha512)
  unfolding derive_account derive_path walk_path derive_child_hardened
  derive_account-distinct w i j hi hj e = elim (Bool-cases (i == j)) [
    | inl p ↦ inl (ground arith)
    | inr p ↦
        let path : ℕ → Bytes = λ n. derive_path lib w (44 ∷ 501 ∷ n ∷ 0 ∷ []) in
        elim (bytes-cases (path i) (path j)) [
          | inr q ↦ inr (inl (path i, path j, q, e))
          | inl q ↦
              let node = walk_path lib (44 ∷ 501 ∷ []) (master_key lib w.seed) in
              inr
                (inr (account_sum-Collision node.0 node.1 i j hi hj (λ r. absurd (ground arith)) q))
        ]
  ]
