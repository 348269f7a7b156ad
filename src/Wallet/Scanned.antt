-- ===== src/Wallet/Scanned.antt =====
-- What ScanDeposits of wallet-backend/chain/scanner.go finds.
use text.Mathlib.TextPositions.{eq_refl}
use tchebets_open.Prelude.{
  ℕ, ◌-◌, ◌<◌, String, ◌≡◌, refl, ◌⊎◌, inl, inr, Bool, true, false, not, ◌&&◌, ◌||◌, Option, none,
  some, List, [], ◌∷◌, ◌++◌, ok, arith, str_eq, eq_iff, ltb, contains, Bool-cases,
}
use tchebets_open.Wallet.Models.{Asset, usdc, sol, usdt, DetectedDeposit}
use tchebets_open.Wallet.Leads.{Result-cases}
use tchebets_open.Wallet.Scanner.{
  SignatureInfo, TxMeta, Rpc, grown, grown_at, usdc_at, sol_at, index_of, get_elem?, deposits_in_tx,
  gather, deposits_of, scan_deposits,
}
use tchebets_open.Wallet.Gathered.{Once, listed, gather-Once, gather-listed, both-cursor}

abbrev same_asset : Asset → Asset → Bool
same_asset sol sol = true
same_asset usdc usdc = true
same_asset usdt usdt = true
same_asset _ _ = false

-- A deposit of that signature and asset stands in the list.
abbrev pub has_deposit : String → Asset → List DetectedDeposit → Bool
has_deposit sig asset [] = false
has_deposit sig asset (d ∷ ds) =
    (str_eq d.signature sig && same_asset d.asset asset) || has_deposit sig asset ds

-- No signature and asset stands twice.
abbrev pub OnceEach : List DetectedDeposit → Type 0
OnceEach [] = Unit
OnceEach (d ∷ ds) = (has_deposit d.signature d.asset ds ≡ false) × OnceEach ds

-- Each deposit is above 0 and of one of the signatures.
abbrev pub AllFrom : List String → List DetectedDeposit → Type 0
AllFrom sigs [] = Unit
AllFrom sigs (d ∷ ds) = (contains d.signature sigs ≡ true) × (0 < d.raw_amount) × AllFrom sigs ds

-- Each deposit is above 0, and of a transaction listed for one of the two addresses.
abbrev pub AllListed : List SignatureInfo → List SignatureInfo → List DetectedDeposit → Type 0
AllListed xs ys [] = Unit
AllListed xs ys (d ∷ ds) =
    ((listed d.signature xs || listed d.signature ys) ≡ true)
    × (0 < d.raw_amount)
    × AllListed xs ys ds

AllFrom-AllListed :
    (xs ys : List SignatureInfo) (since : String) (ds : List DetectedDeposit)
    → AllFrom (gather ys (gather xs ([], since, 0))).0 ds
    → AllListed xs ys ds
AllFrom-AllListed xs ys since [] f = tt
AllFrom-AllListed xs ys since (d ∷ ds) f = (
  ground (
    arith,
    gather-listed ys (gather xs ([], since, 0)) d.signature f.0,
    gather-listed xs ([], since, 0) d.signature,
  ),
  f.1,
  AllFrom-AllListed xs ys since ds f.2,
)

-- The deposits of one transaction: none, one, or one of each asset.
absent-lem :
    (sigs : List String) (sig : String) (a : Asset) (ds : List DetectedDeposit)
    → AllFrom sigs ds
    → contains sig sigs ≡ false
    → has_deposit sig a ds ≡ false
absent-lem sigs sig a [] f h = refl
absent-lem sigs sig a (d ∷ ds) f h = elim (Bool-cases (str_eq d.signature sig)) [
  | inl k ↦ absurd (ground (arith, f.0, h, (eq_iff d.signature sig).0 k))
  | inr k ↦ ground (arith, k, absent-lem sigs sig a ds f.2 h)
]

AllFrom-more :
    (sig : String) (sigs : List String) (ds : List DetectedDeposit)
    → AllFrom sigs ds
    → AllFrom (sig ∷ sigs) ds
AllFrom-more sig sigs [] f = tt
AllFrom-more sig sigs (d ∷ ds) f = (ground (arith, f.0), f.1, AllFrom-more sig sigs ds f.2)

-- What one transaction adds: nothing, or a deposit of that asset above 0.
abbrev IsPart : String → Asset → List DetectedDeposit → Type 0
IsPart sig a part =
    (part ≡ [])
    ⊎ ((n : ℕ) × (0 < n) × (part ≡ record { signature = sig; asset = a; raw_amount = n } ∷ []))

grown-IsPart : (sig : String) (a : Asset) (pre post : ℕ) → IsPart sig a (grown sig a pre post)
grown-IsPart sig a pre post = elim (Bool-cases (ltb pre post)) [
  | inl h ↦ inr (post - pre, ground arith, rw h refl)
  | inr h ↦ inl (rw h refl)
]

usdc-IsPart :
    (sig mint : String) (tx : TxMeta) (o : Option ℕ) → IsPart sig usdc (usdc_at sig mint tx o)
usdc-IsPart sig mint tx none = inl refl
usdc-IsPart sig mint tx (some i) = grown-IsPart sig usdc _ _

grown_at-IsPart : (sig : String) (a b : Option ℕ) → IsPart sig sol (grown_at sig a b)
grown_at-IsPart sig (some a) (some b) = grown-IsPart sig sol a b
grown_at-IsPart sig (some a) none = inl refl
grown_at-IsPart sig none b = inl refl

sol-IsPart : (sig : String) (tx : TxMeta) (o : Option ℕ) → IsPart sig sol (sol_at sig tx o)
sol-IsPart sig tx none = inl refl
sol-IsPart sig tx (some i) =
    grown_at-IsPart sig (get_elem? tx.pre_balances i) (get_elem? tx.post_balances i)

-- Two parts of a new signature before the deposits of other signatures.
add_parts :
    (sig : String) (sigs : List String) (us ss ds : List DetectedDeposit)
    → IsPart sig usdc us
    → IsPart sig sol ss
    → contains sig sigs ≡ false
    → AllFrom sigs ds
    → OnceEach ds
    → AllFrom (sig ∷ sigs) ((us ++ ss) ++ ds) × OnceEach ((us ++ ss) ++ ds)
add_parts sig sigs us ss ds pu ps h f o =
    let more = AllFrom-more sig sigs ds f in
    let no_usdc = absent-lem sigs sig usdc ds f h in
    let no_sol = absent-lem sigs sig sol ds f h in
    let here = eq_refl sig in
    elim pu [
      | inl eu ↦ elim ps [
        | inl es ↦ rw (eu, es) (more, o)
        | inr (n, low, es) ↦ rw (eu, es) ((ground (arith, here), low, more), (no_sol, o))
      ]
      | inr (m, low', eu) ↦ elim ps [
        | inl es ↦ rw (eu, es) ((ground (arith, here), low', more), (no_usdc, o))
        | inr (n, low, es) ↦
            rw (eu, es)
              (
                (ground (arith, here), low', (ground (arith, here), low, more)),
                (ground (arith, no_usdc), (no_sol, o)),
              )
      ]
    ]

module _ (rpc : Rpc) (mint : String) where
  deposits_in_tx-parts :
      (sig base ata : String) (tx : Option TxMeta)
      → (us : List DetectedDeposit) × (ss : List DetectedDeposit) × IsPart sig usdc us
        × IsPart sig sol ss
        × (deposits_in_tx rpc mint sig base ata tx ≡ us ++ ss)
  unfolding deposits_in_tx
  deposits_in_tx-parts sig base ata none = ([], [], inl refl, inl refl, refl)
  deposits_in_tx-parts sig base ata (some tx) = (
    usdc_at sig mint tx (index_of tx.keys ata),
    sol_at sig tx (index_of tx.keys base),
    usdc-IsPart sig mint tx (index_of tx.keys ata),
    sol-IsPart sig tx (index_of tx.keys base),
    refl,
  )

  deposits_of-lem :
      (base ata : String) (sigs : List String) (ds : List DetectedDeposit)
      → Once sigs
      → deposits_of rpc mint base ata sigs ≡ ok ds
      → AllFrom sigs ds × OnceEach ds
  unfolding deposits_of
  deposits_of-lem base ata [] [] o e = (tt, tt)
  deposits_of-lem base ata [] (d ∷ ds) o e = absurd (ground arith)
  deposits_of-lem base ata (sig ∷ sigs) ds o e = elim (Result-cases (rpc.get_transaction sig)) [
    | inr (x, h) ↦ absurd (ground (arith, h, e))
    | inl (tx, h) ↦ elim (Result-cases (deposits_of rpc mint base ata sigs)) [
      | inr (x, k) ↦ absurd (ground (arith, h, k, e))
      | inl (rest, k) ↦
          let (us, ss, pu, ps, parts) = deposits_in_tx-parts sig base ata tx in
          let (f, each) = deposits_of-lem base ata sigs rest o.1 k in
          let same : ds ≡ (us ++ ss) ++ rest = ground (arith, h, k, e, parts) in
          rw same (add_parts sig sigs us ss rest pu ps o.0 f each)
    ]
  ]

  -- A pass that succeeds finds only deposits above 0, of transactions that the RPC lists for one of
  -- the two addresses and that did not fail, none twice for a signature and an asset; and the new
  -- cursor is the old one or the signature of such a transaction.
  pub scan_deposits-once :
      (base ata since cursor : String) (ds : List DetectedDeposit)
      → scan_deposits rpc mint base ata since ≡ ok (ds, cursor)
      → (xs : List SignatureInfo) × (ys : List SignatureInfo) × (rpc.signatures_since base since
          ≡ ok xs)
        × (rpc.signatures_since ata since ≡ ok ys)
        × AllListed xs ys ds
        × OnceEach ds
        × ((cursor ≡ since) ⊎ ((listed cursor xs || listed cursor ys) ≡ true))
  unfolding scan_deposits
  scan_deposits-once base ata since cursor ds e =
      elim (Bool-cases (not (rpc.is_key base) || not (rpc.is_key ata))) [
        | inl h ↦ absurd (ground (arith, h, e))
        | inr h ↦ elim (Result-cases (rpc.signatures_since base since)) [
          | inr (x, k) ↦ absurd (ground (arith, h, k, e))
          | inl (xs, k) ↦ elim (Result-cases (rpc.signatures_since ata since)) [
            | inr (x, l) ↦ absurd (ground (arith, h, k, l, e))
            | inl (ys, l) ↦
                let seen = (gather ys (gather xs ([], since, 0))).0 in
                elim (Result-cases (deposits_of rpc mint base ata seen)) [
                  | inr (x, m) ↦ absurd (ground (arith, h, k, l, m, e))
                  | inl (found, m) ↦
                      let once =
                        gather-Once ys (gather xs ([], since, 0))
                          (gather-Once xs ([], since, 0) tt) in
                      let (f, each) = deposits_of-lem base ata seen found once m in
                      let same : found ≡ ds = ground (arith, h, k, l, m, e) in
                      let last : (gather ys (gather xs ([], since, 0))).1 ≡ cursor =
                        ground (arith, h, k, l, m, e) in
                      (
                        xs,
                        ys,
                        k,
                        l,
                        AllFrom-AllListed xs ys since ds (rw⁻¹ same f),
                        rw⁻¹ same each,
                        rw⁻¹ last (both-cursor xs ys since),
                      )
                ]
          ]
        ]
      ]
