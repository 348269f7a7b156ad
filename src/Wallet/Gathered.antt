-- ===== src/Wallet/Gathered.antt =====
-- The signatures that ScanDeposits of wallet-backend/chain/scanner.go gathers.
use text.Mathlib.TextPositions.{eq_refl}
use tchebets_open.Prelude.{
  String, ◌≡◌, refl, ◌∙◌, ◌⊎◌, inl, inr, Bool, true, false, not, ◌&&◌, ◌||◌, List, [], ◌∷◌, ◌++◌,
  arith, str_eq, eq_iff, ltb, contains, Bool-cases,
}
use tchebets_open.Wallet.Scanner.{SignatureInfo, Gathered, add_candidate, gather_one, gather}

abbrev pub Once : List String → Type 0
Once [] = Unit
Once (s ∷ ss) = (contains s ss ≡ false) × Once ss

contains-snoc :
    (s t : String) (ss : List String)
    → contains s ss ≡ false
    → str_eq t s ≡ false
    → contains s (ss ++ t ∷ []) ≡ false
contains-snoc s t [] h k = ground (arith, k)
contains-snoc s t (x ∷ ss) h k = ground (arith, contains-snoc s t ss, k)

Once-snoc : (t : String) (ss : List String) → contains t ss ≡ false → Once ss → Once (ss ++ t ∷ [])
Once-snoc t [] h o = (refl, tt)
Once-snoc t (x ∷ ss) h o = (
  contains-snoc x t ss o.0 (ground (arith, h, eq_iff x t, eq_iff t x)),
  Once-snoc t ss (ground (arith, h)) o.1,
)

add_candidate-Once : (t : String) (ss : List String) → Once ss → Once (add_candidate t ss)
add_candidate-Once t ss o = elim (Bool-cases (contains t ss)) [
  | inl k ↦ rw k o
  | inr k ↦ rw k (Once-snoc t ss k o)
]

pub gather-Once : (ts : List SignatureInfo) (acc : Gathered) → Once acc.0 → Once (gather ts acc).0
unfolding gather gather_one
gather-Once [] acc o = o
gather-Once (t ∷ ts) (seen, cursor, newest) o =
    gather-Once ts (gather_one t (seen, cursor, newest)) (elim (Bool-cases t.failed_on_chain) [
      | inl h ↦ rw h o
      | inr h ↦ rw h (add_candidate-Once t.signature seen o)
    ])

-- The RPC lists a transaction of that signature that did not fail.
abbrev pub listed : String → List SignatureInfo → Bool
listed s [] = false
listed s (t ∷ ts) = (not t.failed_on_chain && str_eq t.signature s) || listed s ts

contains-add_candidate :
    (s t : String) (ss : List String)
    → contains s (add_candidate t ss) ≡ true
    → (contains s ss || str_eq t s) ≡ true
contains-add_candidate s t ss h = elim (Bool-cases (contains t ss)) [
  | inl k ↦ ground (arith, k, h)
  | inr k ↦ snoc s t ss (ground (arith, k, h))
]
  where
    snoc :
        (s t : String) (ss : List String)
        → contains s (ss ++ t ∷ []) ≡ true
        → (contains s ss || str_eq t s) ≡ true
    snoc s t [] h = ground (arith, h)
    snoc s t (x ∷ ss) h = ground (arith, h, snoc s t ss)

-- A candidate, and the cursor, were there before or are listed.
pub gather-listed :
    (ts : List SignatureInfo) (acc : Gathered) (s : String)
    → contains s (gather ts acc).0 ≡ true
    → (contains s acc.0 || listed s ts) ≡ true
unfolding gather gather_one
gather-listed [] acc s h = ground (arith, h)
gather-listed (t ∷ ts) (seen, cursor, newest) s h =
    let before = gather-listed ts (gather_one t (seen, cursor, newest)) s h in
    elim (Bool-cases t.failed_on_chain) [
      | inl k ↦ ground (arith, k, before)
      | inr k ↦ ground (arith, k, before, contains-add_candidate s t.signature seen)
    ]

gather-cursor :
    (ts : List SignatureInfo) (acc : Gathered)
    → ((gather ts acc).1 ≡ acc.1) ⊎ (listed (gather ts acc).1 ts ≡ true)
unfolding gather gather_one
gather-cursor [] acc = inl refl
gather-cursor (t ∷ ts) (seen, cursor, newest) =
    elim (gather-cursor ts (gather_one t (seen, cursor, newest))) [
      | inr h ↦ inr (ground (arith, h))
      | inl h ↦ elim (Bool-cases t.failed_on_chain) [
        | inl k ↦ inl (ground (arith, k, h))
        | inr k ↦ elim (Bool-cases (ltb newest t.slot)) [
          | inr m ↦ inl (ground (arith, k, m, h))
          | inl m ↦ inr (ground (arith, k, m, h, eq_refl t.signature))
        ]
      ]
    ]

pub both-cursor :
    (xs ys : List SignatureInfo) (since : String)
    → ((gather ys (gather xs ([], since, 0))).1 ≡ since)
      ⊎ ((listed (gather ys (gather xs ([], since, 0))).1 xs
            || listed (gather ys (gather xs ([], since, 0))).1 ys)
          ≡ true)
both-cursor xs ys since = elim (gather-cursor ys (gather xs ([], since, 0))) [
  | inr h ↦ inr (ground (arith, h))
  | inl h ↦ elim (gather-cursor xs ([], since, 0)) [
    | inl k ↦ inl (h ∙ k)
    | inr k ↦ inr (ground (arith, h, k))
  ]
]
