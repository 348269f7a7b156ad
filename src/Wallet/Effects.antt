-- ===== src/Wallet/Effects.antt =====
-- The effects of wallet-backend: each call outside may be lost, and what it wrote stays written.
use tchebets_open.Prelude.{Bool, true, false, Option, none, some, List, [], ◌∷◌, Result, ok, err}
use tchebets_open.Wallet.Models.{Answer, fine, dropped, unanswered, WalletError, unavailable, World}

abbrev pub W : Type 0 → Type 0
W A = World → Result WalletError A × World

abbrev pub pure : {A : Type 0} → A → W A
pure a w = (ok a, w)

abbrev pub fail : {A : Type 0} → WalletError → W A
fail e w = (err e, w)

infixl 5 ◌>>=◌ ◌>>◌
abbrev pub ◌>>=◌ : {A B : Type 0} → W A → (A → W B) → W B
◌>>=◌ m f w = let (r, w') = m w in elim r [ ok a ↦ f a w' | err e ↦ (err e, w') ]

abbrev pub ◌>>◌ : {B : Type 0} → W (Unit {0}) → W B → W B
m >> k = m >>= λ _. k

-- A call whose error the caller looks at.
abbrev pub attempt : {A : Type 0} → W A → W (Result WalletError A)
attempt m w = let (r, w') = m w in (ok r, w')

-- `_ = f(…)`.
abbrev pub ignore : {A : Type 0} → W A → W (Unit {0})
ignore m w = let (_, w') = m w in (ok tt, w')

abbrev pub guard : Bool → WalletError → W (Unit {0})
guard true e = pure tt
guard false e = fail e

abbrev pub or_fail : {A : Type 0} → Option A → WalletError → W A
or_fail none e = fail e
or_fail (some a) e = pure a

abbrev pub next_answer : List Answer → Answer
next_answer [] = fine
next_answer (a ∷ as') = a

abbrev pub later_answers : List Answer → List Answer
later_answers [] = []
later_answers (a ∷ as') = as'

abbrev pub answered : {A : Type 0} → Answer → W A → W A
answered fine m w = m w
answered dropped m w = (err unavailable, w)
answered unanswered m w = let (_, w') = m w in (err unavailable, w')

-- A call over the network takes the next answer.
unfoldable pub call : {A : Type 0} → W A → W A
call m w = answered (next_answer w.answers) m (record w { answers = later_answers w.answers })
