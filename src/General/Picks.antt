-- ===== src/General/Picks.antt =====
-- What it is for a list to hold the elements of another that have a property, and for a call of
-- general-backend to be lost.
use tchebets_open.Prelude.{◌≡◌, ◌⊎◌, arith, List, [], ◌∷◌}
use tchebets_open.Wallet.Models.{Answer, fine, dropped, unanswered}
use tchebets_open.Wallet.Effects.{next_answer, later_answers}

-- The second list is the elements of the first that have the property, in their order.
pub data Picks {A : Type 0} (P : A → Type 0) : List A → List A → Type 0 where
  picks_none : Picks P [] []
  picks_this : {x : A} {xs ys : List A} → P x → Picks P xs ys → Picks P (x ∷ xs) (x ∷ ys)
  picks_other : {x : A} {xs ys : List A} → ¬ P x → Picks P xs ys → Picks P (x ∷ xs) ys

-- An element of a list.
abbrev pub Has : {A : Type 0} → A → List A → Type 0
Has a [] = ⊥
Has a (x ∷ xs) = (a ≡ x) ⊎ Has a xs

-- Some of the answers to come is lost.
abbrev pub HasLoss : List Answer → Type 0
HasLoss [] = ⊥
HasLoss (fine ∷ as') = HasLoss as'
HasLoss (dropped ∷ as') = Unit
HasLoss (unanswered ∷ as') = Unit

pub later-HasLoss : (as' : List Answer) → HasLoss (later_answers as') → HasLoss as'
later-HasLoss [] h = h
later-HasLoss (fine ∷ as') h = h
later-HasLoss (dropped ∷ as') h = tt
later-HasLoss (unanswered ∷ as') h = tt

pub dropped-HasLoss : (as' : List Answer) → next_answer as' ≡ dropped → HasLoss as'
dropped-HasLoss [] e = absurd (ground arith)
dropped-HasLoss (fine ∷ as') e = absurd (ground arith)
dropped-HasLoss (dropped ∷ as') e = tt
dropped-HasLoss (unanswered ∷ as') e = tt

pub unanswered-HasLoss : (as' : List Answer) → next_answer as' ≡ unanswered → HasLoss as'
unanswered-HasLoss [] e = absurd (ground arith)
unanswered-HasLoss (fine ∷ as') e = absurd (ground arith)
unanswered-HasLoss (dropped ∷ as') e = tt
unanswered-HasLoss (unanswered ∷ as') e = tt
