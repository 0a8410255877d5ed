-- ===== src/Pons/Client/Receipts.antt =====
-- What waiting for a receipt tells (`WaitReceiptEvery` in internal/pons/v1_launch.go).
use pons_mm_desktop.Prelude.{
  ◌≡◌, ◌≢◌, ◌⊎◌, inl, inr, refl, Bool, true, false, Option, none, some, List, [], ◌∷◌, arith, any,
}
use pons_mm_desktop.Pons.Snipe.{Look}
use pons_mm_desktop.Pons.Snipe.Entry.{Reads}
use pons_mm_desktop.Pons.Client.{Waited, reverted, round, wait_receipt_every}

-- A finished wait: without an error the receipt is one of a success that some round read; a receipt of a
-- failure comes with the error that says so, and any other error comes without a receipt.
abbrev pub Told : List (Look Bool) → Waited → Type 0
Told looks w =
    ((w.error ≡ none) × (w.status ≡ some true) × Reads true looks)
    ⊎ ((w.error ≡ some reverted) × (w.status ≡ some false) × Reads false looks)
    ⊎ ((w.status ≡ none) × (w.error ≢ none) × (w.error ≢ some reverted))

abbrev pub OnWait : List (Look Bool) → Option Waited → Type 0
OnWait looks none = any (λ l. l.late) looks ≡ false
OnWait looks (some w) = Told looks w

later :
    (look : Look Bool) (looks : List (Look Bool)) (w : Waited)
    → Told looks w
    → Told (look ∷ looks) w
later look looks w (inl (e, s, r)) = inl (e, s, inr r)
later look looks w (inr (inl (e, s, r))) = inr (inl (e, s, inr r))
later look looks w (inr (inr t)) = inr (inr t)

abbrev look_of : Option Bool → Bool → Bool → Look Bool
look_of r late done = record { reading = r; late = late; done = done }

one_round :
    (r : Option Bool) (late done : Bool) (looks : List (Look Bool)) (rest : Option Waited)
    → OnWait looks rest
    → OnWait (look_of r late done ∷ looks) (round r late done rest)
one_round (some true) late done looks rest h = inl (refl, refl, inl refl)
one_round (some false) late done looks rest h = inr (inl (refl, refl, inl refl))
one_round none true done looks rest h = inr (inr (refl, ground arith, ground arith))
one_round none false true looks rest h = inr (inr (refl, ground arith, ground arith))
one_round none false false looks none h = h
one_round none false false looks (some w) h = later (look_of none false false) looks w h

-- A wait whose deadline passes in some round is over, and a wait that is over without an error has the
-- receipt of a success that some round read; it has the receipt of a failure exactly with the error for
-- it, and no receipt with any other error.
pub wait_receipt_every-OnWait : (looks : List (Look Bool)) → OnWait looks (wait_receipt_every looks)
unfolding wait_receipt_every
wait_receipt_every-OnWait [] = refl
wait_receipt_every-OnWait (look ∷ looks) =
    one_round look.reading look.late look.done looks (wait_receipt_every looks)
      (wait_receipt_every-OnWait looks)
