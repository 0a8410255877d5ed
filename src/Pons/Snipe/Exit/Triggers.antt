-- ===== src/Pons/Snipe/Exit/Triggers.antt =====
-- What ends the holding of a position (`autoExit` in internal/pons/monitor.go).
use pons_mm_desktop.Prelude.{
  ℕ, ◌≤◌, ◌<◌, ◌≡◌, ◌≢◌, ◌⊎◌, inl, inr, refl, Bool, true, false, Option, none, some, List, [], ◌∷◌,
  arith, leb, leb→le, if◌then◌else◌, Bool-cases, Option-cases,
}
use pons_mm_desktop.Pons.Curve.{quote_out_for_tokens}
use pons_mm_desktop.Pons.Snipe.{LaunchInfo}
use pons_mm_desktop.Pons.Snipe.Exit.{
  Reason, graduated, target_reached, stop_loss, dev_dump, hold_timeout, shutdown, Watch, View,
  judge, valued, evaluate, Signal, ctx_done, deadline, traded, polled, dumped, on_signal, hold,
}

abbrev pub value_at : Watch → LaunchInfo → ℕ → ℕ → ℕ
value_at w info quote token =
    quote_out_for_tokens quote token w.tokens_out info.fee_bps info.creator_tax_bps

-- Why a valuation ends the holding.
abbrev pub Justified : Watch → LaunchInfo → View → Reason → Type 0
Justified w info view graduated = view.has_graduated ≡ some true
Justified w info view target_reached =
    (quote : ℕ) × (token : ℕ) × (view.reserves ≡ some (quote, token))
    × (w.target ≤ value_at w info quote token)
Justified w info view stop_loss =
    (quote : ℕ) × (token : ℕ) × (stop : ℕ) × (view.reserves ≡ some (quote, token))
    × (w.stop ≡ some stop)
    × (value_at w info quote token ≤ stop)
    × (value_at w info quote token < w.target)
Justified w info view _ = ⊥

-- Why a signal ends the holding.
abbrev pub Triggers : Watch → LaunchInfo → Signal → Reason → Type 0
Triggers w info ctx_done reason = reason ≡ shutdown
Triggers w info deadline reason = reason ≡ hold_timeout
Triggers w info (traded view) reason = Justified w info view reason
Triggers w info (polled balance view) reason =
    ((reason ≡ dev_dump) × (dumped w.dev_trip balance ≡ true))
    ⊎ ((dumped w.dev_trip balance ≡ false) × Justified w info view reason)

-- A valuation that leaves the position held: no graduation is read, and the value, if it is read, is below
-- the target and above the stop.
abbrev pub Quiet : Watch → LaunchInfo → View → Type 0
Quiet w info view =
    (view.has_graduated ≢ some true)
    × ((view.reserves ≡ none)
        ⊎ ((quote : ℕ) × (token : ℕ) × (view.reserves ≡ some (quote, token))
            × (value_at w info quote token < w.target)
            × ((w.stop ≡ none)
                ⊎ ((stop : ℕ) × (w.stop ≡ some stop) × (stop < value_at w info quote token)))))

abbrev pub IsQuiet : Watch → LaunchInfo → Signal → Type 0
IsQuiet w info ctx_done = ⊥
IsQuiet w info deadline = ⊥
IsQuiet w info (traded view) = Quiet w info view
IsQuiet w info (polled balance view) = (dumped w.dev_trip balance ≡ false) × Quiet w info view

abbrev pub AllQuiet : Watch → LaunchInfo → List Signal → Type 0
AllQuiet w info [] = Unit
AllQuiet w info (s ∷ ss) = IsQuiet w info s × AllQuiet w info ss

-- The first signal that triggers, after signals that do not.
abbrev pub FirstTrigger : Watch → LaunchInfo → List Signal → Reason → Type 0
FirstTrigger w info [] reason = ⊥
FirstTrigger w info (s ∷ ss) reason =
    Triggers w info s reason ⊎ (IsQuiet w info s × FirstTrigger w info ss reason)

abbrev pub OnView : Watch → LaunchInfo → View → Option Reason → Type 0
OnView w info view (some reason) = Justified w info view reason
OnView w info view none = Quiet w info view

abbrev pub OnSignal : Watch → LaunchInfo → Signal → Option Reason → Type 0
OnSignal w info s (some reason) = Triggers w info s reason
OnSignal w info s none = IsQuiet w info s

abbrev pub Held : Watch → LaunchInfo → List Signal → Option Reason → Type 0
Held w info ss (some reason) = FirstTrigger w info ss reason
Held w info ss none = AllQuiet w info ss

abbrev view_of : Option Bool → Option (ℕ × ℕ) → View
view_of g r = record { has_graduated = g; reserves = r }

judged :
    (w : Watch) (info : LaunchInfo) (g : Option Bool) (quote token : ℕ)
    → g ≢ some true
    → OnView w info (view_of g (some (quote, token))) (judge w (value_at w info quote token))
unfolding judge
judged w info g quote token n = elim (Bool-cases (leb w.target (value_at w info quote token))) [
  | inl b ↦ rw b (quote, token, refl, leb→le w.target (value_at w info quote token) b)
  | inr b ↦ elim (Option-cases w.stop) [
    | inl e ↦ rw (b, e) (n, inr (quote, token, refl, ground arith, inl refl))
    | inr (stop, e) ↦ elim (Bool-cases (leb (value_at w info quote token) stop)) [
      | inl c ↦
          rw (b, e, c)
            (
              quote,
              token,
              stop,
              refl,
              refl,
              leb→le (value_at w info quote token) stop c,
              ground arith,
            )
      | inr c ↦
          rw (b, e, c) (n, inr (quote, token, refl, ground arith, inr (stop, refl, ground arith)))
    ]
  ]
]

valued-OnView :
    (w : Watch) (info : LaunchInfo) (g : Option Bool) (r : Option (ℕ × ℕ))
    → g ≢ some true
    → OnView w info (view_of g r) (valued w info r)
unfolding valued
valued-OnView w info g none n = (n, inl refl)
valued-OnView w info g (some (quote, token)) n = judged w info g quote token n

evaluate-OnView :
    (w : Watch) (info : LaunchInfo) (g : Option Bool) (r : Option (ℕ × ℕ))
    → OnView w info (view_of g r) (evaluate w info (view_of g r))
unfolding evaluate
evaluate-OnView w info none r = valued-OnView w info none r (ground arith)
evaluate-OnView w info (some true) r = refl
evaluate-OnView w info (some false) r = valued-OnView w info (some false) r (ground arith)

with_dump :
    (w : Watch) (info : LaunchInfo) (balance : Option ℕ) (view : View) (d : Bool)
    (v : Option Reason)
    → dumped w.dev_trip balance ≡ d
    → OnView w info view v
    → OnSignal w info (polled balance view) (if d then some dev_dump else v)
with_dump w info balance view true v e o = inl (refl, e)
with_dump w info balance view false (some reason) e o = inr (e, o)
with_dump w info balance view false none e o = (e, o)

on_trade :
    (w : Watch) (info : LaunchInfo) (view : View) (v : Option Reason)
    → OnView w info view v
    → OnSignal w info (traded view) v
on_trade w info view (some reason) o = o
on_trade w info view none o = o

on_signal-OnSignal :
    (w : Watch) (info : LaunchInfo) (s : Signal) → OnSignal w info s (on_signal w info s)
unfolding on_signal
on_signal-OnSignal w info ctx_done = refl
on_signal-OnSignal w info deadline = refl
on_signal-OnSignal w info (traded view) =
    on_trade w info view (evaluate w info view)
      (evaluate-OnView w info view.has_graduated view.reserves)
on_signal-OnSignal w info (polled balance view) =
    with_dump w info balance view (dumped w.dev_trip balance) (evaluate w info view) refl
      (evaluate-OnView w info view.has_graduated view.reserves)

one_more :
    (w : Watch) (info : LaunchInfo) (s : Signal) (ss : List Signal) (one rest : Option Reason)
    → OnSignal w info s one
    → Held w info ss rest
    → Held w info (s ∷ ss) (elim one [ some reason ↦ some reason | none ↦ rest ])
one_more w info s ss (some reason) rest o h = inl o
one_more w info s ss none (some reason) o h = inr (o, h)
one_more w info s ss none none o h = (o, h)

-- On any signals, the monitor ends for a reason exactly as the first of them that triggers gives it: the end
-- of the context, the deadline, a holding of the creator at or below the trip, a graduation that is
-- read, a value at or above the target, or a value at or below the stop and below the target; each
-- signal before it read no graduation and no value outside the two bounds. If it has not ended, all
-- signals were of this kind.
pub hold-Held : (w : Watch) (info : LaunchInfo) (ss : List Signal) → Held w info ss (hold w info ss)
unfolding hold
hold-Held w info [] = tt
hold-Held w info (s ∷ ss) =
    one_more w info s ss (on_signal w info s) (hold w info ss) (on_signal-OnSignal w info s)
      (hold-Held w info ss)
