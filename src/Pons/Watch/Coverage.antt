-- ===== src/Pons/Watch/Coverage.antt =====
-- Which launches the poll emits (`pollLaunches` in internal/pons/watch.go).
use pons_mm_desktop.Prelude.{
  ℕ, ◌+◌, ◌≤◌, ◌<◌, ◌≡◌, ◌⊎◌, inl, inr, refl, sym, ap, ◌∙◌, Option, none, some, List, [], ◌∷◌, ◌++◌,
  ltb, arith, Bool-cases, Option-cases,
}
use pons_mm_desktop.Pons.Events.{Log, Abi, decode_launch, with_choice, choose}
use pons_mm_desktop.Pons.Watch.{Tick, Polling, start_polling, poll_tick, poll_launches}

with_choice-append {ℓ} :
    {B : Type ℓ} (o : Option B) (xs ys : List B) → with_choice o (xs ++ ys) ≡ with_choice o xs ++ ys
with_choice-append none xs ys = refl
with_choice-append (some y) xs ys = refl

choose-append {ℓ κ} :
    {A : Type ℓ} {B : Type κ} (f : A → Option B) (xs ys : List A)
    → choose f (xs ++ ys) ≡ choose f xs ++ choose f ys
choose-append f [] ys = refl
choose-append f (x ∷ xs) ys =
    ap (with_choice (f x)) (choose-append f xs ys)
    ∙ with_choice-append (f x) (choose f xs) (choose f ys)

-- The launches of all blocks from `start` up to the one before the next.
abbrev pub Covers : Abi → (ℕ → ℕ → List Log) → ℕ → Polling → Type 0
Covers abi filter start p =
    ((p.from ≡ start) × (p.emitted ≡ []))
    ⊎ ((last : ℕ) × (start ≤ last)
        × (p.from ≡ last + 1)
        × (p.emitted ≡ choose (decode_launch abi) (filter start last)))

module _ (abi : Abi) (filter : ℕ → ℕ → List Log)
    (splits : (a b c : ℕ) → a ≤ b → b < c → filter a c ≡ filter a b ++ filter (b + 1) c)
    (start : ℕ) where
  next_range :
      (p : Polling) (head : ℕ)
      → Covers abi filter start p
      → p.from ≤ head
      → p.emitted ++ choose (decode_launch abi) (filter p.from head)
        ≡ choose (decode_launch abi) (filter start head)
  next_range p head (inl (f, e)) le = rw (f, e) refl
  next_range p head (inr (last, l, f, e)) le =
      let whole : filter start head ≡ filter start last ++ filter (last + 1) head =
        splits start last head l (omega arith) in
      rw (f, e, whole)
        (sym (choose-append (decode_launch abi) (filter start last) (filter (last + 1) head)))

  at_least : (p : Polling) → Covers abi filter start p → start ≤ p.from
  at_least p (inl (f, e)) = omega arith
  at_least p (inr (last, l, f, e)) = omega arith

  poll_tick-Covers :
      (tick : Tick) (p : Polling)
      → Covers abi filter start p
      → Covers abi filter start (poll_tick abi filter tick p)
  unfolding poll_tick
  poll_tick-Covers tick p c = elim (Option-cases tick.head) [
    | inl e ↦ rw e c
    | inr (head, e) ↦ elim (Bool-cases (ltb head p.from)) [
      | inl b ↦ rw (e, b) c
      | inr b ↦ elim (Bool-cases tick.answered) [
        | inr a ↦ rw (e, b, a) c
        | inl a ↦
            let le : p.from ≤ head = ground arith in
            let low = at_least p c in
            rw (e, b, a) (inr (head, omega arith, refl, next_range p head c le))
      ]
    ]
  ]

  poll_launches-kept :
      (ticks : List Tick) (p : Polling)
      → Covers abi filter start p
      → Covers abi filter start (poll_launches abi filter ticks p)
  unfolding poll_launches
  poll_launches-kept [] p c = c
  poll_launches-kept (tick ∷ ticks) p c =
      poll_launches-kept ticks (poll_tick abi filter tick p) (poll_tick-Covers tick p c)

-- Where the node returns the logs of a range as those of any first part and then those of the rest, the
-- poll has emitted nothing and will read its first block next, or it has emitted the launches of all blocks
-- from its first to some last one, each once and in order, and will read the block after that next: so
-- ticks that fail, or that see an older head, lose and repeat nothing.
pub poll_launches-Covers :
    (abi : Abi) (filter : ℕ → ℕ → List Log) (head : Option ℕ) (ticks : List Tick)
    → ((a b c : ℕ) → a ≤ b → b < c → filter a c ≡ filter a b ++ filter (b + 1) c)
    → let first = start_polling head in
      Covers abi filter first.from (poll_launches abi filter ticks first)
unfolding start_polling
poll_launches-Covers abi filter none ticks splits =
    poll_launches-kept abi filter splits 0 ticks (start_polling none) (inl (refl, refl))
poll_launches-Covers abi filter (some head) ticks splits =
    poll_launches-kept abi filter splits head ticks (start_polling (some head)) (inl (refl, refl))
