-- ===== src/Mm/Monitor/Replay.antt =====
-- Recovery of trades from block logs (`recoveryStart`, `replayPool`, `replayCurve` and the polling
-- loop of internal/ponsmm/monitor.go). `replayPool` and `replayCurve` differ only in the log filter.
use mathlib.Core.Path.{subst}
use pons_mm_desktop.Prelude.{
  ℕ, ◌+◌, ◌≤◌, ◌<◌, ◌≡◌, refl, sym, ap, ◌∙◌, Bool, Option, none, some, List, [], ◌∷◌, ◌++◌, inl,
  inr, Option-cases, Bool-cases, ltb, if◌then◌else◌, arith,
}
use pons_mm_desktop.Mm.Monitor.{Monitor, PoolTrade, consume_trade, consume_all}

-- What one poll meets: the head, `none` for an error, whether the node answers the read of the logs, and
-- the clock at which each of the trades is then consumed.
pub record Poll : Type 0 where
  pub head : Option ℕ
  pub answered : Bool
  pub clock : PoolTrade → ℕ

-- Where recovery begins: at the launch block if it is known, else behind the head.
unfoldable pub recovery_start : Monitor → Option ℕ → Option ℕ
recovery_start m head =
    if ltb 0 m.start_block
    then some m.start_block
    else elim head [ none ↦ none | some h ↦ some (h + 1) ]

abbrev pub timed : (PoolTrade → ℕ) → List PoolTrade → List (ℕ × PoolTrade)
timed clock [] = []
timed clock (t ∷ ts) = (clock t, t) ∷ timed clock ts

-- The block at which the next poll begins, and the monitor. `node first last` is what the node returns
-- for a range of blocks.
unfoldable pub replay : (ℕ → ℕ → List PoolTrade) → List ℕ → ℕ → Poll → Monitor → ℕ × Monitor
replay node ours from poll m = elim poll.head [
  | none ↦ (from, m)
  | some head ↦
      if ltb head from
      then (from, m)
      else if poll.answered
      then (head + 1, consume_all ours (timed poll.clock (node from head)) m)
      else (from, m)
]

-- Any number of polls.
unfoldable pub polls : (ℕ → ℕ → List PoolTrade) → List ℕ → ℕ → List Poll → Monitor → ℕ × Monitor
polls node ours from [] m = (from, m)
polls node ours from (poll ∷ rest) m =
    let (next, m') = replay node ours from poll m in polls node ours next rest m'

abbrev pub trades_of : List (ℕ × PoolTrade) → List PoolTrade
trades_of [] = []
trades_of ((now, t) ∷ rest) = t ∷ trades_of rest

trades_of-timed : (clock : PoolTrade → ℕ) (ts : List PoolTrade) → trades_of (timed clock ts) ≡ ts
trades_of-timed clock [] = refl
trades_of-timed clock (t ∷ ts) = ap (λ us. t ∷ us) (trades_of-timed clock ts)

trades_of-append :
    (xs ys : List (ℕ × PoolTrade)) → trades_of (xs ++ ys) ≡ trades_of xs ++ trades_of ys
trades_of-append [] ys = refl
trades_of-append ((now, t) ∷ xs) ys = ap (λ us. t ∷ us) (trades_of-append xs ys)

consume_all-append :
    (ours : List ℕ) (xs ys : List (ℕ × PoolTrade)) (m : Monitor)
    → consume_all ours (xs ++ ys) m ≡ consume_all ours ys (consume_all ours xs m)
unfolding consume_all
consume_all-append ours [] ys m = refl
consume_all-append ours ((now, t) ∷ xs) ys m =
    consume_all-append ours xs ys (consume_trade ours now t m).0

-- From the monitor `m`, the trades of all blocks from `start` up to the one before `next` were consumed.
pub data Recovered (node : ℕ → ℕ → List PoolTrade) (ours : List ℕ) (start : ℕ) (m : Monitor)
    : ℕ × Monitor → Type 0 where
  nothing_yet : Recovered node ours start m (start, m)
  up_to :
      (last : ℕ) (consumed : List (ℕ × PoolTrade))
      → start ≤ last
      → trades_of consumed ≡ node start last
      → Recovered node ours start m (last + 1, consume_all ours consumed m)

module _ (node : ℕ → ℕ → List PoolTrade)
    (splits : (a b c : ℕ) → a ≤ b → b < c → node a c ≡ node a b ++ node (b + 1) c) (ours : List ℕ)
    (start : ℕ) (m : Monitor) where
  next_read :
      (from head : ℕ) (clock : PoolTrade → ℕ) (m' : Monitor)
      → from ≤ head
      → Recovered node ours start m (from, m')
      → Recovered node ours start m (head + 1, consume_all ours (timed clock (node from head)) m')
  next_read _ head clock _ le nothing_yet =
      up_to head (timed clock (node start head)) le (trades_of-timed clock (node start head))
  next_read _ head clock _ le (up_to last consumed l same) =
      let more = timed clock (node (last + 1) head) in
      let whole : trades_of (consumed ++ more) ≡ node start head =
        trades_of-append consumed more
        ∙ (ap (λ us. us ++ trades_of more) same
            ∙ (ap (λ us. node start last ++ us) (trades_of-timed clock (node (last + 1) head))
                ∙ sym (splits start last head l (omega arith)))) in
      subst (λ k. Recovered node ours start m (head + 1, k))
        (consume_all-append ours consumed more m)
        (up_to head (consumed ++ more) (omega arith) whole)

  replay-Recovered :
      (from : ℕ) (poll : Poll) (m' : Monitor)
      → Recovered node ours start m (from, m')
      → Recovered node ours start m (replay node ours from poll m')
  unfolding replay
  replay-Recovered from poll m' r = elim (Option-cases poll.head) [
    | inl e ↦ rw e r
    | inr (head, e) ↦ elim (Bool-cases (ltb head from)) [
      | inl b ↦ rw (e, b) r
      | inr b ↦ elim (Bool-cases poll.answered) [
        | inl a ↦ rw (e, b, a) (next_read from head poll.clock m' (ground arith) r)
        | inr a ↦ rw (e, b, a) r
      ]
    ]
  ]

  polls-kept :
      (ps : List Poll) (from : ℕ) (m' : Monitor)
      → Recovered node ours start m (from, m')
      → Recovered node ours start m (polls node ours from ps m')
  unfolding polls
  polls-kept [] from m' r = r
  polls-kept (poll ∷ rest) from m' r =
      let next = replay node ours from poll m' in
      polls-kept rest next.0 next.1 (replay-Recovered from poll m' r)

-- Where the node returns the trades of a range as those of any first part and then those of the rest:
-- whatever the polls met (failed reads of the head or of the logs, a head that has not moved or went
-- back), the monitor is unchanged and the first block is read next, or it has consumed the trades of all
-- blocks from the first to some last one, each once and in order, and the block after that is read next.
pub polls-Recovered :
    (node : ℕ → ℕ → List PoolTrade) (ours : List ℕ) (from : ℕ) (ps : List Poll) (m : Monitor)
    → ((a b c : ℕ) → a ≤ b → b < c → node a c ≡ node a b ++ node (b + 1) c)
    → Recovered node ours from m (polls node ours from ps m)
polls-Recovered node ours from ps m splits =
    polls-kept node splits ours from m ps from m nothing_yet
