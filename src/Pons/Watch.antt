-- ===== src/Pons/Watch.antt =====
-- internal/pons/watch.go: the watch for launches by polling. What the node answers is an argument.
pub mod Coverage
use pons_mm_desktop.Prelude.{
  ℕ, ◌+◌, Bool, true, false, ◌&&◌, ◌||◌, Option, none, some, List, [], ◌∷◌, ◌++◌, ◌==◌, ltb, leb,
  if◌then◌else◌, length,
}
use pons_mm_desktop.Pons.Events.{Log, Abi, LaunchEvent, decode_launch, choose}

-- `isWebsocket`, on the bytes of the URL: "ws" and at least one byte more.
unfoldable pub is_websocket : List ℕ → Bool
is_websocket (w ∷ s ∷ c ∷ rest) = w == 119 && s == 115
is_websocket _ = false

-- One tick of the poll: the head block, and whether the logs of the range are answered.
pub record Tick : Type 0 where
  pub head : Option ℕ
  pub answered : Bool

-- The next block to read, and the launches emitted so far.
pub record Polling : Type 0 where
  pub from : ℕ
  pub emitted : List LaunchEvent

-- The first block of `pollLaunches`: the head, or 0 when it cannot be read.
unfoldable pub start_polling : Option ℕ → Polling
start_polling none = record { from = 0; emitted = [] }
start_polling (some head) = record { from = head; emitted = [] }

-- The body of `pollLaunches`; `filter` is what the node returns for an inclusive range.
unfoldable pub poll_tick : Abi → (ℕ → ℕ → List Log) → Tick → Polling → Polling
poll_tick abi filter tick p = elim tick.head [
  | none ↦ p
  | some head ↦
      if ltb head p.from
      then p
      else if tick.answered
      then record {
        from = head + 1;
        emitted = p.emitted ++ choose (decode_launch abi) (filter p.from head);
      }
      else p
]

unfoldable pub poll_launches : Abi → (ℕ → ℕ → List Log) → List Tick → Polling → Polling
unfolding poll_tick
poll_launches abi filter [] p = p
poll_launches abi filter (tick ∷ ticks) p =
    poll_launches abi filter ticks (poll_tick abi filter tick p)
