-- ===== src/Mm/Monitor/Dedup.antt =====
-- Trades that are delivered more than once, live and by the recovery from block logs (`consumeTrade`
-- in internal/ponsmm/monitor.go).
use pons_mm_desktop.Prelude.{
  ℕ, ◌≡◌, ◌≢◌, refl, Bool, true, false, List, [], ◌∷◌, ◌==◌, ◌&&◌, ◌||◌, arith,
}
use pons_mm_desktop.Mm.Monitor.{Monitor, PoolTrade, is_seen, on_trade, consume_trade, consume_all}

abbrev pub seen : PoolTrade → Monitor → Bool
seen t m = is_seen t.tx_hash t.log_index m.seen_trades

-- Every trade of the batch carries a transaction hash.
abbrev pub Hashed : List (ℕ × PoolTrade) → Type 0
Hashed [] = Unit
Hashed ((now, t) ∷ rest) = (t.tx_hash ≢ 0) × Hashed rest

abbrev pub AllSeen : List (ℕ × PoolTrade) → Monitor → Type 0
AllSeen [] m = Unit
AllSeen ((now, t) ∷ rest) m = (seen t m ≡ true) × AllSeen rest m

on_trade-seen_trades :
    (ours : List ℕ) (now : ℕ) (t : PoolTrade) (m : Monitor)
    → (on_trade ours now t m).seen_trades ≡ m.seen_trades
unfolding on_trade
on_trade-seen_trades ours now t m = ground arith

-- Nothing that was seen is forgotten.
consume_trade-seen :
    (ours : List ℕ) (now : ℕ) (t u : PoolTrade) (m : Monitor)
    → seen u m ≡ true
    → seen u (consume_trade ours now t m).0 ≡ true
unfolding consume_trade is_seen
consume_trade-seen ours now t u m h =
    let noted = record m { seen_trades = (t.tx_hash, t.log_index) ∷ m.seen_trades } in
    ground (arith, on_trade-seen_trades ours now t m, on_trade-seen_trades ours now t noted)

consume_trade-records :
    (ours : List ℕ) (now : ℕ) (t : PoolTrade) (m : Monitor)
    → t.tx_hash ≢ 0
    → seen t (consume_trade ours now t m).0 ≡ true
unfolding consume_trade is_seen
consume_trade-records ours now t m h =
    let noted = record m { seen_trades = (t.tx_hash, t.log_index) ∷ m.seen_trades } in
    ground (arith, on_trade-seen_trades ours now t noted)

consume_all-seen :
    (ours : List ℕ) (ts : List (ℕ × PoolTrade)) (u : PoolTrade) (m : Monitor)
    → seen u m ≡ true
    → seen u (consume_all ours ts m) ≡ true
unfolding consume_all
consume_all-seen ours [] u m h = h
consume_all-seen ours ((now, t) ∷ ts) u m h =
    consume_all-seen ours ts u (consume_trade ours now t m).0 (consume_trade-seen ours now t u m h)

consume_all-AllSeen :
    (ours : List ℕ) (ts : List (ℕ × PoolTrade)) (m : Monitor)
    → Hashed ts
    → AllSeen ts (consume_all ours ts m)
unfolding consume_all
consume_all-AllSeen ours [] m h = tt
consume_all-AllSeen ours ((now, t) ∷ ts) m h =
    let m' = (consume_trade ours now t m).0 in
    (
      consume_all-seen ours ts t m' (consume_trade-records ours now t m h.0),
      consume_all-AllSeen ours ts m' h.1,
    )

AllSeen-consume_all :
    (ours : List ℕ) (ts us : List (ℕ × PoolTrade)) (m : Monitor)
    → AllSeen ts m
    → AllSeen ts (consume_all ours us m)
AllSeen-consume_all ours [] us m h = tt
AllSeen-consume_all ours ((now, t) ∷ ts) us m h =
    (consume_all-seen ours us t m h.0, AllSeen-consume_all ours ts us m h.1)

consume_trade-seen_id :
    (ours : List ℕ) (now : ℕ) (t : PoolTrade) (m : Monitor)
    → t.tx_hash ≢ 0
    → seen t m ≡ true
    → (consume_trade ours now t m).0 ≡ m
unfolding consume_trade
consume_trade-seen_id ours now t m h s = ground arith

consume_all-seen_id :
    (ours : List ℕ) (ts : List (ℕ × PoolTrade)) (m : Monitor)
    → Hashed ts
    → AllSeen ts m
    → consume_all ours ts m ≡ m
unfolding consume_all
consume_all-seen_id ours [] m h s = refl
consume_all-seen_id ours ((now, t) ∷ ts) m h s =
    rw (consume_trade-seen_id ours now t m h.0 s.0) (consume_all-seen_id ours ts m h.1 s.1)

-- The trade of this hash and log index is in the batch.
abbrev pub occurs : ℕ → ℕ → List (ℕ × PoolTrade) → Bool
occurs tx index [] = false
occurs tx index ((now, t) ∷ rest) =
    (t.tx_hash == tx && t.log_index == index) || occurs tx index rest

abbrev pub AllOccur : List (ℕ × PoolTrade) → List (ℕ × PoolTrade) → Type 0
AllOccur [] ts = Unit
AllOccur ((now, u) ∷ us) ts = (occurs u.tx_hash u.log_index ts ≡ true) × AllOccur us ts

occurs-seen :
    (tx index : ℕ) (ts : List (ℕ × PoolTrade)) (m : Monitor)
    → AllSeen ts m
    → occurs tx index ts ≡ true
    → is_seen tx index m.seen_trades ≡ true
occurs-seen tx index [] m s o = cc
occurs-seen tx index ((now, t) ∷ ts) m s o = ground (arith, occurs-seen tx index ts m s.1)

AllOccur-AllSeen :
    (us ts : List (ℕ × PoolTrade)) (m : Monitor) → AllSeen ts m → AllOccur us ts → AllSeen us m
AllOccur-AllSeen [] ts m s o = tt
AllOccur-AllSeen ((now, u) ∷ us) ts m s o =
    (occurs-seen u.tx_hash u.log_index ts m s o.0, AllOccur-AllSeen us ts m s o.1)

-- For trades that carry a transaction hash: once the trades `ts` were processed, and any others after them, a later batch of trades that all
-- occur among `ts`, in any order, number and at any times, changes nothing.
pub consume_all_again :
    (ours : List ℕ) (ts others again : List (ℕ × PoolTrade)) (m : Monitor)
    → Hashed ts
    → Hashed again
    → AllOccur again ts
    → let before = consume_all ours others (consume_all ours ts m) in
      consume_all ours again before ≡ before
consume_all_again ours ts others again m h g o =
    let done = consume_all-AllSeen ours ts m h in
    let kept = AllSeen-consume_all ours ts others (consume_all ours ts m) done in
    consume_all-seen_id ours again _ g (AllOccur-AllSeen again ts _ kept o)
