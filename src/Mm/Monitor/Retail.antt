-- ===== src/Mm/Monitor/Retail.antt =====
-- Whose trade it was, and what retail holds (`onTrade`, `classify` and the cost basis in
-- internal/ponsmm/monitor.go).
use pons_mm_desktop.Prelude.{
  ℕ, ◌+◌, ◌≤◌, ◌≡◌, ◌<◌, ◌⊎◌, ◌∙◌, Bool, ◌||◌, ◌&&◌, not, ◌==◌, ltb, ◌++◌, List, [], ◌∷◌, elem,
  length-append, length, if◌then◌else◌, arith,
}
use pons_mm_desktop.Prelude.Int.{ℤ, pos, ◌+ℤ◌, ◌-ℤ◌, int_laws}
use pons_mm_desktop.Mm.Monitor.Dedup.{seen}
use pons_mm_desktop.Mm.Monitor.{
  Monitor, PoolTrade, on_trade, consume_trade, consume_all, classify, new_monitor, retail_capacity,
  record_our_buy, record_our_sell, price_wei_per_token, event_of,
}

-- What retail holds was bought since retail was last flat, so the average over these purchases is
-- over at least the tokens held; a flat position has nothing in the average; the channel is within
-- its capacity.
pub record Inv (m : Monitor) : Type 0 where
  pub covered : m.retail_net_tokens ≤ m.retail_buy_tokens
  pub flat : (0 < m.retail_net_tokens) ⊎ (m.retail_buy_tokens ≡ 0)
  pub bounded : length m.retail ≤ retail_capacity

pub new_monitor-Inv : Inv new_monitor
unfolding new_monitor
new_monitor-Inv = ground arith

on_trade-Inv :
    (ours : List ℕ) (now : ℕ) (t : PoolTrade) (m : Monitor) → Inv m → Inv (on_trade ours now t m)
unfolding on_trade
on_trade-Inv ours now t m v =
    let price = price_wei_per_token t.weth_amount t.token_amount in
    ground (arith, length-append m.retail (event_of now price t ∷ []))

pub consume_trade-Inv :
    (ours : List ℕ) (now : ℕ) (t : PoolTrade) (m : Monitor)
    → Inv m
    → Inv (consume_trade ours now t m).0
unfolding consume_trade
consume_trade-Inv ours now t m v =
    let noted = record m { seen_trades = (t.tx_hash, t.log_index) ∷ m.seen_trades } in
    ground (
      arith,
      on_trade-Inv ours now t m v,
      on_trade-Inv ours now t noted
          (record { covered = v.covered; flat = v.flat; bounded = v.bounded }),
    )

-- Any trades keep the following: the purchases in the retail average cover what retail holds, the
-- average is empty when retail is flat, and no more events are queued than the channel takes.
pub consume_all-Inv :
    (ours : List ℕ) (ts : List (ℕ × PoolTrade)) (m : Monitor) → Inv m → Inv (consume_all ours ts m)
unfolding consume_all
consume_all-Inv ours [] m v = v
consume_all-Inv ours ((now, t) ∷ ts) m v =
    consume_all-Inv ours ts (consume_trade ours now t m).0 (consume_trade-Inv ours now t m v)

abbrev pub full : Monitor → Bool
full m = not (ltb (length m.retail) retail_capacity)

-- An event reaches the engine exactly for a trade that is delivered for the first time (or has no
-- hash), is not ours by hash, recipient or sender, and finds room in the channel.
pub retail-consume_trade :
    (ours : List ℕ) (now : ℕ) (t : PoolTrade) (m : Monitor)
    → let again = not (t.tx_hash == 0) && seen t m in
      let mine = elem t.tx_hash m.own_tx || (elem t.recipient ours || elem t.sender ours) in
      let price = price_wei_per_token t.weth_amount t.token_amount in
      (consume_trade ours now t m).0.retail
      ≡ (if again || (mine || full m) then m.retail else m.retail ++ event_of now price t ∷ [])
unfolding consume_trade on_trade classify
retail-consume_trade ours now t m = ground arith

-- One of our own confirmed fills, as the engine reports it.
pub data Fill : Type 0 where
  bought : ℕ → ℕ → Fill
  sold : ℕ → ℕ → Fill

abbrev pub record_fill : Fill → Monitor → Monitor
record_fill (bought weth tokens) m = record_our_buy weth tokens m
record_fill (sold tokens weth) m = record_our_sell tokens weth m

abbrev pub record_fills : List Fill → Monitor → Monitor
record_fills [] m = m
record_fills (f ∷ fs) m = record_fills fs (record_fill f m)

abbrev pub paid : List Fill → ℕ
paid [] = 0
paid (bought weth tokens ∷ fs) = weth + paid fs
paid (sold tokens weth ∷ fs) = paid fs

abbrev pub received : List Fill → ℕ
received [] = 0
received (bought weth tokens ∷ fs) = received fs
received (sold tokens weth ∷ fs) = weth + received fs

regroup_paid : (x : ℤ) (a b c : ℕ) → x +ℤ pos a +ℤ pos b -ℤ pos c ≡ x +ℤ pos (a + b) -ℤ pos c
regroup_paid x a b c = omega int_laws

regroup_received : (x : ℤ) (a b c : ℕ) → x -ℤ pos a +ℤ pos b -ℤ pos c ≡ x +ℤ pos b -ℤ pos (a + c)
regroup_received x a b c = omega int_laws

-- The net investment is what all buys paid less what all sells returned, and may be negative.
pub our_weth_spent-record_fills :
    (fs : List Fill) (m : Monitor)
    → (record_fills fs m).our_weth_spent ≡ m.our_weth_spent +ℤ pos (paid fs) -ℤ pos (received fs)
unfolding record_our_buy record_our_sell
our_weth_spent-record_fills [] m = omega int_laws
our_weth_spent-record_fills (bought weth tokens ∷ fs) m =
    our_weth_spent-record_fills fs (record_our_buy weth tokens m)
    ∙ regroup_paid m.our_weth_spent weth (paid fs) (received fs)
our_weth_spent-record_fills (sold tokens weth ∷ fs) m =
    our_weth_spent-record_fills fs (record_our_sell tokens weth m)
    ∙ regroup_received m.our_weth_spent weth (paid fs) (received fs)
