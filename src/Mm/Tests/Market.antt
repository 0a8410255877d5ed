-- ===== src/Mm/Tests/Market.antt =====
-- Trades, decisions, the opening tax and the price target, at concrete inputs.
use pons_mm_desktop.Prelude.{
  ℕ, zero, suc, ◌+◌, ◌<◌, ap, ◌∙◌, ◌-◌, ◌≤◌, ◌≡◌, ◌⊎◌, refl, Bool, true, false, ◌||◌, some, List,
  [], ◌∷◌, ◌++◌, ◌==◌, if◌then◌else◌, leb, length, take, elem, sum, arith,
}
use pons_mm_desktop.Mm.Monitor.{PoolTrade, new_monitor, consume_all}
use pons_mm_desktop.Mm.Monitor.Dedup.{consume_all_again}
use pons_mm_desktop.Mm.Monitor.Retail.{Inv, new_monitor-Inv, consume_all-Inv}
use pons_mm_desktop.Mm.Monitor.Replay.{Poll, polls, Recovered, polls-Recovered}
use pons_mm_desktop.Mm.SnipeExempt.{select_snipe_exemptions, snipe_exemption_cap, is_snipe_exempt}
use pons_mm_desktop.Mm.SnipeExempt.Selection.{select_snipe_exemptions_lem}
use pons_mm_desktop.Mm.Target.{plan_target_sell_count}
use pons_mm_desktop.Mm.Target.Selling.{reached_by, plan_target_sell_count-reached}

abbrev trade : ℕ → ℕ → Bool → PoolTrade
trade tx index is_buy = record {
  is_buy = is_buy;
  token_amount = 100;
  weth_amount = 7;
  sender = 50;
  recipient = 51;
  log_index = index;
  tx_hash = tx;
}

abbrev batch : List (ℕ × PoolTrade)
batch = (1, trade 9 0 true) ∷ (2, trade 9 1 false) ∷ []

abbrev again : List (ℕ × PoolTrade)
again = (8, trade 9 1 false) ∷ (9, trade 9 0 true) ∷ []

consume_all_again_example :
    let before = consume_all [] [] (consume_all [] batch new_monitor) in
    consume_all [] again before ≡ before
consume_all_again_example =
    consume_all_again [] batch [] again new_monitor (ground arith) (ground arith) (ground arith)

consume_all-Inv_example : Inv (consume_all (77 ∷ []) batch new_monitor)
consume_all-Inv_example = consume_all-Inv (77 ∷ []) batch new_monitor new_monitor-Inv

-- A node that returns one trade for each block of a range.
abbrev copies : ℕ → List PoolTrade
copies zero = []
copies (suc n) = trade 9 0 true ∷ copies n

copies-add : (m n : ℕ) → copies (m + n) ≡ copies m ++ copies n
copies-add zero n = let same : 0 + n ≡ n = omega arith in ap copies same
copies-add (suc m) n =
    let same : suc m + n ≡ suc (m + n) = omega arith in
    ap copies same ∙ ap (λ ts. trade 9 0 true ∷ ts) (copies-add m n)

abbrev node : ℕ → ℕ → List PoolTrade
node first last = copies (last + 1 - first)

node-splits : (a b c : ℕ) → a ≤ b → b < c → node a c ≡ node a b ++ node (b + 1) c
node-splits a b c p q =
    let whole : c + 1 - a ≡ (b + 1 - a) + (c + 1 - (b + 1)) = omega arith in
    ap copies whole ∙ copies-add (b + 1 - a) (c + 1 - (b + 1))

-- A read that fails, one that is answered, an older head, and the rest.
abbrev some_polls : List Poll
some_polls =
    record { head = some 5; answered = false; clock = λ t. 1 }
    ∷ record { head = some 6; answered = true; clock = λ t. 2 }
    ∷ record { head = some 4; answered = true; clock = λ t. 3 }
    ∷ record { head = some 8; answered = true; clock = λ t. 4 }
    ∷ []

polls-Recovered_example : Recovered node [] 3 new_monitor (polls node [] 3 some_polls new_monitor)
polls-Recovered_example = polls-Recovered node [] 3 some_polls new_monitor node-splits

abbrev makers : List ℕ
makers = 21 ∷ 22 ∷ []

select_snipe_exemptions_lem_example :
    let (list, exempt) = select_snipe_exemptions 1 2 makers true in
    let lead : List ℕ = if 2 == 1 then [] else 1 ∷ [] in
    let listed = take (snipe_exemption_cap true - length lead) makers in
    (list ≡ lead ++ listed)
    × (length list ≤ snipe_exemption_cap true)
    × (is_snipe_exempt (some exempt) 22 ≡ (22 == 1 || elem 22 listed))
select_snipe_exemptions_lem_example = select_snipe_exemptions_lem 1 2 22 makers true

-- The price is at the target once the quote reserve is at most 80.
abbrev cheap : ℕ → ℕ → Bool
cheap q t = leb q 80

abbrev balances : List ℕ
balances = 100 ∷ 0 ∷ 200 ∷ 50 ∷ []

reached_run : (plan_target_sell_count cheap 100 1000 balances).2 ≡ true
unfolding plan_target_sell_count
reached_run = refl

plan_target_sell_count-reached_example :
    let (count, total, reached) = plan_target_sell_count cheap 100 1000 balances in
    (total ≡ sum (take count balances))
    × (reached_by cheap 100 1000 total ≡ true)
    × ((count ≤ 1)
        ⊎ (sum (take 1 balances) ≡ 0)
        ⊎ (reached_by cheap 100 1000 (sum (take 1 balances)) ≡ false))
plan_target_sell_count-reached_example =
    plan_target_sell_count-reached cheap 100 1000 balances 1 reached_run
