-- ===== src/Mm/SnipeExempt/Selection.antt =====
-- The exemption list of a launch (`selectSnipeExemptions` in internal/ponsmm/snipe_exempt.go).
use mathlib.Core.List.{append-nil, append_assoc}
use pons_mm_desktop.Prelude.{
  ℕ, zero, suc, ◌-◌, ◌≤◌, ◌≡◌, refl, sym, ◌∙◌, Bool, true, false, ◌||◌, some, List, [], ◌∷◌, ◌++◌,
  ◌==◌, if◌then◌else◌, leb, length, take, elem, length-append, arith,
}
use pons_mm_desktop.Mm.SnipeExempt.{
  select_makers, select_snipe_exemptions, snipe_exemption_cap, is_snipe_exempt,
}

-- The loop takes makers from the front, as many as there is room for.
select_makers_room :
    (cap room : ℕ) (list exempt makers : List ℕ)
    → cap - length list ≡ room
    → let (chosen, free) = select_makers cap list exempt makers in
      (chosen ≡ list ++ take room makers)
      × ((a : ℕ) → elem a free ≡ (elem a exempt || elem a (take room makers)))
unfolding select_makers
select_makers_room cap zero list exempt [] h = (sym (append-nil list), λ a. ground arith)
select_makers_room cap (suc k) list exempt [] h = (sym (append-nil list), λ a. ground arith)
select_makers_room cap zero list exempt (m ∷ ms) h =
    let full : leb cap (length list) ≡ true = ground arith in
    rw full (select_makers_room cap zero list exempt ms h)
select_makers_room cap (suc k) list exempt (m ∷ ms) h =
    let open_slot : leb cap (length list) ≡ false = ground arith in
    let (chosen, free) =
      select_makers_room cap k (list ++ m ∷ []) (m ∷ exempt) ms
        (omega (arith, length-append list (m ∷ []))) in
    rw open_slot (chosen ∙ append_assoc list (m ∷ []) (take k ms), λ a. ground (arith, free a))

abbrev prefix : ℕ → ℕ → List ℕ
prefix treasury deployer = if deployer == treasury then [] else treasury ∷ []

length-prefix : (treasury deployer : ℕ) → length (prefix treasury deployer) ≤ 1
length-prefix treasury deployer = ground arith

length-take-le : (n : ℕ) (xs : List ℕ) → length (take n xs) ≤ n
length-take-le zero xs = omega arith
length-take-le (suc n) [] = omega arith
length-take-le (suc n) (x ∷ xs) = omega (arith, length-take-le n xs)

-- The list holds the treasury, if it is not the deployer, and then the first makers, as many as fit;
-- it never exceeds the cap of the factory; and an address is tax-free exactly if it is the treasury
-- or one of the makers listed.
pub select_snipe_exemptions_lem :
    (treasury deployer addr : ℕ) (makers : List ℕ) (initial_buy : Bool)
    → let (list, exempt) = select_snipe_exemptions treasury deployer makers initial_buy in
      let lead = if deployer == treasury then [] else treasury ∷ [] in
      let listed = take (snipe_exemption_cap initial_buy - length lead) makers in
      (list ≡ lead ++ listed)
      × (length list ≤ snipe_exemption_cap initial_buy)
      × (is_snipe_exempt (some exempt) addr ≡ (addr == treasury || elem addr listed))
unfolding select_snipe_exemptions is_snipe_exempt
select_snipe_exemptions_lem treasury deployer addr makers initial_buy =
    let cap = snipe_exemption_cap initial_buy in
    let lead = prefix treasury deployer in
    let room = cap - length lead in
    let (chosen, free) = select_makers_room cap room lead (treasury ∷ []) makers refl in
    let positive : 1 ≤ cap = ground arith in
    (
      chosen,
      rw chosen (
          omega (
            arith,
            length-append lead (take room makers),
            length-take-le room makers,
            length-prefix treasury deployer,
          )),
      ground (arith, free addr),
    )
