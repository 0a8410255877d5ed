-- ===== src/Control/Funding/Sources/Stored.antt =====
-- The wallets of a withdrawal are in the vault (`resolveWithdrawSources` in internal/control/funding.go,
-- with `importKeys` in internal/vault/vault.go).
use mathlib.Core.Path.{subst}
use pons_mm_desktop.Prelude.{
  ℕ, suc, ◌≤◌, ◌<◌, ◌≡◌, ◌⊎◌, inl, inr, refl, sym, ◌∙◌, ap, Bool, true, false, Option, some, List,
  [], ◌∷◌, ◌++◌, ◌==◌, length, elem, elem-append, arith, Bool-cases, Option-cases,
}
use pons_mm_desktop.Prelude.Result.{Result, ok, err}
use pons_mm_desktop.Vault.{
  Store, Entry, VaultError, trading, addresses, import_private_keys, import_keys,
}
use pons_mm_desktop.Vault.Stored.{AllStored, import_keys-AllStored, import_keys-kept}
use pons_mm_desktop.Control.Funding.{max_funding_targets}
use pons_mm_desktop.Control.Funding.Sources.{
  SourceError, Sources, with_source, source_of, resolve_fields, imported, import_sources,
  resolve_withdraw_sources,
}

-- No address of the list is in `seen` or comes twice.
abbrev pub NoRepeats : List ℕ → List ℕ → Type 0
NoRepeats seen [] = Unit
NoRepeats seen (a ∷ rest) = (elem a seen ≡ false) × NoRepeats (a ∷ seen) rest

abbrev pub AllIn : List ℕ → List ℕ → Type 0
AllIn stored [] = Unit
AllIn stored (a ∷ rest) = (elem a stored ≡ true) × AllIn stored rest

Result-cases :
    {A : Type 0} (r : Result SourceError A)
    → ((a : A) × (r ≡ ok a)) ⊎ ((e : SourceError) × (r ≡ err e))
Result-cases (ok a) = inl (a, refl)
Result-cases (err e) = inr (e, refl)

module _ (hex_address : ℕ → Option ℕ) (source_key : ℕ → Option (ℕ × ℕ)) where
  -- In the vault, or the address of one of these keys.
  abbrev Backed : List ℕ → List ℕ → ℕ → Type 0
  Backed in_vault keys a =
      (elem a in_vault ≡ true)
      ⊎ ((f : ℕ) × (key : ℕ) × (source_key f ≡ some (a, key)) × (elem key keys ≡ true))

  abbrev AllBacked : List ℕ → List ℕ → List ℕ → Type 0
  AllBacked in_vault keys [] = Unit
  AllBacked in_vault keys (a ∷ rest) = Backed in_vault keys a × AllBacked in_vault keys rest

  abbrev OnSource : List ℕ → Result SourceError (ℕ × List ℕ) → Type 0
  OnSource in_vault (ok (a, keys)) = Backed in_vault keys a
  OnSource in_vault (err e) = Unit

  source_of-OnSource :
      (in_vault : List ℕ) (f : ℕ) → OnSource in_vault (source_of hex_address source_key in_vault f)
  unfolding source_of
  source_of-OnSource in_vault f = elim (Option-cases (hex_address f)) [
    | inr (a, e) ↦ elim (Bool-cases (elem a in_vault)) [
      | inl b ↦ rw (e, source_of, b) (inl b)
      | inr b ↦ rw (e, source_of, b) tt
    ]
    | inl e ↦ elim (Option-cases (source_key f)) [
      | inl g ↦ rw (e, source_of, g) tt
      | inr ((a, key), g) ↦ elim (Bool-cases (elem a in_vault)) [
        | inl b ↦ rw (e, source_of, g, b) (inl b)
        | inr b ↦ rw (e, source_of, g, b) (inr (f, key, g, ground arith))
      ]
    ]
  ]

  abbrev OnFields : List ℕ → List ℕ → List ℕ → Result SourceError Sources → Type 0
  OnFields in_vault seen fs (ok r) =
      (length r.found ≡ length fs) × NoRepeats seen r.found × AllBacked in_vault r.new_keys r.found
  OnFields in_vault seen fs (err e) = Unit

  Backed-more :
      (in_vault keys more : List ℕ) (a : ℕ)
      → Backed in_vault more a
      → Backed in_vault (keys ++ more) a
  Backed-more in_vault keys more a (inl h) = inl h
  Backed-more in_vault keys more a (inr (f, key, g, h)) =
      inr (f, key, g, ground (arith, elem-append key keys more, h))

  Backed-first :
      (in_vault keys more : List ℕ) (a : ℕ)
      → Backed in_vault keys a
      → Backed in_vault (keys ++ more) a
  Backed-first in_vault keys more a (inl h) = inl h
  Backed-first in_vault keys more a (inr (f, key, g, h)) =
      inr (f, key, g, ground (arith, elem-append key keys more, h))

  AllBacked-more :
      (in_vault keys more found : List ℕ)
      → AllBacked in_vault more found
      → AllBacked in_vault (keys ++ more) found
  AllBacked-more in_vault keys more [] h = tt
  AllBacked-more in_vault keys more (a ∷ rest) (h, t) =
      (Backed-more in_vault keys more a h, AllBacked-more in_vault keys more rest t)

  one_field :
      (in_vault seen fs keys : List ℕ) (f a : ℕ) (rest : Result SourceError Sources)
      → Backed in_vault keys a
      → elem a seen ≡ false
      → OnFields in_vault (a ∷ seen) fs rest
      → OnFields in_vault seen (f ∷ fs) (with_source a keys rest)
  one_field in_vault seen fs keys f a (err e) b n h = tt
  one_field in_vault seen fs keys f a (ok r) b n (l, d, s) = (
    ap suc l,
    (n, d),
    (Backed-first in_vault keys r.new_keys a b, AllBacked-more in_vault keys r.new_keys r.found s),
  )

  resolve_fields-OnFields :
      (in_vault seen fs : List ℕ)
      → OnFields in_vault seen fs (resolve_fields hex_address source_key in_vault seen fs)
  unfolding resolve_fields
  resolve_fields-OnFields in_vault seen [] = (refl, tt, tt)
  resolve_fields-OnFields in_vault seen (f ∷ fs) =
      elim (Result-cases (source_of hex_address source_key in_vault f)) [
        | inr (e, h) ↦ rw (h, resolve_fields) tt
        | inl ((a, keys), h) ↦
            let backed : Backed in_vault keys a =
              subst (OnSource in_vault) h (source_of-OnSource in_vault f) in
            let rest = resolve_fields hex_address source_key in_vault (a ∷ seen) fs in
            elim (Bool-cases (elem a seen)) [
              | inl b ↦ rw (h, resolve_fields, b) tt
              | inr b ↦
                  let same : resolve_fields hex_address source_key in_vault seen (f ∷ fs)
                      ≡ with_source a keys rest =
                    rw (h, resolve_fields, b) refl in
                  subst (OnFields in_vault seen (f ∷ fs)) (sym same) (
                    one_field in_vault seen fs keys f a rest backed b
                      (resolve_fields-OnFields in_vault (a ∷ seen) fs))
            ]
      ]

-- What the resolved wallets are, in the vault afterwards.
abbrev pub Resolved : List ℕ → Store × Result SourceError (List ℕ × List ℕ) → Type 0
Resolved fields (s', err e) = Unit
Resolved fields (s', ok (found, ids)) =
    (ids ≡ found)
    × (length found ≡ length fields)
    × NoRepeats [] found
    × AllIn (addresses s'.wallets) found

none_new :
    (parse : ℕ → Option (ℕ × ℕ)) (stored keys : List ℕ)
    → (length keys == 0) ≡ true
    → AllStored parse stored keys
none_new parse stored [] h = tt
none_new parse stored (key ∷ keys) h = absurd (ground arith)

stored_key :
    (parse : ℕ → Option (ℕ × ℕ)) (stored raws : List ℕ) (key a k : ℕ)
    → AllStored parse stored raws
    → elem key raws ≡ true
    → parse key ≡ some (a, k)
    → elem a stored ≡ true
stored_key parse stored [] key a k h m p = absurd (ground arith)
stored_key parse stored (raw ∷ raws) key a k ((a', k', e, s), t) m p =
    elim (Bool-cases (key == raw)) [
      | inl b ↦
          let same : key ≡ raw = ground arith in
          let both : some (a', k') ≡ some (a, k) = sym e ∙ ap parse (sym same) ∙ p in
          let there : a' ≡ a = ground (arith, both) in rw (← there) s
      | inr b ↦ stored_key parse stored raws key a k t (ground arith) p
    ]

module _ (hex_address : ℕ → Option ℕ) (source_key : ℕ → Option (ℕ × ℕ)) (derive : ℕ → ℕ → ℕ)
    (seal : ℕ → ℕ → List Entry → List ℕ) (opens : ℕ → List ℕ → Option (List Entry))
    (parse : ℕ → Option (ℕ × ℕ))
    (reads : (f a key : ℕ)
      → source_key f ≡ some (a, key)
      → (k : ℕ) × (parse key ≡ some (a, k))) where
  AllIn-kept :
      (in_vault keys stored found : List ℕ)
      → ((a : ℕ) → elem a in_vault ≡ true → elem a stored ≡ true)
      → AllStored parse stored keys
      → AllBacked hex_address source_key in_vault keys found
      → AllIn stored found
  AllIn-kept in_vault keys stored [] kept s h = tt
  AllIn-kept in_vault keys stored (a ∷ rest) kept s (inl h, t) =
      (kept a h, AllIn-kept in_vault keys stored rest kept s t)
  AllIn-kept in_vault keys stored (a ∷ rest) kept s (inr (f, key, g, m), t) =
      let (k, p) = reads f a key g in
      (stored_key parse stored keys key a k s m p, AllIn-kept in_vault keys stored rest kept s t)

  finish :
      (written : Bool) (nonce prefix : ℕ) (fields : List ℕ) (r : Sources) (s : Store)
      (answer : Store × Result VaultError (List Entry))
      → import_keys derive seal opens parse written nonce prefix trading r.new_keys s ≡ answer
      → OnFields hex_address source_key (addresses s.wallets) [] fields (ok r)
      → Resolved fields (imported r.found answer)
  finish written nonce prefix fields r s (s', err e) h o = tt
  finish written nonce prefix fields r s (s', ok added) h (l, d, b) =
      let result = import_keys derive seal opens parse written nonce prefix trading r.new_keys s in
      let fine : result.1 ≡ ok added = ap (λ x. x.1) h in
      let stored =
        import_keys-AllStored derive seal opens parse written nonce prefix trading r.new_keys s
          added fine in
      let in_result =
        AllIn-kept (addresses s.wallets) r.new_keys (addresses result.0.wallets) r.found
          (λ a k.
            import_keys-kept derive seal opens parse written nonce prefix trading r.new_keys s added
              a fine k)
          stored b in
      (refl, l, d, subst (λ x. AllIn (addresses x.0.wallets) r.found) h in_result)

  import_sources-Resolved :
      (written : Bool) (nonce prefix : ℕ) (fields : List ℕ) (r : Sources) (s : Store)
      → OnFields hex_address source_key (addresses s.wallets) [] fields (ok r)
      → Resolved fields (import_sources derive seal opens parse written nonce prefix r s)
  unfolding import_sources
  import_sources-Resolved written nonce prefix fields r s (l, d, b) =
      elim (Bool-cases (length r.new_keys == 0)) [
        | inl e ↦ rw e (
          refl,
          l,
          d,
          AllIn-kept (addresses s.wallets) r.new_keys (addresses s.wallets) r.found (λ a k. k)
              (none_new parse (addresses s.wallets) r.new_keys e) b,
        )
        | inr e ↦
            let result =
              import_keys derive seal opens parse written nonce prefix trading r.new_keys s in
            let same : import_sources derive seal opens parse written nonce prefix r s
                ≡ imported r.found result =
              rw (e, import_private_keys) refl in
            subst (Resolved fields) (sym same)
              (finish written nonce prefix fields r s result refl (l, d, b))
      ]

-- Where the vault reads a key that the input spells as a key of the same address, the wallets that
-- resolve without an error are one for each field, at least one and at most the limit, all different,
-- identified by their addresses, and all in the vault afterwards, imported or from before.
pub resolve_withdraw_sources-Resolved :
    (hex_address : ℕ → Option ℕ) (source_key : ℕ → Option (ℕ × ℕ)) (derive : ℕ → ℕ → ℕ)
    (seal : ℕ → ℕ → List Entry → List ℕ) (opens : ℕ → List ℕ → Option (List Entry))
    (parse : ℕ → Option (ℕ × ℕ)) (written : Bool) (nonce prefix : ℕ) (fields : List ℕ)
    (s s' : Store) (found ids : List ℕ)
    → ((f a key : ℕ) → source_key f ≡ some (a, key) → (k : ℕ) × (parse key ≡ some (a, k)))
    → resolve_withdraw_sources derive seal opens parse hex_address source_key written nonce prefix
        fields s
      ≡ (s', ok (found, ids))
    → (0 < length found)
      × (length found ≤ max_funding_targets)
      × Resolved fields (s', ok (found, ids))
unfolding resolve_withdraw_sources
resolve_withdraw_sources-Resolved hex_address source_key derive seal opens parse written nonce
      prefix fields s s' found ids reads h =
    elim (Result-cases (resolve_fields hex_address source_key (addresses s.wallets) [] fields)) [
      | inr (e, g) ↦ absurd (ground arith)
      | inl (r, g) ↦
          let o : OnFields hex_address source_key (addresses s.wallets) [] fields (ok r) =
            subst (OnFields hex_address source_key (addresses s.wallets) [] fields) g
              (resolve_fields-OnFields hex_address source_key (addresses s.wallets) [] fields) in
          let same : import_sources derive seal opens parse written nonce prefix r s
              ≡ (s', ok (found, ids)) =
            ground arith in
          let resolved : Resolved fields (s', ok (found, ids)) = subst (Resolved fields) same (
            import_sources-Resolved hex_address source_key derive seal opens parse reads written
              nonce prefix fields r s o) in
          let some_fields : 0 < length fields = ground arith in
          let few_fields : length fields ≤ max_funding_targets = ground arith in
          (ground (arith, resolved), ground (arith, resolved), resolved)
    ]
