-- ===== src/Control/Validation/Bundling.antt =====
-- internal/control/models.go, internal/ponsmm/config.go: spellings of a bundle mode that is off.
use pons_mm_desktop.Prelude.{
  ◌≡◌, refl, sym, ap, ◌∙◌, arith, Bool, true, false, ◌||◌, not, [], if◌then◌else◌,
}
use pons_mm_desktop.Prelude.Result.{Result, ok, err, ◌>>◌, then-ok}
use pons_mm_desktop.Mm.Config.{
  Config, ConfigError, BundleText, none_text, bundle_mode_name, check_bundle, check_values,
  check_response, validate,
}
use pons_mm_desktop.Control.Validation.{
  Draft, DraftError, existing, bundle_needs_launch, bundling, check_selected, demand, check_fields,
  from_config, is_launch, bad_router, validate_strategy,
}

abbrev pub with_mode : BundleText → Draft → Draft
with_mode m d = record d { config = record d.config { bundle_mode = m } }

-- To the engine, a mode that is off is the same in all four spellings: "", "none", "off" and "false".
validate-off :
    (c : Config) (launching : Bool) (m : BundleText)
    → bundle_mode_name m ≡ none_text
    → validate (record c { bundle_mode = m }) launching
      ≡ validate (record c { bundle_mode = none_text }) launching
unfolding validate check_bundle bundle_mode_name check_values check_response
validate-off c launching m h = rw (h, validate, check_bundle) refl

-- Where the other parts of a sequence succeed, it comes to the one that is left.
one-left :
    (fields test router checked selected : Result DraftError (Unit {0}))
    → fields ≡ ok tt
    → router ≡ ok tt
    → checked ≡ ok tt
    → selected ≡ ok tt
    → fields >> test >> router >> checked >> selected ≡ test
one-left fields (ok tt) router checked selected f r c s = rw (f, r, c, s) refl
one-left fields (err e) router checked selected f r c s = rw f refl

config-ok : (r : Result ConfigError (Unit {0})) → from_config r ≡ ok tt → r ≡ ok tt
config-ok (ok tt) h = refl
config-ok (err e) h = ground (arith, h)

refused-test :
    (b : Bool)
    → demand (not b || false) bundle_needs_launch ≡ (if b then err bundle_needs_launch else ok tt)
refused-test true = refl
refused-test false = refl

-- An existing strategy that is accepted with the mode "none" is refused as a bundled launch when the
-- mode is spelled "off" or "false", although the engine accepts the configuration and bundles nothing.
pub validate_strategy-off :
    (d : Draft) (m : BundleText)
    → d.mode ≡ existing
    → bundle_mode_name m ≡ none_text
    → validate_strategy (with_mode none_text d) ≡ ok tt
    → (validate (with_mode m d).config false ≡ ok tt)
      × (validate_strategy (with_mode m d)
          ≡ (if bundling m then err bundle_needs_launch else ok tt))
unfolding validate_strategy check_fields
validate_strategy-off d m mode same accepted =
    let fields = check_fields d in
    let test = demand (is_launch d.mode) bundle_needs_launch in
    let router = demand d.router_valid bad_router in
    let off_config = (with_mode none_text d).config in
    let on_config = (with_mode m d).config in
    let selected = check_selected [] d.wallet_ids in
    let tested = demand (not (bundling none_text) || is_launch d.mode) bundle_needs_launch in
    let checked = from_config (validate off_config (is_launch d.mode)) in
    let h1 = then-ok (fields >> tested >> router >> checked) selected accepted in
    let h2 = then-ok (fields >> tested >> router) checked h1.0 in
    let h3 = then-ok (fields >> tested) router h2.0 in
    let h4 = then-ok fields tested h3.0 in
    let was_ok : validate off_config false ≡ ok tt =
      ap (λ z. validate off_config (is_launch z)) (sym mode)
      ∙ config-ok (validate off_config (is_launch d.mode)) h2.1 in
    let now_ok : validate on_config false ≡ ok tt = validate-off d.config false m same ∙ was_ok in
    (
      now_ok,
      one-left fields (demand (not (bundling m) || is_launch d.mode) bundle_needs_launch) router
            (from_config (validate on_config (is_launch d.mode))) selected h4.0 h3.1
            (ap (λ z. from_config (validate on_config (is_launch z))) mode ∙ ap from_config now_ok)
            h1.1
          ∙ (ap (λ z. demand (not (bundling m) || is_launch z) bundle_needs_launch) mode
              ∙ refused-test (bundling m)),
    )
