-- ===== src/Financial/Asset/Rounding.antt =====
-- The rounding of the three conversions of packages/shared/src/financial.ts.
use native.Mathlib.Nat.{div-add-mod, mod-lt}
use aurka.Prelude.{
  ℕ, suc, ◌+◌, ◌*◌, ◌/◌, ◌%◌, ◌≤◌, ◌<◌, ◌≡◌, ◌↔◌, refl, sym, ◌∙◌, ap, subst, not, ok, arith,
  >>=-eq-ok, ok-injective, throw_if_inv, ◌==◌,
}
use aurka.Errors.{not_exactly_representable}
use aurka.Financial.Integer.{Num}
use aurka.Financial.Checked.Laws.{ceil_div-eq-ok}
use aurka.Financial.Asset.{
  Holding, value_fraction, calculate_asset_value, calculate_asset_value_down,
  calculate_asset_value_exact,
}

-- The rounded-up and the rounded-down value of one balance, and when the exact one is returned.
pub record AreRounded (asset : Holding) (decimals : Num) (up : ℕ) : Type 0 where
  pub down : ℕ
  pub down_reads : calculate_asset_value_down asset decimals ≡ ok down
  pub ordered : down ≤ up
  pub close : up ≤ suc down
  pub exact : (calculate_asset_value_exact asset decimals ≡ ok up) ↔ (up ≡ down)

cancel : (d a b : ℕ) → 0 < d → d * a < d * suc b → a ≤ b
cancel d a b h e = grind arith

floor_below : (n d u : ℕ) → 0 < d → n ≤ d * u → n / d ≤ u
floor_below n d u h e = let split = div-add-mod n d in cancel d (n / d) u h (grind arith)

ceiling_close : (n d u : ℕ) → 0 < d → d * u < n + d → u ≤ suc (n / d)
ceiling_close n d u h e =
    let split = div-add-mod n d in
    let small = mod-lt n h in cancel d u (suc (n / d)) h (grind arith)

exact_ceiling : (n d u : ℕ) → 0 < d → d * u < n + d → n % d ≡ 0 → u ≤ n / d
exact_ceiling n d u h e z = let split = div-add-mod n d in cancel d u (n / d) h (grind arith)

exact_remainder : (n d u : ℕ) → n ≤ d * u → u ≡ n / d → n % d ≡ 0
exact_remainder n d u e same =
    let split = div-add-mod n d in let bound = subst (λ x. n ≤ d * x) same e in omega arith

-- When the rounded-up value of a balance is returned, so is the rounded-down one, at most one
-- below it, and the exact conversion returns the rounded-up value exactly when the two agree.
pub calculate_asset_value-AreRounded :
    (asset : Holding) (decimals : Num) {up : ℕ}
    → calculate_asset_value asset decimals ≡ ok up
    → AreRounded asset decimals up
unfolding calculate_asset_value calculate_asset_value_down calculate_asset_value_exact
calculate_asset_value-AreRounded asset decimals {up} e =
    let (f, reads, up_e) = >>=-eq-ok (value_fraction asset decimals) _ e in
    let (positive, covers, tight) = ceil_div-eq-ok f.0 f.1 up_e in
    record {
      down = f.0 / f.1;
      down_reads = rw reads refl;
      ordered = floor_below f.0 f.1 up positive covers;
      close = ceiling_close f.0 f.1 up positive tight;
      exact = (
        (λ h.
            let (g, g_reads, rest) = >>=-eq-ok (value_fraction asset decimals) _ h in
            let (_, value) = throw_if_inv (not (g.0 % g.1 == 0)) not_exactly_representable _ rest in
            let same : g ≡ f = ok-injective (sym g_reads ∙ reads) in
            sym (ok-injective value) ∙ ap (λ p. p.0 / p.1) same),
        λ h. rw reads (rw (exact_remainder f.0 f.1 up covers h) (ap ok (sym h))),
      );
    }
