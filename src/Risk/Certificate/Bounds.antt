-- ===== src/Risk/Certificate/Bounds.antt =====
-- The bounds of a certificate against the assets of the hard policy, which
-- packages/services/src/risk-service.ts compares through a map.
use aurka.Prelude.{
  suc, ◌≤◌, ◌≡◌, refl, ◌∙◌, ap, subst, true, false, not, List, [], ◌∷◌, none, some, ok, arith,
  throw_if_inv, length, All, le→leb,
}
use aurka.Prelude.Text.{Text, lower_case, text_eq→eq, text_eq_refl}
use aurka.Price.{same_text}
use aurka.Watchtower.{WatchtowerBound}
use aurka.Risk.{AssetBound, risk_certificate_widens_policy}
use aurka.Risk.Certificate.{hard_of, has_token, map_size, is_within, check_within, check_order}

-- A bound for the same token as an asset, inside its bounds.
pub record IsInside (bound : WatchtowerBound) (asset : AssetBound) : Type 0 where
  pub same_token : lower_case bound.token ≡ lower_case asset.token
  pub above : asset.minimum_weight_bps ≤ bound.minimum_weight_bps
  pub below : bound.maximum_weight_bps ≤ asset.maximum_weight_bps

-- Each bound is inside the asset at its place, and there is one for each.
abbrev pub AreInside : List WatchtowerBound → List AssetBound → Type 0
AreInside [] [] = Unit
AreInside [] (a ∷ more) = ⊥
AreInside (b ∷ bs) [] = ⊥
AreInside (b ∷ bs) (a ∷ more) = IsInside b a × AreInside bs more

-- No two assets have one token, as treasuryPolicySchema has it.
abbrev pub AreDistinct : List AssetBound → Type 0
AreDistinct [] = Unit
AreDistinct (a ∷ more) = (has_token a.token more ≡ false) × AreDistinct more

hard_of-lower :
    (s t : Text) (assets : List AssetBound)
    → lower_case s ≡ lower_case t
    → hard_of s assets ≡ hard_of t assets
unfolding hard_of
hard_of-lower s t [] e = refl
hard_of-lower s t (a ∷ more) e = rw (hard_of-lower s t more e) (rw e refl)

hard_of_absent :
    (token : Text) (assets : List AssetBound)
    → has_token token assets ≡ false
    → hard_of token assets ≡ none
unfolding hard_of has_token
hard_of_absent token [] h = refl
hard_of_absent token (a ∷ more) h = ground (arith, hard_of_absent token more)

abbrev IsFound : List AssetBound → AssetBound → Type 0
IsFound assets a = hard_of a.token assets ≡ some a

later-IsFound :
    (a : AssetBound) (assets rest : List AssetBound)
    → All (IsFound assets) rest
    → All (IsFound (a ∷ assets)) rest
unfolding hard_of
later-IsFound a assets [] h = tt
later-IsFound a assets (b ∷ rest) h = (rw h.0 refl, later-IsFound a assets rest h.1)

-- Among distinct assets the map gives each its own.
pub All-IsFound : (assets : List AssetBound) → AreDistinct assets → All (IsFound assets) assets
unfolding hard_of
All-IsFound [] h = tt
All-IsFound (a ∷ more) h = (
  rw (hard_of_absent a.token more h.0) (rw (text_eq_refl (lower_case a.token)) refl),
  later-IsFound a more more (All-IsFound more h.1),
)

pub map_size-AreDistinct :
    (assets : List AssetBound) → AreDistinct assets → map_size assets ≡ length assets
unfolding map_size
map_size-AreDistinct [] h = refl
map_size-AreDistinct (a ∷ more) h = rw h.0 (ap suc (map_size-AreDistinct more h.1))

is_within-IsInside :
    (bound : WatchtowerBound) (asset : AssetBound)
    → lower_case bound.token ≡ lower_case asset.token
    → is_within bound (some asset) ≡ true
    → IsInside bound asset
unfolding is_within
is_within-IsInside bound asset same h = record {
  same_token = same;
  above = ground arith;
  below = ground arith;
}

-- Two loops and a count establish the pairing.
pub checked-AreInside :
    (bounds : List WatchtowerBound) (rest assets : List AssetBound)
    → All (IsFound assets) rest
    → length bounds ≡ length rest
    → check_within bounds assets ≡ ok tt
    → check_order bounds rest ≡ ok tt
    → AreInside bounds rest
unfolding check_within check_order
checked-AreInside [] [] assets found counted within ordered = tt
checked-AreInside [] (a ∷ rest) assets found counted within ordered = absurd (omega arith)
checked-AreInside (b ∷ bounds) [] assets found counted within ordered = absurd (omega arith)
checked-AreInside (b ∷ bounds) (a ∷ rest) assets found counted within ordered =
    let (inside, within') =
      throw_if_inv (not (is_within b (hard_of b.token assets))) risk_certificate_widens_policy _
        within in
    let (in_place, ordered') =
      throw_if_inv (not (same_text b.token a.token)) risk_certificate_widens_policy _ ordered in
    let same : lower_case b.token ≡ lower_case a.token = text_eq→eq _ _ (ground arith) in
    let own : hard_of b.token assets ≡ some a =
      hard_of-lower b.token a.token assets same ∙ found.0 in
    (
      is_within-IsInside b a same (subst (λ o. is_within b o ≡ true) own (ground arith)),
      checked-AreInside bounds rest assets found.1 (omega arith) within' ordered',
    )

-- The other way round, both loops pass.
pub AreInside-checked :
    (bounds : List WatchtowerBound) (rest assets : List AssetBound)
    → All (IsFound assets) rest
    → AreInside bounds rest
    → (check_within bounds assets ≡ ok tt)
      × (check_order bounds rest ≡ ok tt)
      × (length bounds ≡ length rest)
unfolding check_within check_order is_within
AreInside-checked [] [] assets found inside = (refl, refl, refl)
AreInside-checked [] (a ∷ rest) assets found inside = absurd inside
AreInside-checked (b ∷ bounds) [] assets found inside = absurd inside
AreInside-checked (b ∷ bounds) (a ∷ rest) assets found inside =
    let (within, ordered, counted) = AreInside-checked bounds rest assets found.1 inside.1 in
    let own : hard_of b.token assets ≡ some a =
      hard_of-lower b.token a.token assets inside.0.same_token ∙ found.0 in
    let low = le→leb _ _ inside.0.above in
    let high = le→leb _ _ inside.0.below in
    (
      rw own (rw low (rw high within)),
      rw inside.0.same_token (rw (text_eq_refl (lower_case a.token)) ordered),
      ap suc counted,
    )
