-- ===== src/Agent/Registry/Advertised.antt =====
-- What a frontend advertises under a ceiling.
use mathlib.Core.List.{Perm}
use d9c.Base.{◌≡◌, true, All, keep, keep_holds}
use d9c.Base.Sort.{sort-perm, sort-IsSorted, IsSorted, sort-All}
use d9c.Base.TextOrder.{text_le_total, text_le_trans}
use d9c.Agent.Tier.{Tier, allows}
use d9c.Agent.Registry.{Registry, allowed, name_le}

-- The operations advertised are those of the registry that the ceiling allows, each as often as it
-- is declared, ordered by name.
pub allowed_lem :
    {W : Type 0} (r : Registry W) (ceiling : Tier)
    → Perm (allowed r ceiling) (keep (λ e. allows ceiling e.1.tier) r)
      × IsSorted name_le (allowed r ceiling)
      × All (λ e. allows ceiling e.1.tier ≡ true) (allowed r ceiling)
unfolding allowed
allowed_lem r ceiling = (
  sort-perm name_le _,
  sort-IsSorted name_le (λ a b. text_le_total a.1.name b.1.name)
      (λ a b c. text_le_trans a.1.name b.1.name c.1.name) _,
  sort-All name_le _ _ (keep_holds (λ e. allows ceiling e.1.tier) r),
)
