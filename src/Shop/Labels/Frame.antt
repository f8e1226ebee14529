-- ===== src/Shop/Labels/Frame.antt =====
-- Choosing a label draws random texts and changes nothing else.
use masih_panel.Base.{ℕ, zero, suc, String}
use masih_panel.Tx.Keeps.{
  Keeps-pure, Keeps-if, Keeps-lift, Keeps-gets, Keeps-bind, Keeps, keeps_rules,
}
use masih_panel.Store.{Db}
use masih_panel.Queue.Frame.{IsQuiet, draw-Keeps}
use masih_panel.Shop.Labels.{Unicode, try_suffixes, unique_subscription_label}

module _ {P : Db → Type 0} (q : IsQuiet P) (txt : Unicode) where
  try_suffixes-Keeps : (n : ℕ) (name : String) → Keeps P (try_suffixes txt n name)
  unfolding try_suffixes
  try_suffixes-Keeps zero name = search keeps_rules
  try_suffixes-Keeps (suc n) name = Keeps-bind _ _ (draw-Keeps q) λ suffix.
      Keeps-bind _ _ (Keeps-gets _)
        λ taken. Keeps-if _ _ _ (try_suffixes-Keeps n name) (Keeps-pure _)

  pub unique_label-Keeps : (preferred : String) → Keeps P (unique_subscription_label txt preferred)
  unfolding unique_subscription_label
  unique_label-Keeps preferred = Keeps-bind _ _ (Keeps-lift _) λ name.
      Keeps-bind _ _ (Keeps-gets _)
        λ taken. Keeps-if _ _ _ (try_suffixes-Keeps 64 name) (Keeps-pure _)
