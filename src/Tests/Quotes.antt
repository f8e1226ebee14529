-- ===== src/Tests/Quotes.antt =====
-- A quote and its purchase in the small shop.
use masih_panel.Queue.{draw}
use masih_panel.Base.Int.{◌+ℤ◌}
use masih_panel.Tests.Sales.{shop-IsStocked}
use masih_panel.Shop.Inbounds.{resolve_inbound_ids}
use masih_panel.Shop.Quotes.Purchases.{purchase_quote-IsStocked}
use masih_panel.Base.Text.{take_chars, str}
use masih_panel.Wallet.{money}
use masih_panel.Shop.Checkout.{order}
use masih_panel.Shop.Labels.{unique_subscription_label}
use masih_panel.Tx.{bad_label, err, ok, ◌>>=◌, settle}
use masih_panel.Store.{Order, Db}
use masih_panel.Shop.Quotes.{purchase_quote, quote}
use masih_panel.Base.{[], ◌∷◌, map, refl, ◌≡◌, false, some, String}
use masih_panel.Shop.Checkout.Limits.{IsStocked}
use masih_panel.Tests.{ascii, shop}

abbrev quoted : Db
quoted = settle shop (quote ascii 1 10 "" 1 (some "phone") shop)

quotes_one : quote ascii 1 10 "" 1 (some "phone") shop ≡ ok ("0", quoted)
unfolding quote unique_subscription_label ◌>>=◌ str
quotes_one = refl

buys_quote :
    map (λ (o : Order). o.id) (settle quoted (purchase_quote ascii 1 "0" false quoted)).orders
    ≡ "quote:0:0" ∷ []
unfolding quote purchase_quote order money unique_subscription_label resolve_inbound_ids ◌>>=◌ ◌+ℤ◌
    str
buys_quote = refl

-- The name of 50 letters is taken, the quote for it is accepted, and its purchase is refused.
abbrev long_name : String
long_name = "aaaaaaaaaaaaaaaaaaaaaaaaaaaaaaaaaaaaaaaaaaaaaaaaaa"

-- random texts of five characters, as those of the suffixes are
abbrev taken : Db
taken =
    settle (record shop { random = λ n. "bbbbb" })
      (quote ascii 1 10 "" 1 (some long_name) (record shop { random = λ n. "bbbbb" }))

abbrev renamed : Db
renamed =
    settle (record taken { random = λ n. "ccccc" })
      (quote ascii 1 10 "" 1 (some long_name) (record taken { random = λ n. "ccccc" }))

cannot_buy : purchase_quote ascii 1 "ccccc" false renamed ≡ err bad_label
unfolding quote purchase_quote order money unique_subscription_label resolve_inbound_ids draw
    take_chars ◌>>=◌ ◌+ℤ◌ str
cannot_buy = refl

purchase_quote-IsStocked_example : IsStocked (settle shop (purchase_quote ascii 1 "0" false shop))
purchase_quote-IsStocked_example = purchase_quote-IsStocked ascii 1 "0" false shop shop-IsStocked
