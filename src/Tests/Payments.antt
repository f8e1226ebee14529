-- ===== src/Tests/Payments.antt =====
-- A payment over a gateway in the small shop.
use masih_panel.Wallet.Frame.{IsBooked-aside}
use masih_panel.Tests.Sales.{shop-IsBooked}
use masih_panel.Wallet.Books.{IsBooked}
use masih_panel.Base.Int.{pos, ◌+ℤ◌}
use masih_panel.Queue.{enqueue}
use masih_panel.Tx.{gateway_refused, ok, err, ◌>>=◌, settle}
use masih_panel.Base.{[], ◌∷◌, arith, true, map, refl, false, none, ◌≡◌, some}
use masih_panel.Wallet.{money}
use masih_panel.Store.{User, Db}
use masih_panel.Shop.Payments.{payment_verify, Gateway, payment_create}
use masih_panel.Shop.Payments.Verified.{
  payment_verify-IsBooked, payment_verify_once, payment_create_once, payment_verify_effect,
  IsVerified,
}
use masih_panel.Tests.{shop}

abbrev gateway : Gateway
gateway = record {
  ask = λ merchant rial reference.
      some (record { code = 100; authority = "A000000001"; ref_id = "" });
  confirm = λ merchant rial authority. some (record { code = 100; authority = ""; ref_id = "77" });
}

-- a gateway that is out of reach
abbrev silent : Gateway
silent = record { ask = λ merchant rial reference. none; confirm = λ merchant rial authority. none }

abbrev asked : Db
asked = settle shop (payment_create gateway 1 5000 "pay1" shop)

asks : payment_create gateway 1 5000 "pay1" shop ≡ ok ("A000000001", asked)
unfolding payment_create ◌>>=◌
asks = refl

abbrev charged : Db
charged = settle asked (payment_verify gateway "A000000001" asked)

charges : payment_verify gateway "A000000001" asked ≡ ok (true, charged)
unfolding payment_create payment_verify money enqueue ◌>>=◌ ◌+ℤ◌
charges = refl

credits : map (λ (u : User). u.balance) charged.users ≡ pos 5500 ∷ []
unfolding payment_create payment_verify money enqueue ◌>>=◌ ◌+ℤ◌
credits = refl

refuses : payment_verify silent "A000000001" asked ≡ err gateway_refused
unfolding payment_create payment_verify ◌>>=◌
refuses = refl

payment_verify_effect_example : IsVerified gateway "A000000001" asked charged
payment_verify_effect_example = payment_verify_effect gateway "A000000001" asked charged charges

payment_verify_once_example : payment_verify silent "A000000001" charged ≡ ok (false, charged)
payment_verify_once_example = payment_verify_once gateway silent "A000000001" asked charged charges

payment_create_once_example : payment_create silent 1 6000 "pay1" asked ≡ ok ("A000000001", asked)
payment_create_once_example =
    payment_create_once gateway silent 1 1 5000 6000 "pay1" "A000000001" shop asked asks
      (omega arith) (omega arith)

asked-IsBooked : IsBooked asked
unfolding payment_create ◌>>=◌
asked-IsBooked = IsBooked-aside shop asked refl refl shop-IsBooked

payment_verify-IsBooked_example :
    IsBooked (settle asked (payment_verify gateway "A000000001" asked))
payment_verify-IsBooked_example = payment_verify-IsBooked gateway "A000000001" asked asked-IsBooked
