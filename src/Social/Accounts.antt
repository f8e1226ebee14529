-- ===== src/Social/Accounts.antt =====
-- `by_code`, `_adjust_info` and `adjust_account` of runtime/social.py.
pub mod Funds
use Prim.Native.Char.{Char, code}
use masih_panel.Base.Int.{ℤ, pos, neg, ◌+ℤ◌, ltb_ℤ, leb_ℤ}
use masih_panel.Base.Text.{str}
use masih_panel.Loyalty.{balance, has_points_reference, with_points}
use masih_panel.Queue.{audit, button, enqueue}
use masih_panel.Shop.Labels.{Unicode, all_chars, char_count}
use masih_panel.Wallet.{is_user, money}
use masih_panel.Tx.{
  Tx, bad_public_code, no_account, bad_amount, bad_request, bad_note, bad_manager, request_reused,
  balance_mismatch, insufficient_funds, integrity, pure, gets, require, ◌>>=◌, ◌>>◌, raise_if,
  modify,
}
use masih_panel.Store.{Db, AdminOperation, Adjusted, Notice, account}
use masih_panel.Base.{
  ℕ, ◌==◌, leb, ltb, in_range, Bool, true, false, not, ◌&&◌, ◌||◌, if◌then◌else◌, String, str_eq,
  ◌<>◌, starts_with, [], ◌∷◌, Option, none, some, select_one, insert_row,
}

pub record Adjustment : Type 0 where
  pub code : String
  pub operation : AdminOperation
  pub amount : ℕ
  pub request_id : String
  pub note : String
  pub manager : String

-- the answer, without the fields that repeat the request
pub record Answered : Type 0 where
  pub applied : Bool
  pub before : ℤ
  pub after : ℤ

abbrev is_digit : Char → Bool
is_digit c = leb 48 (code c) && leb (code c) 57

abbrev is_upper_hex : Char → Bool
is_upper_hex c = is_digit c || leb 65 (code c) && leb (code c) 70

abbrev drop_three : String → String
drop_three (String.◌∷◌ a (String.◌∷◌ b (String.◌∷◌ c s))) = s
drop_three _ = ""

-- `MS-[0-9A-F]{8}`
pub is_public_code : String → Bool
unfolding char_count
is_public_code s =
    starts_with s "MS-" && char_count s == 11 && all_chars is_upper_hex (drop_three s)

-- `[a-zA-Z0-9_-]{16,64}`
abbrev is_request_char : Char → Bool
is_request_char c =
    is_digit c
    || leb 65 (code c) && leb (code c) 90
    || leb 97 (code c) && leb (code c) 122
    || code c == 95
    || code c == 45

abbrev is_note_char : Char → Bool
is_note_char c = leb 32 (code c) || code c == 10 || code c == 9

-- `by_code(c, code)`
unfoldable pub by_code : String → Tx Db ℕ
unfolding is_public_code
by_code public_code = do
  raise_if (not (is_public_code public_code)) bad_public_code
  p ← require no_account (λ d. select_one (λ p. str_eq p.code public_code) d.social.profiles)
  pure p.user_id

abbrev same_operation : AdminOperation → AdminOperation → Bool
same_operation AdminOperation.points_add AdminOperation.points_add = true
same_operation AdminOperation.points_sub AdminOperation.points_sub = true
same_operation AdminOperation.wallet_add AdminOperation.wallet_add = true
same_operation AdminOperation.wallet_sub AdminOperation.wallet_sub = true
same_operation _ _ = false

abbrev pub on_points : AdminOperation → Bool
on_points AdminOperation.points_add = true
on_points AdminOperation.points_sub = true
on_points _ = false

-- `AMOUNT_MAX`
abbrev amount_max : AdminOperation → ℕ
amount_max op = if on_points op then 1000000 else 1000000000

-- `sign*amount`
abbrev pub signed : AdminOperation → ℕ → ℤ
signed AdminOperation.points_add n = pos n
signed AdminOperation.points_sub n = neg n
signed AdminOperation.wallet_add n = pos n
signed AdminOperation.wallet_sub n = neg n

abbrev operation_name : AdminOperation → String
operation_name AdminOperation.points_add = "points_add"
operation_name AdminOperation.points_sub = "points_sub"
operation_name AdminOperation.wallet_add = "wallet_add"
operation_name AdminOperation.wallet_sub = "wallet_sub"

-- `_adjust_info(c, uid)[column]`
pub adjust_info : ℕ → Bool → Tx Db ℤ
unfolding balance
adjust_info uid points = do
  u ← require no_account (λ d. select_one (is_user uid) d.users)
  held ← gets (balance uid)
  pure (if points then held else u.balance)

abbrev pub has_request : String → Adjusted → Bool
has_request request r = str_eq r.request_id request

-- a request that is known already
pub answer_again : ℕ → Adjustment → Adjusted → Tx Db Answered
answer_again uid a r = do
  raise_if
      (not (r.user_id == uid)
        || not (same_operation r.operation a.operation)
        || not (r.amount == a.amount)
        || not (str_eq r.manager a.manager))
      request_reused
  pure (record { applied = false; before = r.before; after = r.after })

abbrev pub adjust_key : String → String
adjust_key request = "social:admin-adjust:" <> request

-- the row in the ledger of the money or of the points
pub move_balance : ℕ → AdminOperation → ℕ → String → Tx Db (Unit {0})
unfolding money
move_balance uid op amount request =
    if on_points op
    then (do
      taken ← gets (λ d. has_points_reference (adjust_key request) d.loyalty_points)
      raise_if taken integrity
      modify (with_points uid (signed op amount) "social_admin" (adjust_key request)))
    else money uid (signed op amount) ("social_admin_" <> operation_name op) (adjust_key request)

abbrev adjusted_row : ℕ → Adjustment → ℤ → ℤ → String → ℕ → Adjusted
adjusted_row uid a before after note at = record {
  request_id = a.request_id;
  manager = a.manager;
  user_id = uid;
  operation = a.operation;
  amount = a.amount;
  before = before;
  after = after;
  note = note;
  created = at;
}

abbrev with_adjusted : (ℕ → Adjusted) → Db → Db
with_adjusted row d = record d {
  social = record d.social { adjusted = insert_row (row d.clock) d.social.adjusted };
}

pub adjust_new : ℕ → Adjustment → String → Tx Db Answered
unfolding adjust_info move_balance
adjust_new uid a note = do
  before ← adjust_info uid (on_points a.operation)
  let after = before +ℤ signed a.operation a.amount
  raise_if (ltb_ℤ after (pos 0)) insufficient_funds
  move_balance uid a.operation a.amount a.request_id
  actual ← adjust_info uid (on_points a.operation)
  raise_if (not (leb_ℤ actual after && leb_ℤ after actual)) balance_mismatch
  modify (with_adjusted (adjusted_row uid a before after note))
  enqueue (account uid) (Notice.account_adjusted (operation_name a.operation) a.amount after note)
      ((button "my profile" "soc:profile" ∷ button "main menu" "home" ∷ []) ∷ [])
      (some ("social:admin-adjust-notice:" <> a.request_id)) true
  audit ("social_admin_" <> operation_name a.operation)
      (a.manager <> " | " <> a.code <> " | " <> str a.amount <> " | " <> a.request_id)
  pure (record { applied = true; before = before; after = after })

abbrev again_or_new : ℕ → Adjustment → String → Option Adjusted → Tx Db Answered
again_or_new uid a note none = adjust_new uid a note
again_or_new uid a note (some r) = answer_again uid a r

-- `adjust_account(c, code, operation, amount, request_id, note, manager)`
unfoldable pub adjust_account : Unicode → Adjustment → Tx Db Answered
unfolding by_code answer_again adjust_new
adjust_account txt a = do
  uid ← by_code a.code
  raise_if (not (in_range 1 (amount_max a.operation) a.amount)) bad_amount
  raise_if
      (not (in_range 16 64 (char_count a.request_id) && all_chars is_request_char a.request_id))
      bad_request
  raise_if (ltb 200 (char_count a.note) || not (all_chars is_note_char a.note)) bad_note
  raise_if (not (in_range 1 65 (char_count a.manager))) bad_manager
  previous ← gets (λ d. select_one (has_request a.request_id) d.social.adjusted)
  again_or_new uid a (txt.strip a.note) previous
