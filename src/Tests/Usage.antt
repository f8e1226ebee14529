-- ===== src/Tests/Usage.antt =====
-- Two samples of one session.
use masih_panel.Traffic.Access.{credit_permitted}
use masih_panel.Traffic.Credit.{credit_stale, timeless, at_clock, without_times}
use masih_panel.Base.Int.{pos}
use masih_panel.Tx.{ok, settle, ◌>>=◌}
use masih_panel.Traffic.Sums.{total}
use masih_panel.Traffic.Accounts.{credit-IsAccounted, IsAccounted}
use masih_panel.Traffic.{client_row, permitted, Client, Panel, credit}
use masih_panel.Base.{[], ◌≡◌, ◌∷◌, map, refl, true, arith, String}

abbrev panel : Panel
panel = record {
  clients =
      record {
        id = 3;
        created_at = 9;
        email = "ali";
        enable = true;
        expiry_time = pos 0;
        total_gb = 100;
      }
      ∷ [];
  traffics =
      record {
        email = "ali";
        up = 40;
        down = 7;
        expiry_time = pos 0;
        enable = true;
        last_online = 0;
      }
      ∷ [];
  accounts = record { client_id = 3; generation = 9; username = "mc-1" } ∷ [];
  sessions = [];
  clock_ms = 5000;
}

-- a stand-in for the digest of the sessions' names
abbrev plain : String → String
plain s = s

abbrev counted : Panel
counted = settle panel (credit plain "mc-1" "l2tp" "s" (pos 30) (pos 20) panel)

counts : credit plain "mc-1" "l2tp" "s" (pos 30) (pos 20) panel ≡ ok (tt, counted)
unfolding credit ◌>>=◌
counts = refl

-- The quota of 100 bytes is not used up yet.
lasts : map (λ (r : Client). permitted 6000 (client_row counted r)) counted.clients ≡ true ∷ []
unfolding credit ◌>>=◌
lasts = refl

credit_stale_example :
    timeless (credit plain "mc-1" "l2tp" "s" (pos 30) (pos 4) (at_clock 9000000 counted))
    ≡ ok (tt, without_times counted)
credit_stale_example =
    credit_stale plain "mc-1" "l2tp" "s" (pos 30) (pos 20) (pos 30) (pos 4) 9000000 panel counted
      counts (omega arith) (omega arith) (omega arith) (omega arith)

panel-IsAccounted : IsAccounted 40 7 panel
unfolding total
panel-IsAccounted = record { keys = λ key. omega arith; up = refl; down = refl }

credit-IsAccounted_example :
    IsAccounted 40 7 (settle panel (credit plain "mc-1" "l2tp" "s" (pos 30) (pos 20) panel))
credit-IsAccounted_example =
    credit-IsAccounted 40 7 plain "mc-1" "l2tp" "s" (pos 30) (pos 20) panel panel-IsAccounted

abbrev ali : Client
ali = record {
  id = 3;
  created_at = 9;
  email = "ali";
  enable = true;
  expiry_time = pos 0;
  total_gb = 100;
}

may_connect : permitted 6000 (client_row counted ali) ≡ true
unfolding credit ◌>>=◌
may_connect = refl

credit_permitted_example : permitted 6000 (client_row panel ali) ≡ true
credit_permitted_example =
    credit_permitted plain "mc-1" "l2tp" "s" (pos 30) (pos 20) 6000 ali panel may_connect
