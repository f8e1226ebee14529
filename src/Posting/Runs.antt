-- ===== src/Posting/Runs.antt =====
-- Everything that happens to the posts of runtime/channel_manager.py: rounds, presses and texts of anybody,
-- in any order, each in its own transaction.
use masih_panel.Social.Chat.{is_admin}
use masih_panel.Base.{ℕ, ◌≡◌, sym, subst, true, String, List, [], All, arith}
use masih_panel.Posting.{Outside}
use masih_panel.Posting.Desk.{admin_callback}
use masih_panel.Posting.Desks.{admin_callback-IsOrderly, admin_input-IsOrderly}
use masih_panel.Posting.Input.{admin_input}
use masih_panel.Posting.Kept.{IsOrderly}
use masih_panel.Posting.Orderly.{is_among, Orderly, is_signed}
use masih_panel.Posting.Round.{tick}
use masih_panel.Posting.Rounds.{tick-IsOrderly}
use masih_panel.Shop.Labels.{Unicode}
use masih_panel.Store.{Db}
use masih_panel.Tx.{settle}
use masih_panel.Tx.Keeps.{settle-Keeps}

-- `ever` are all who are administrators at some time.
module _ (u : Unicode) (ever : List ℕ) where
  -- One transaction; `elsewhere` is whatever the rest of the program does between two of them, which
  -- writes no post and may change the administrators.
  pub data Step : Db → Db → Type 0 where
    ticks : (o : Outside) (d : Db) → Step d (settle d (tick u o d))
    presses :
        (o : Outside) (uid : ℕ) (cmd : String) (d : Db)
        → Step d (settle d (admin_callback o uid cmd d))
    writes :
        (uid : ℕ) (state body : String) (d : Db)
        → Step d (settle d (admin_input u uid state body d))
    elsewhere :
        (d e : Db)
        → e.posting.posts ≡ d.posting.posts
        → ((uid : ℕ) → is_admin uid e.settings ≡ true → is_among uid ever ≡ true)
        → Step d e

  pub data Run : Db → Db → Type 0 where
    starts : (d : Db) → Run d d
    goes : {d e f : Db} → Run d e → Step e f → Run d f

  Step-IsOrderly : {d e : Db} → Step d e → IsOrderly ever d → IsOrderly ever e
  Step-IsOrderly (Step.ticks o d) h = settle-Keeps _ d (tick-IsOrderly ever u o) h
  Step-IsOrderly (Step.presses o uid cmd d) h =
      settle-Keeps _ d (admin_callback-IsOrderly ever o uid cmd) h
  Step-IsOrderly (Step.writes uid state body d) h =
      settle-Keeps _ d (admin_input-IsOrderly ever u uid state body) h
  Step-IsOrderly (Step.elsewhere d e same known) h = (subst (Orderly ever) (sym same) h.0, known)

  Run-IsOrderly : {d e : Db} → Run d e → IsOrderly ever d → IsOrderly ever e
  Run-IsOrderly (Run.starts d) h = h
  Run-IsOrderly (Run.goes run step) h = Step-IsOrderly step (Run-IsOrderly run h)

  start-Orderly : (d : Db) → d.posting.posts ≡ [] → Orderly ever d.posting.posts
  start-Orderly d empty = subst (Orderly ever) (sym empty) (record {
    keyed = tt;
    slotted = tt;
    taken = λ day slot. omega arith;
    signed = tt;
    rationed = λ day. omega arith;
  })

  -- From a table without posts, whatever rounds, presses and texts there are, and however the settings
  -- change between them: a post that is approved, queued, published or failed bears the number of an
  -- account in `ever`, if `ever` holds the administrators of the start and of all later settings.
  pub Run-IsSigned :
      (d e : Db)
      → d.posting.posts ≡ []
      → ((uid : ℕ) → is_admin uid d.settings ≡ true → is_among uid ever ≡ true)
      → Run d e
      → All (λ p. is_signed ever p ≡ true) e.posting.posts
  Run-IsSigned d e empty known run = (Run-IsOrderly run (start-Orderly d empty, known)).0.signed
