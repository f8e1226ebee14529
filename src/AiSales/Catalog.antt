-- ===== src/AiSales/Catalog.antt =====
-- What the admin sells, in runtime/ai_commerce.py: `plan`, `model`, `stock`.
use Prim.Native.Char.{code, Char}
use masih_panel.Queue.{audit}
use masih_panel.Base.Text.{str, nonempty}
use masih_panel.Tx.{
  bad_code, plan_missing, when, integrity, bad_plan, require, bad_number, modify, raise_if, gets,
  ◌>>◌, ◌>>=◌, pure, Tx,
}
use masih_panel.AiSales.Models.{select_model}
use masih_panel.Store.{StockCode, Db, AiKind, AiFamily, Modality, AiPlan}
use masih_panel.Shop.Labels.{all_chars, char_count, Unicode}
use masih_panel.Base.{
  ◌&&◌, ◌&&◌, ◌&&◌, ◌&&◌, ◌&&◌, ◌&&◌, ◌&&◌, ◌&&◌, ◌&&◌, ◌&&◌, ◌&&◌, ◌&&◌, ◌&&◌, ◌&&◌, ◌&&◌, ◌&&◌,
  ◌&&◌, ◌&&◌, ◌&&◌, ◌&&◌, ◌&&◌, ◌&&◌, ◌&&◌, ◌&&◌, ◌&&◌, ◌&&◌, ◌&&◌, ◌&&◌, ◌&&◌, ◌&&◌, ◌&&◌, ◌&&◌,
  ◌&&◌, ◌&&◌, ◌&&◌, ◌&&◌, ◌&&◌, ◌&&◌, ◌&&◌, ◌&&◌, in_range, next_id, select_one, str_eq, insert_row,
  update_where, count, exists, [], none, false, if◌then◌else◌, ◌&&◌, ◌||◌, some, ◌∷◌, true, String,
  leb, not, ◌==◌, Option, Bool, List, ℕ,
}

-- The fields of a plan's form; `id` is missing for a new plan, a missing model is the stored one.
pub record AiPlanForm : Type 0 where
  pub id : Option ℕ
  pub model_id : ℕ
  pub name : String
  pub kind : Option AiKind
  pub price : ℕ
  pub days : ℕ
  pub credits : Modality → ℕ
  pub active : Bool
  pub model_for : Modality → Option String

abbrev pub is_bot : AiKind → Bool
is_bot AiKind.bot = true
is_bot _ = false

abbrev pub is_ready : AiKind → Bool
is_ready AiKind.ready = true
is_ready _ = false

abbrev pub is_personal : AiKind → Bool
is_personal AiKind.personal = true
is_personal _ = false

abbrev pub is_ai_plan : ℕ → AiPlan → Bool
is_ai_plan pid p = p.id == pid

abbrev any_credit : (Modality → ℕ) → Bool
any_credit credits =
    not (credits Modality.text == 0)
    || not (credits Modality.image == 0)
    || not (credits Modality.video == 0)

-- the plan that a form edits
pub previous_plan : Option ℕ → Tx Db (Option AiPlan)
previous_plan none = pure none
previous_plan (some ident) = do
  raise_if (ident == 0) bad_number
  p ← require plan_missing (λ d. select_one (is_ai_plan ident) d.ai.plans)
  pure (some p)

abbrev stored_model : Option AiPlan → Modality → String
stored_model none op = ""
stored_model (some p) op = p.model_for op

abbrev given_model : (Modality → Option String) → Option AiPlan → Modality → String
given_model form previous op = elim (form op) [ none ↦ stored_model previous op | some key ↦ key ]

abbrev ai_plan_row : ℕ → AiPlanForm → AiKind → String → (Modality → String) → AiPlan
ai_plan_row ident form kind name models = record {
  id = ident;
  model_id = form.model_id;
  name = name;
  kind = kind;
  price = form.price;
  days = form.days;
  credits = form.credits;
  active = form.active;
  model_for = models;
}

-- `UPDATE` of the plan that is edited, or `INSERT` and its `lastrowid`
pub write_ai_plan : Option AiPlan → (ℕ → AiPlan) → Tx Db ℕ
write_ai_plan (some p) row = do
  modify (λ d. record d {
    ai = record d.ai { plans = update_where (is_ai_plan p.id) (λ _. row p.id) d.ai.plans };
  })
  pure p.id
write_ai_plan none row = do
  ident ← gets (λ d. next_id (λ (p : AiPlan). p.id) d.ai.plans)
  modify (λ d. record d { ai = record d.ai { plans = insert_row (row ident) d.ai.plans } })
  pure ident

abbrev pub is_family : ℕ → AiFamily → Bool
is_family ident f = f.id == ident

-- `<`, `>`, `{` or `}`
abbrev is_markup : Char → Bool
is_markup c = code c == 60 || code c == 62 || code c == 123 || code c == 125

module _ (txt : Unicode) where
  -- one round of the loop over the modalities
  pub choose_model : AiKind → String → Modality → Tx Db String
  unfolding select_model
  choose_model kind given op = do
    let key = txt.strip given
    when (is_bot kind && nonempty key) (select_model key op >> pure tt)
    raise_if (not (is_bot kind) && nonempty key) bad_plan
    pure key

  -- `plan(c, details)`
  unfoldable pub plan : AiPlanForm → Tx Db ℕ
  unfolding previous_plan choose_model write_ai_plan
  plan form = do
    let name = txt.strip form.name
    raise_if
        (not (
          in_range 0 1000000000 form.price
          && in_range 1 730 form.days
          && in_range 1 100000000 form.model_id))
        bad_number
    kind ← require bad_plan (λ d. form.kind)
    raise_if (not (in_range 2 80 (char_count name))) bad_plan
    known ← gets (λ d. exists (is_family form.model_id) d.ai.families)
    raise_if (not known) plan_missing
    raise_if
        (not (
          leb (form.credits Modality.text) 1000000
          && leb (form.credits Modality.image) 1000000
          && leb (form.credits Modality.video) 1000000))
        bad_number
    raise_if (not (is_bot kind) && any_credit form.credits) bad_plan
    previous ← previous_plan form.id
    text_key ← choose_model kind (given_model form.model_for previous Modality.text) Modality.text
    image_key ←
        choose_model kind (given_model form.model_for previous Modality.image) Modality.image
    video_key ←
        choose_model kind (given_model form.model_for previous Modality.video) Modality.video
    ident ← write_ai_plan previous (λ n. ai_plan_row n form kind name (λ op. elim op [
      | Modality.text ↦ text_key
      | Modality.image ↦ image_key
      | Modality.video ↦ video_key
    ]))
    audit "ai_plan_change" (str ident)
    pure ident

  pub rename_family : ℕ → String → Bool → Tx Db ℕ
  rename_family ident label active = do
    changed ← gets (λ d. count (is_family ident) d.ai.families)
    raise_if (changed == 0) plan_missing
    taken ← gets (λ d. exists (λ f. str_eq f.name label && not (f.id == ident)) d.ai.families)
    raise_if taken integrity
    modify (λ d. record d {
      ai = record d.ai {
        families =
            update_where (is_family ident) (λ f. record f { name = label; active = active })
              d.ai.families;
      };
    })
    pure ident

  pub new_family : String → Tx Db ℕ
  new_family label = do
    taken ← gets (λ d. exists (λ f. str_eq f.name label) d.ai.families)
    raise_if taken integrity
    ident ← gets (λ d. next_id (λ (f : AiFamily). f.id) d.ai.families)
    modify (λ d. record d {
      ai = record d.ai {
        families = insert_row (record { id = ident; name = label; active = true }) d.ai.families;
      };
    })
    pure ident

  -- `model(c, details)`: number 0 or none is a new family
  unfoldable pub model : Option ℕ → String → Bool → Tx Db ℕ
  unfolding rename_family new_family
  model ident name active = do
    let label = txt.strip name
    raise_if
        (not (in_range 2 70 (char_count label)) || not (all_chars (λ c. not (is_markup c)) label))
        bad_plan
    elim ident [
      | none ↦ new_family label
      | some n ↦ if n == 0 then new_family label else rename_family n label active
    ]

-- whether the text begins with the characters of these code points
abbrev begins : List ℕ → String → Bool
begins [] s = true
begins (c ∷ cs) String.[] = false
begins (c ∷ cs) (String.◌∷◌ x s) = code x == c && begins cs s

pub contains_codes : List ℕ → String → Bool
contains_codes word String.[] = begins word ""
contains_codes word (String.◌∷◌ x s) = begins word (String.◌∷◌ x s) || contains_codes word s

-- `password`, and the word for it in Persian
abbrev password_word : List ℕ
password_word = 112 ∷ 97 ∷ 115 ∷ 115 ∷ 119 ∷ 111 ∷ 114 ∷ 100 ∷ []

abbrev persian_word : List ℕ
persian_word = 0x67e ∷ 0x633 ∷ 0x648 ∷ 0x631 ∷ 0x62f ∷ []

abbrev pub stock_row : ℕ → ℕ → String → ℕ → StockCode
stock_row ident pid delivery_code at = record {
  id = ident;
  plan_id = pid;
  delivery_code = delivery_code;
  order_id = none;
  added = at;
  delivered = none;
}

-- `stock(c, details)`
unfoldable pub stock : Unicode → ℕ → String → Tx Db ℕ
unfolding contains_codes
stock txt pid delivery_code = do
  raise_if (pid == 0) bad_number
  p ← require bad_plan (λ d. select_one (is_ai_plan pid) d.ai.plans)
  raise_if (not (is_ready p.kind)) bad_plan
  raise_if
      (not (in_range 4 250 (char_count (txt.strip delivery_code)))
        || contains_codes (10 ∷ []) delivery_code)
      bad_code
  raise_if
      (contains_codes (b'@' ∷ []) delivery_code
        || contains_codes password_word (txt.lower delivery_code)
        || contains_codes persian_word delivery_code)
      bad_code
  ident ← gets (λ d. next_id (λ (x : StockCode). x.id) d.ai.stock)
  modify (λ d. record d {
    ai = record d.ai {
      stock = insert_row (stock_row ident pid (txt.strip delivery_code) d.clock) d.ai.stock;
    };
  })
  pure ident
