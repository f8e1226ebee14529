-- ===== src/Shop/Inbounds.antt =====
-- `resolve_inbound_ids` of runtime/sales.py: which of a plan's inbounds an order may use.
use masih_panel.Base.{
  ℕ, ◌==◌, Bool, true, if◌then◌else◌, List, [], ◌∷◌, exists, select_all, delete_where,
}
use masih_panel.Tx.{Result, ok, err, bad_inbounds, no_active_inbound}

abbrev pub has_id : ℕ → List ℕ → Bool
has_id n = exists λ m. m == n

-- `dict.fromkeys(ids)`: each number once, where it first stands
pub unique_ids : List ℕ → List ℕ
unique_ids [] = []
unique_ids (n ∷ ns) = n ∷ delete_where (λ m. m == n) (unique_ids ns)

abbrev is_bad : List ℕ → Bool
is_bad [] = true
is_bad (n ∷ ns) = exists (λ m. m == 0) (n ∷ ns)

abbrev or_no_active : List ℕ → Result (List ℕ)
or_no_active [] = err no_active_inbound
or_no_active (n ∷ ns) = ok (n ∷ ns)

-- `resolve_inbound_ids(snapshot, live)`
unfoldable pub resolve_inbound_ids : List ℕ → List ℕ → Result (List ℕ)
unfolding unique_ids
resolve_inbound_ids ids live =
    if is_bad ids
    then err bad_inbounds
    else or_no_active (select_all (λ n. has_id n live) (unique_ids ids))
