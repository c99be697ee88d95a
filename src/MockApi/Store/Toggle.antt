-- ===== src/MockApi/Store/Toggle.antt =====
-- Enabling and disabling a spec.
use tunnelgate.Prelude.{
  Bool, true, false, ◌≡◌, ◌≢◌, arith, if◌then◌else◌, ℕ_eq, ◌∙◌, ◌&&◌, sym, ap, inl, inr,
}
use tunnelgate.Text.{Text, text_eq, text_eq_iff}
use tunnelgate.MockApi.Types.{StoredApi}
use tunnelgate.MockApi.Store.{same_route, Column, mock_column, proxy_column, toggle_row}
use tunnelgate.MockApi.Store.Exclusive.{IsTold, is_active, Apart}

pub toggle_row_fields :
    (column : Column) (enabled : Bool) (timestamp : Text) (target api : StoredApi)
    → ((toggle_row column enabled timestamp target api).internal_id ≡ api.internal_id)
      × ((toggle_row column enabled timestamp target api).id ≡ api.id)
      × ((toggle_row column enabled timestamp target api).method ≡ api.method)
      × ((toggle_row column enabled timestamp target api).route_path ≡ api.route_path)
unfolding toggle_row
toggle_row_fields mock_column enabled timestamp target api = ground arith
toggle_row_fields proxy_column enabled timestamp target api = ground arith

-- Which rows are active after a spec is enabled.
pub toggle_row_other :
    (column : Column) (timestamp : Text) (target api : StoredApi)
    → api.id ≢ target.id
    → api.internal_id ≢ target.internal_id
    → is_active (toggle_row column true timestamp target api)
      ≡ (if same_route target.method target.route_path api then false else is_active api)
unfolding toggle_row
toggle_row_other mock_column timestamp target api h k = ground (arith, text_eq_iff api.id target.id)
toggle_row_other proxy_column timestamp target api h k =
    ground (arith, text_eq_iff api.id target.id)

-- Disabling a spec activates nothing.
toggle_row_disabled :
    (column : Column) (timestamp : Text) (target api : StoredApi)
    → is_active (toggle_row column false timestamp target api) ≡ true
    → is_active api ≡ true
unfolding toggle_row
toggle_row_disabled mock_column timestamp target api h = ground arith
toggle_row_disabled proxy_column timestamp target api h = ground arith

-- Two rows that are told from the target and from one another stay so.
toggle_row-routes :
    (column : Column) (enabled : Bool) (timestamp : Text) (target a b : StoredApi)
    → Apart a b
    → IsTold target a
    → IsTold target b
    → a.method ≡ b.method
    → a.route_path ≡ b.route_path
    → (is_active (toggle_row column enabled timestamp target a)
        && is_active (toggle_row column enabled timestamp target b))
      ≡ false
toggle_row-routes column false timestamp target a b apart ta tb m p = ground (
  arith,
  apart.routes m p,
  toggle_row_disabled column timestamp target a,
  toggle_row_disabled column timestamp target b,
)
toggle_row-routes column true timestamp target a b apart (inl e) (inl f) m p =
    absurd (apart.ids (ap (λ (r : StoredApi). r.id) (e ∙ sym f)))
toggle_row-routes column true timestamp target a b apart (inl e) (inr (f, g)) m p =
    let route : same_route target.method target.route_path b ≡ true =
      rw (← e)
        (ground (arith, text_eq_iff b.method a.method, text_eq_iff b.route_path a.route_path)) in
    ground (arith, toggle_row_other column timestamp target b f g)
toggle_row-routes column true timestamp target a b apart (inr (f, g)) (inl e) m p =
    let route : same_route target.method target.route_path a ≡ true =
      rw (← e)
        (ground (arith, text_eq_iff a.method b.method, text_eq_iff a.route_path b.route_path)) in
    ground (arith, toggle_row_other column timestamp target a f g)
toggle_row-routes column true timestamp target a b apart (inr (f, g)) (inr (h, k)) m p = ground (
  arith,
  apart.routes m p,
  toggle_row_other column timestamp target a f g,
  toggle_row_other column timestamp target b h k,
)

abbrev pub IsReady : StoredApi → StoredApi → StoredApi → Type 0
IsReady target a b = Apart a b × IsTold target a × IsTold target b

pub toggle_row-Apart :
    (column : Column) (enabled : Bool) (timestamp : Text) (target a b : StoredApi)
    → IsReady target a b
    → Apart
        (toggle_row column enabled timestamp target a)
        (toggle_row column enabled timestamp target b)
toggle_row-Apart column enabled timestamp target a b (apart, ta, tb) =
    let (ia, pa, ma, ra) = toggle_row_fields column enabled timestamp target a in
    let (ib, pb, mb, rb) = toggle_row_fields column enabled timestamp target b in
    record {
      internal_ids = λ e. apart.internal_ids (sym ia ∙ e ∙ ib);
      ids = λ e. apart.ids (sym pa ∙ e ∙ pb);
      routes = λ m p.
          toggle_row-routes column enabled timestamp target a b apart ta tb (sym ma ∙ m ∙ mb)
            (sym ra ∙ p ∙ rb);
    }
