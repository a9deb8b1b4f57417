-- ===== src/Protocol/Fix/Gateway.antt =====
-- `FixGateway` of `include/qf/protocol/fix/fix_gateway.hpp`: the session, the buffer that cuts
-- messages out of the TCP stream, order entry and execution reports. The execution report callback
-- is the log `reports`. `double`s are their bit patterns; `std::stod` and the printing of a price
-- are parameters, as are the clocks.
use real_time_market_data_fe.Base.{
  ℕ, zero, suc, ◌+◌, ◌-◌, ◌*◌, ◌/◌, ◌%◌, ◌^◌, ◌<◌, ◌≤◌, ◌≡◌, ◌≢◌, ◌∙◌, refl, sym, ap, subst, ◌==◌,
  ltb, leb, ◌&&◌, ◌||◌, if◌then◌else◌, Option-cases, Bool, true, false, Bool-cases, ◌⊎◌, inl, inr,
  Option, none, some, List, [], ◌∷◌, ◌++◌, append-nil, append_assoc, arith, All, length,
  length-append, take, drop, min, max, flatten, map,
}
pub mod CancelReject
pub mod Orders
use real_time_market_data_fe.Protocol.Fix.Text.{codes, same}
use real_time_market_data_fe.Protocol.Fix.Decimal.{to_string}
use real_time_market_data_fe.Protocol.Fix.Message.{
  FixMessage, set_tag, set_tag_char, set_tag_uint, get_tag, get_tag_int, parse, msg_type,
  extract_message_length, front,
}
use real_time_market_data_fe.Protocol.Fix.Session.{
  FixSession, on_disconnect, send_logon, send_logout, send_app_message, of_type, is_empty,
}
use real_time_market_data_fe.Protocol.Fix.Session.Handlers.{on_message_received, check_heartbeat}
use real_time_market_data_fe.Protocol.Fix.Names
use real_time_market_data_fe.Protocol.Fix.Tag
use real_time_market_data_fe.Protocol.Fix.MsgType
use real_time_market_data_fe.Protocol.Fix.ExecType
use real_time_market_data_fe.Protocol.Fix.OrdStatus
use real_time_market_data_fe.Base.Words.{add64}

pub record ExecReport : Type 0 where
  pub cl_ord_id : List ℕ
  pub order_id : List ℕ
  pub exec_id : List ℕ
  pub symbol : List ℕ
  pub exec_type : ℕ
  pub ord_status : ℕ
  pub side : ℕ
  pub avg_px : ℕ
  pub last_px : ℕ
  pub last_qty : ℕ
  pub cum_qty : ℕ
  pub leaves_qty : ℕ
  pub text : List ℕ

pub record PendingOrder : Type 0 where
  pub symbol : List ℕ
  pub side : ℕ
  pub quantity : ℕ
  pub price : ℕ

pub record FixGateway : Type 0 where
  pub session : FixSession
  pub cl_ord_seq : ℕ
  pub pending_orders : Names.Names PendingOrder
  pub cancel_to_orig : Names.Names (List ℕ)
  pub clordid_to_internal : Names.Names ℕ
  pub recv_buf : List ℕ
  pub reports : List ExecReport

abbrev pub new_gateway : FixSession → FixGateway
new_gateway s = record {
  session = s;
  cl_ord_seq = 1;
  pending_orders = [];
  cancel_to_orig = [];
  clordid_to_internal = [];
  recv_buf = [];
  reports = [];
}

unfoldable pub map_order_id : List ℕ → ℕ → FixGateway → FixGateway
unfolding Names.assign
map_order_id id internal g = record g {
  clordid_to_internal = Names.assign id internal g.clordid_to_internal;
}

unfoldable pub get_internal_id : List ℕ → FixGateway → Option ℕ
unfolding Names.find
get_internal_id id g = Names.find id g.clordid_to_internal

-- A symbol's bytes up to the first zero.
unfoldable pub c_string : List ℕ → List ℕ
c_string [] = []
c_string (c ∷ s) = let rest = c_string s in if c == 0 then [] else c ∷ rest

abbrev pub fix_side : ℕ → ℕ
fix_side side = if side == 1 then b'1' else b'2'

abbrev pub value_or_empty : Option (List ℕ) → List ℕ
value_or_empty none = []
value_or_empty (some v) = v

abbrev pub front_or : ℕ → Option (List ℕ) → ℕ
front_or c none = c
front_or c (some []) = c
front_or c (some (d ∷ s)) = d

-- The side of a report: buy, unless the field says otherwise.
abbrev pub side_of : Option (List ℕ) → ℕ
side_of none = 1
side_of (some []) = 1
side_of (some (c ∷ s)) = if c == b'1' then 1 else 2

abbrev pub or_zero : Option ℕ → ℕ
or_zero none = 0
or_zero (some v) = v

-- `static_cast<Quantity>` of a number that may be missing.
abbrev pub quantity_or_zero : Option ℕ → ℕ
quantity_or_zero o = or_zero o % 2 ^ 32

-- The original order of a cancel, which the field names, or the report's own identifier.
abbrev pub resolved : Option (List ℕ) → List ℕ → List ℕ
resolved none own = own
resolved (some orig) own = orig

abbrev pub is_closed : ℕ → Bool
is_closed status =
    status == OrdStatus.filled || status == OrdStatus.cancelled || status == OrdStatus.rejected

module _ (stod : List ℕ → Option ℕ) where
  abbrev pub get_tag_double : ℕ → FixMessage → ℕ
  unfolding get_tag
  get_tag_double tag m = elim (get_tag tag m) [ none ↦ 0 | some v ↦ or_zero (stod v) ]

  -- The report that a message makes.
  unfoldable pub report_of : FixMessage → ExecReport
  unfolding get_tag get_tag_int
  report_of m = record {
    cl_ord_id = value_or_empty (get_tag Tag.cl_ord_id m);
    order_id = value_or_empty (get_tag Tag.order_id m);
    exec_id = value_or_empty (get_tag Tag.exec_id m);
    symbol = value_or_empty (get_tag Tag.symbol m);
    exec_type = front_or 0 (get_tag Tag.exec_type m);
    ord_status = front_or 0 (get_tag Tag.ord_status m);
    side = side_of (get_tag Tag.side m);
    avg_px = get_tag_double Tag.avg_px m;
    last_px = get_tag_double Tag.last_px m;
    last_qty = quantity_or_zero (get_tag_int Tag.last_qty m);
    cum_qty = quantity_or_zero (get_tag_int Tag.cum_qty m);
    leaves_qty = quantity_or_zero (get_tag_int Tag.leaves_qty m);
    text = value_or_empty (get_tag Tag.text m);
  }

  unfoldable pub handle_execution_report : FixMessage → FixGateway → FixGateway
  unfolding report_of Names.erase
  handle_execution_report m g =
      let r = report_of m in
      record g {
        pending_orders =
            if is_closed r.ord_status
            then Names.erase r.cl_ord_id g.pending_orders
            else g.pending_orders;
        reports = g.reports ++ (r ∷ []);
      }

-- What the cancel mapping holds for the field `OrigClOrdID`.
unfoldable pub cancelled_order : FixMessage → FixGateway → Option (List ℕ)
unfolding get_tag Names.find
cancelled_order m g = elim (get_tag Tag.orig_cl_ord_id m) [
  | none ↦ none
  | some orig ↦ Names.find orig g.cancel_to_orig
]

abbrev pub forget : Option (List ℕ) → Names.Names (List ℕ) → Names.Names (List ℕ)
forget none t = t
forget (some orig) t = Names.erase orig t

unfoldable pub handle_cancel_reject : FixMessage → FixGateway → FixGateway
unfolding get_tag cancelled_order
handle_cancel_reject m g =
    let r : ExecReport = record {
      cl_ord_id = resolved (cancelled_order m g) (value_or_empty (get_tag Tag.cl_ord_id m));
      order_id = value_or_empty (get_tag Tag.order_id m);
      exec_id = [];
      symbol = [];
      exec_type = ExecType.rejected;
      ord_status = OrdStatus.rejected;
      side = 1;
      avg_px = 0;
      last_px = 0;
      last_qty = 0;
      cum_qty = 0;
      leaves_qty = 0;
      text = value_or_empty (get_tag Tag.text m);
    } in
    record g {
      cancel_to_orig = forget (get_tag Tag.orig_cl_ord_id m) g.cancel_to_orig;
      reports = g.reports ++ (r ∷ []);
    }
