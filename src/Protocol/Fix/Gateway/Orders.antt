-- ===== src/Protocol/Fix/Gateway/Orders.antt =====
-- Order entry of the gateway: a new order, a cancel, and the identifiers that it gives them.
use real_time_market_data_fe.Base.{ℕ, ◌+◌, ◌==◌, if◌then◌else◌, Option, none, some, List, [], ◌++◌}
use real_time_market_data_fe.Protocol.Fix.Text.{codes}
use real_time_market_data_fe.Protocol.Fix.Decimal.{to_string}
use real_time_market_data_fe.Protocol.Fix.Message.{FixMessage, set_tag, set_tag_char, set_tag_uint}
use real_time_market_data_fe.Protocol.Fix.Session.{send_app_message, of_type}
use real_time_market_data_fe.Protocol.Fix.Gateway.{FixGateway, PendingOrder, c_string, fix_side}
use real_time_market_data_fe.Protocol.Fix.Names
use real_time_market_data_fe.Protocol.Fix.Tag
use real_time_market_data_fe.Protocol.Fix.MsgType
use real_time_market_data_fe.Base.Words.{add64}

-- What a cancel says of its order: nothing is known of one that is not pending.
abbrev pub order_or_blank : Option PendingOrder → PendingOrder
order_or_blank none = record { symbol = []; side = 1; quantity = 0; price = 0 }
order_or_blank (some o) = o

module _ (steady now_ns : ℕ → ℕ) (sending_time : ℕ → List ℕ) (price_text : ℕ → List ℕ) where
  -- The next identifier; the caller advances the two counts that it reads.
  unfoldable pub generate_cl_ord_id : FixGateway → List ℕ
  generate_cl_ord_id g =
      codes "QF-" ++ (to_string (now_ns g.session.reads) ++ (codes "-" ++ to_string g.cl_ord_seq))

  -- The gateway once an identifier and the transaction's time are read.
  abbrev pub after_identifier : FixGateway → FixGateway
  after_identifier g = record g {
    session = record (g.session) { reads = g.session.reads + 2 };
    cl_ord_seq = add64 g.cl_ord_seq 1;
  }

  unfoldable pub new_order : FixGateway → List ℕ → ℕ → ℕ → ℕ → ℕ → FixMessage
  unfolding generate_cl_ord_id set_tag set_tag_char set_tag_uint c_string
  new_order g symbol side qty price tif =
      let m = set_tag_char Tag.time_in_force tif (
        set_tag_char Tag.ord_type (if price == 0 then b'1' else b'2') (
          set_tag_uint Tag.order_qty qty (
            set_tag Tag.transact_time (sending_time (g.session.reads + 1)) (
              set_tag_char Tag.side (fix_side side) (
                set_tag Tag.symbol (c_string symbol) (
                  set_tag_char Tag.handl_inst b'1' (
                    set_tag Tag.cl_ord_id (generate_cl_ord_id g)
                      (of_type MsgType.new_order_single)))))))) in
      if price == 0 then m else set_tag Tag.price (price_text price) m

  unfoldable pub send_new_order : List ℕ → ℕ → ℕ → ℕ → ℕ → FixGateway → FixGateway × List ℕ
  unfolding generate_cl_ord_id new_order send_app_message Names.emplace
  send_new_order symbol side qty price tif g =
      let id = generate_cl_ord_id g in
      let g1 = after_identifier g in
      (
        record g1 {
          session =
              send_app_message steady now_ns sending_time (new_order g symbol side qty price tif)
                g1.session;
          pending_orders =
              Names.emplace id
                (record { symbol = symbol; side = side; quantity = qty; price = price })
                g.pending_orders;
        },
        id,
      )

  unfoldable pub cancel_request : FixGateway → List ℕ → FixMessage
  unfolding generate_cl_ord_id set_tag set_tag_char set_tag_uint c_string Names.find
  cancel_request g cl_ord_id =
      let o = order_or_blank (Names.find cl_ord_id g.pending_orders) in
      set_tag_uint Tag.order_qty o.quantity (
        set_tag Tag.transact_time (sending_time (g.session.reads + 1)) (
          set_tag_char Tag.side (fix_side o.side) (
            set_tag Tag.symbol (c_string o.symbol) (
              set_tag Tag.orig_cl_ord_id cl_ord_id (
                set_tag Tag.cl_ord_id (generate_cl_ord_id g)
                  (of_type MsgType.order_cancel_request))))))

  unfoldable pub send_cancel : List ℕ → FixGateway → FixGateway × List ℕ
  unfolding generate_cl_ord_id cancel_request send_app_message Names.assign
  send_cancel cl_ord_id g =
      let id = generate_cl_ord_id g in
      let g1 = after_identifier g in
      (
        record g1 {
          session =
              send_app_message steady now_ns sending_time (cancel_request g cl_ord_id) g1.session;
          cancel_to_orig = Names.assign id cl_ord_id g.cancel_to_orig;
        },
        id,
      )
