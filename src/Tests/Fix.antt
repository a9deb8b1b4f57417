-- ===== src/Tests/Fix.antt =====
-- FIX messages, sessions and gateways at concrete inputs.
use real_time_market_data_fe.Base.{
  ℕ, ◌*◌, ◌^◌, ◌≡◌, ◌∙◌, refl, sym, ap, subst, true, false, Option, none, some, List, [], ◌∷◌, ◌++◌,
  append-nil, append_assoc, arith, All, length, take, drop, take-append-drop, flatten, map,
}
use real_time_market_data_fe.Protocol.Fix.Text.{codes, same}
use real_time_market_data_fe.Protocol.Fix.Decimal.{decimal, to_string, int_to_string}
use real_time_market_data_fe.Protocol.Fix.Message.{
  FixMessage, serialize, parse, body, append_unless, byte_sum, checksum_text, pre_checksum,
  validate_checksum, validate_body_length, set_tag, set_tag_int, get_tag, msg_type,
}
use real_time_market_data_fe.Protocol.Fix.Message.RoundTrip.{enveloped}
use real_time_market_data_fe.Protocol.Fix.Message.Fields.{IsField}
use real_time_market_data_fe.Protocol.Fix.Message.Checks.{parse-serialize}
use real_time_market_data_fe.Protocol.Fix.Session.{
  FixSession, new_session, stamped, send_logon, logon, active,
}
use real_time_market_data_fe.Protocol.Fix.Session.Delivery.{Follows}
use real_time_market_data_fe.Protocol.Fix.Session.Handshake.{
  InStep, logon-handshake, initiator, acceptor, confirmed, greeting, reply,
}
use real_time_market_data_fe.Protocol.Fix.Session.ResetLogon.{
  reset_logon-ignored, restarted, reset_logon, noted,
}
use real_time_market_data_fe.Protocol.Fix.Session.Header.{on_wire}
use real_time_market_data_fe.Protocol.Fix.Session.Handlers.{on_message_received}
use real_time_market_data_fe.Protocol.Fix.Gateway.{ExecReport, new_gateway, handle_cancel_reject}
use real_time_market_data_fe.Protocol.Fix.Gateway.Orders.{send_cancel, generate_cl_ord_id}
use real_time_market_data_fe.Protocol.Fix.Gateway.CancelReject.{handle_cancel_reject-unresolved}
use real_time_market_data_fe.Protocol.Fix.Stream.Cuts.{stream, IsSendable}
use real_time_market_data_fe.Protocol.Fix.Stream.Reassembly.{received, feed, feed-stream}
use real_time_market_data_fe.Protocol.Fix.Stream.EndToEnd.{
  IsAppMessage, send_all, stamped_all, deliver-end_to_end,
}
use real_time_market_data_fe.Protocol.Fix.Names
use real_time_market_data_fe.Protocol.Fix.Tag

abbrev seconds : ℕ → ℕ
seconds n = n * 10 ^ 9

abbrev wall : ℕ → List ℕ
wall n = codes "20240102-10:00:00.000"

abbrev no_double : List ℕ → Option ℕ
no_double s = none

abbrev client : FixSession
client = new_session (codes "A") (codes "B") 30 0

abbrev exchange : FixSession
exchange = new_session (codes "B") (codes "A") 30 0

abbrev order : FixMessage
order = (35, codes "D") ∷ (11, codes "X1") ∷ []

order-IsFields : All IsField order
order-IsFields = ground arith

order-body : body order ≡ codes "35=D" ++ (1 ∷ (codes "11=X1" ++ (1 ∷ [])))
unfolding body append_unless int_to_string to_string decimal
order-body = refl

parse-serialize_example :
    (parse (serialize order) ≡ some (enveloped order))
    × ((validate_checksum (enveloped order) ≡ true)
        × (validate_body_length (enveloped order) ≡ true))
parse-serialize_example = parse-serialize order order-IsFields (omega (arith, ap length order-body))

order-length : length (serialize order) ≡ 33
unfolding serialize body pre_checksum checksum_text append_unless byte_sum int_to_string to_string
    decimal
order-length = refl

order-IsSendable : IsSendable order
order-IsSendable = (order-IsFields, omega (arith, order-length))

-- The message in two chunks.
abbrev chunks : List (List ℕ)
chunks = take 10 (serialize order) ∷ drop 10 (serialize order) ∷ []

two_chunks : (s : List ℕ) → flatten (take 10 s ∷ drop 10 s ∷ []) ≡ s ++ []
unfolding flatten
two_chunks s =
    sym (append_assoc (take 10 s) (drop 10 s) []) ∙ ap (λ t. t ++ []) (take-append-drop 10 s)

feed-stream_example :
    feed seconds seconds wall no_double chunks (new_gateway client)
    ≡ record (received seconds seconds wall no_double (order ∷ []) (new_gateway client)) {
      recv_buf = [];
    }
feed-stream_example =
    feed-stream seconds seconds wall no_double chunks (order ∷ []) (new_gateway client)
      (order-IsSendable, tt) (omega (arith, order-length, ap length (append-nil (serialize order))))
      (two_chunks (serialize order)) refl

client-Follows : Follows client exchange
client-Follows = record { from = refl; to = refl; expected = refl }

exchange-Follows : Follows exchange client
exchange-Follows = record { from = refl; to = refl; expected = refl }

logon-handshake_example :
    let a = client in
    let b = exchange in
    ((initiator seconds seconds wall seconds seconds wall a).sent
      ≡ [] ++ (serialize (stamped seconds seconds wall a (logon seconds seconds wall a)) ∷ []))
    × (((acceptor seconds seconds wall seconds seconds wall a b).sent
          ≡ []
            ++ (serialize (
                  stamped seconds seconds wall
                    (greeting seconds seconds wall seconds seconds wall a b)
                    (reply seconds seconds wall seconds seconds wall a b))
                ∷ []))
        × (((confirmed seconds seconds wall seconds seconds wall a b).state ≡ active)
            × (((acceptor seconds seconds wall seconds seconds wall a b).state ≡ active)
                × (((confirmed seconds seconds wall seconds seconds wall a b).heartbeat_interval_sec
                      ≡ 30)
                    × (((acceptor seconds seconds wall seconds seconds wall a
                            b).heartbeat_interval_sec
                          ≡ 30)
                        × InStep
                            (confirmed seconds seconds wall seconds seconds wall a b)
                            (acceptor seconds seconds wall seconds seconds wall a b))))))
logon-handshake_example =
    logon-handshake seconds seconds wall seconds seconds wall client exchange
      (client-Follows, exchange-Follows) refl (omega arith) (omega arith) (omega arith)
      (omega arith)

-- An exchange that has received four messages.
abbrev seasoned : FixSession
seasoned = record exchange { inbound_seq = 5 }

reset_logon-ignored_example :
    ((send_logon seconds seconds wall true client).sent
      ≡ []
        ++ (serialize (
              stamped seconds seconds wall
                (restarted seconds seconds wall client)
                (reset_logon seconds seconds wall client))
            ∷ []))
    × (on_message_received seconds seconds wall
          (on_wire seconds seconds wall
            (restarted seconds seconds wall client)
            (reset_logon seconds seconds wall client))
          seasoned
        ≡ noted seconds seconds wall seasoned)
reset_logon-ignored_example =
    reset_logon-ignored seconds seconds wall seconds seconds wall client seasoned refl refl
      (omega arith)

abbrev stamped_order : FixMessage
stamped_order = stamped seconds seconds wall client order

order-app : IsAppMessage order
unfolding msg_type get_tag
order-app = refl

stamped_order_lem :
    stamped_order
    ≡ (35, codes "D")
      ∷ (11, codes "X1")
      ∷ (49, codes "A")
      ∷ (56, codes "B")
      ∷ (34, codes "1")
      ∷ (52, wall 0)
      ∷ []
unfolding stamped set_tag set_tag_int int_to_string to_string decimal
stamped_order_lem = refl

stamped-length : length (serialize stamped_order) ≡ 73
unfolding serialize body pre_checksum checksum_text append_unless byte_sum int_to_string to_string
    decimal stamped set_tag set_tag_int
stamped-length = refl

stamped-IsFields : All IsField stamped_order
stamped-IsFields = subst (All IsField) (sym stamped_order_lem) (ground arith)

stamped-IsSendable : IsSendable stamped_order
stamped-IsSendable = (stamped-IsFields, omega (arith, stamped-length))

flatten-single : (s : List ℕ) → flatten (s ∷ []) ≡ s
unfolding flatten
flatten-single s = append-nil s

deliver-end_to_end_example :
    let ms = order ∷ [] in
    let bytes = stream (stamped_all seconds seconds wall ms client) ∷ [] in
    let g = new_gateway exchange in
    ((send_all seconds seconds wall ms client).sent
      ≡ [] ++ map serialize (stamped_all seconds seconds wall ms client))
    × (((feed seconds seconds wall no_double bytes g).session.delivered
          ≡ [] ++ map enveloped (stamped_all seconds seconds wall ms client))
        × Follows
            (send_all seconds seconds wall ms client)
            (feed seconds seconds wall no_double bytes g).session)
deliver-end_to_end_example =
    deliver-end_to_end seconds seconds wall seconds seconds wall no_double (order ∷ []) client
      (new_gateway exchange) (stream (stamped_all seconds seconds wall (order ∷ []) client) ∷ [])
      client-Follows refl (order-app, tt) (stamped-IsSendable, tt) (omega arith)
      (omega (arith, stamped-length, ap length (append-nil (serialize stamped_order))))
      (flatten-single _)

abbrev no_text : ℕ → List ℕ
no_text n = []

-- The identifier of the client's first cancel, and the rejection of that cancel.
abbrev cancel_id : List ℕ
cancel_id = codes "QF-0-1"

abbrev rejection : FixMessage
rejection = (35, codes "9") ∷ (11, cancel_id) ∷ (41, codes "Q") ∷ []

cancel_id_lem :
    (send_cancel seconds seconds wall no_text (codes "Q") (new_gateway client)).1 ≡ cancel_id
unfolding send_cancel generate_cl_ord_id to_string decimal
cancel_id_lem = refl

cancel_id-fresh : same cancel_id (codes "Q") ≡ false
unfolding same
cancel_id-fresh = refl

rejection-cancel : get_tag Tag.cl_ord_id rejection ≡ some cancel_id
unfolding get_tag
rejection-cancel = refl

rejection-order : get_tag Tag.orig_cl_ord_id rejection ≡ some (codes "Q")
unfolding get_tag
rejection-order = refl

no_cancels : Names.find (codes "Q") (new_gateway client).cancel_to_orig ≡ none
unfolding Names.find
no_cancels = refl

handle_cancel_reject-unresolved_example :
    let r = send_cancel seconds seconds wall no_text (codes "Q") (new_gateway client) in
    (map (λ (x : ExecReport). x.cl_ord_id) (handle_cancel_reject rejection r.0).reports
      ≡ [] ++ (r.1 ∷ []))
    × (Names.find r.1 (handle_cancel_reject rejection r.0).cancel_to_orig ≡ some (codes "Q"))
handle_cancel_reject-unresolved_example =
    handle_cancel_reject-unresolved seconds seconds wall no_text (new_gateway client) (codes "Q")
      rejection (ap (λ t. same t (codes "Q")) cancel_id_lem ∙ cancel_id-fresh) no_cancels
      (rejection-cancel ∙ ap some (sym cancel_id_lem)) rejection-order
