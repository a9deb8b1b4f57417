-- ===== src/Protocol/Fix/Stream.antt =====
-- The gateway's handlers of TCP events.
pub mod Cuts
pub mod Reassembly
pub mod EndToEnd
pub mod Steps
use real_time_market_data_fe.Base.{
  ℕ, zero, suc, ◌*◌, ◌==◌, ltb, ◌||◌, if◌then◌else◌, false, Option, none, some, List, [], ◌++◌,
  length, take, drop,
}
use real_time_market_data_fe.Protocol.Fix.Text.{codes}
use real_time_market_data_fe.Protocol.Fix.Message.{
  FixMessage, parse, msg_type, extract_message_length,
}
use real_time_market_data_fe.Protocol.Fix.Session.{on_disconnect, send_logon, send_logout, is_empty}
use real_time_market_data_fe.Protocol.Fix.Session.Handlers.{on_message_received, check_heartbeat}
use real_time_market_data_fe.Protocol.Fix.Gateway.{
  FixGateway, handle_execution_report, handle_cancel_reject,
}
use real_time_market_data_fe.Protocol.Fix.MsgType

unfoldable pub on_tcp_disconnected : FixGateway → FixGateway
unfolding on_disconnect
on_tcp_disconnected g = record g { session = on_disconnect g.session }

-- What arrives is appended to the buffer; a buffer beyond 1 MB is cleared at the end.
abbrev pub clear_overgrown : FixGateway → FixGateway
clear_overgrown g = if ltb (1024 * 1024) (length g.recv_buf) then record g { recv_buf = [] } else g

module _ (steady now_ns : ℕ → ℕ) (sending_time : ℕ → List ℕ) (stod : List ℕ → Option ℕ) where
  unfoldable pub disconnect : FixGateway → FixGateway
  unfolding send_logout
  disconnect g = record g {
    session = send_logout steady now_ns sending_time (codes "Client disconnect") g.session;
  }

  unfoldable pub on_tcp_connected : FixGateway → FixGateway
  unfolding send_logon
  on_tcp_connected g = record g { session = send_logon steady now_ns sending_time false g.session }

  -- The timer's callback.
  unfoldable pub on_heartbeat_timer : FixGateway → FixGateway
  unfolding check_heartbeat
  on_heartbeat_timer g = record g { session = check_heartbeat steady now_ns sending_time g.session }

  unfoldable pub on_app_message : FixMessage → FixGateway → FixGateway
  on_app_message m g =
      if msg_type m == MsgType.execution_report
      then handle_execution_report stod m g
      else if msg_type m == MsgType.order_cancel_reject
      then handle_cancel_reject m g
      else g

  -- The session calls `on_app_message` for the messages that it delivers.
  unfoldable pub receive : FixMessage → FixGateway → FixGateway
  receive m g =
      let s = on_message_received steady now_ns sending_time m g.session in
      let heard = record g { session = s } in
      if length s.delivered == length g.session.delivered then heard else on_app_message m heard

  abbrev pub receive_parsed : Option FixMessage → FixGateway → FixGateway
  receive_parsed none g = g
  receive_parsed (some m) g = receive m g

  -- The loop on the buffer.
  unfoldable pub take_messages : ℕ → FixGateway → FixGateway
  take_messages zero g = g
  take_messages (suc fuel) g =
      let n = extract_message_length g.recv_buf in
      let heard = receive_parsed (parse (take n g.recv_buf)) g in
      let rest = take_messages fuel (record heard { recv_buf = drop n g.recv_buf }) in
      if is_empty g.recv_buf || n == 0 then g else rest

  unfoldable pub on_tcp_data : List ℕ → FixGateway → FixGateway
  on_tcp_data bytes g =
      let buf = g.recv_buf ++ bytes in
      clear_overgrown (take_messages (length buf) (record g { recv_buf = buf }))
