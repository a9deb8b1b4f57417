-- ===== src/Protocol/Fix/MsgType.antt =====
-- The values of tag 35.
use Prim.Native.Nat.{ℕ}

abbrev pub heartbeat : ℕ
heartbeat = b'0'

abbrev pub test_request : ℕ
test_request = b'1'

abbrev pub resend_request : ℕ
resend_request = b'2'

abbrev pub reject : ℕ
reject = b'3'

abbrev pub sequence_reset : ℕ
sequence_reset = b'4'

abbrev pub logout : ℕ
logout = b'5'

abbrev pub logon : ℕ
logon = b'A'

abbrev pub new_order_single : ℕ
new_order_single = b'D'

abbrev pub order_cancel_request : ℕ
order_cancel_request = b'F'

abbrev pub execution_report : ℕ
execution_report = b'8'

abbrev pub order_cancel_reject : ℕ
order_cancel_reject = b'9'
