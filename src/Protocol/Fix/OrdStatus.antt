-- ===== src/Protocol/Fix/OrdStatus.antt =====
-- The values of tag 39.
use Prim.Native.Nat.{ℕ}

abbrev pub new : ℕ
new = b'0'

abbrev pub partial_fill : ℕ
partial_fill = b'1'

abbrev pub filled : ℕ
filled = b'2'

abbrev pub cancelled : ℕ
cancelled = b'4'

abbrev pub rejected : ℕ
rejected = b'8'

abbrev pub pending_new : ℕ
pending_new = b'A'

abbrev pub pending_cancel : ℕ
pending_cancel = b'6'
