-- ===== src/Protocol/Batcher/Header.antt =====
-- The batch header in memory.
use real_time_market_data_fe.Base.{
  ℕ, ◌^◌, ◌<◌, ◌≡◌, refl, subst, append_assoc, List, ◌++◌, length, drop, drop-append_length,
}
use real_time_market_data_fe.Protocol.Wire.{put_le, drop-put_le, get_le-put_le}
use real_time_market_data_fe.Protocol.Batcher.{
  BatchHeader, batch_header_size, batch_header_bytes, decode_batch_header,
}

BatchHeader_ext :
    (m n : BatchHeader)
    → m.seq_num ≡ n.seq_num
    → m.msg_count ≡ n.msg_count
    → m.total_len ≡ n.total_len
    → m ≡ n
BatchHeader_ext m n a b c = λ i. record { seq_num = a i; msg_count = b i; total_len = c i }

pub length-batch_header_bytes :
    (h : BatchHeader) → length (batch_header_bytes h) ≡ batch_header_size
unfolding batch_header_bytes put_le
length-batch_header_bytes h = refl

pub drop-batch_header_bytes :
    (h : BatchHeader) (rest : List ℕ) → drop batch_header_size (batch_header_bytes h ++ rest) ≡ rest
drop-batch_header_bytes h rest =
    subst (λ n. drop n (batch_header_bytes h ++ rest) ≡ rest) (length-batch_header_bytes h)
      (drop-append_length (batch_header_bytes h) rest)

-- The header's fields fit their types.
abbrev pub HeaderFits : BatchHeader → Type 0
HeaderFits h = (h.seq_num < 256 ^ 8) × (h.msg_count < 256 ^ 2) × (h.total_len < 256 ^ 2)

pub decode_batch_header_lem :
    (h : BatchHeader) (rest : List ℕ)
    → HeaderFits h
    → decode_batch_header (batch_header_bytes h ++ rest) ≡ h
unfolding decode_batch_header batch_header_bytes
decode_batch_header_lem h rest f =
    simp (append_assoc, drop-put_le)
      (BatchHeader_ext _ _ (get_le-put_le 8 h.seq_num _ f.0) (get_le-put_le 2 h.msg_count _ f.1)
        (get_le-put_le 2 h.total_len _ f.2))
