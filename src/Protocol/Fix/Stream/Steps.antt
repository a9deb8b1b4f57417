-- ===== src/Protocol/Fix/Stream/Steps.antt =====
-- One round of the gateway's loop on the buffer, and the texts that it cuts.
use real_time_market_data_fe.Base.{
  ℕ, zero, suc, ◌^◌, ◌<◌, ◌≤◌, ◌≡◌, ◌∙◌, refl, sym, ap, ◌==◌, false, Bool-cases, inl, inr, Option,
  some, List, [], ◌∷◌, ◌++◌, append-nil, arith, length, drop, take-append_length,
  drop-append_length,
}
use real_time_market_data_fe.Protocol.Fix.Message.{
  FixMessage, serialize, parse, body, extract_message_length, msg_type,
}
use real_time_market_data_fe.Protocol.Fix.Message.Framing.{
  extract-append, extract-le_length, extract-serialize, serialize-length,
}
use real_time_market_data_fe.Protocol.Fix.Session.{FixSession, is_empty}
use real_time_market_data_fe.Protocol.Fix.Session.Handlers.{on_message_received}
use real_time_market_data_fe.Protocol.Fix.MsgType
use real_time_market_data_fe.Protocol.Fix.Gateway.{
  cancelled_order, FixGateway, handle_execution_report, handle_cancel_reject,
}
use real_time_market_data_fe.Protocol.Fix.Stream.{take_messages, receive, on_app_message}

-- Two ways to cut one text.
pub cut :
    (u v s t : List ℕ)
    → s ++ t ≡ u ++ v
    → length u ≤ length s
    → (s ≡ u ++ drop (length u) s) × (drop (length u) s ++ t ≡ v)
cut [] v s t e h = (refl, e)
cut (a ∷ u) v [] t e h = absurd (omega arith)
cut (a ∷ u) v (b ∷ s) t e h =
    let ih = cut u v s t (ap (λ (l : List ℕ). drop 1 l) e) (omega arith) in (cc ih.0, ih.1)

pub serialize-nonempty : (m : FixMessage) → 0 < length (serialize m)
serialize-nonempty m = omega (arith, serialize-length m [], ap length (append-nil (serialize m)))

pub body-short : (m : FixMessage) → length (serialize m) ≤ 2 ^ 20 → length (body m) < 2 ^ 31
body-short m small = omega (arith, serialize-length m [], ap length (append-nil (serialize m)))

nothing : (n k : ℕ) → (0 < n → k ≡ n) → n < k → n ≡ 0
nothing zero k f lt = refl
nothing (suc n) k f lt = absurd (omega (arith, f (omega arith)))

-- Nothing is complete in a proper prefix of a serialized message.
pub extract-partial :
    (m : FixMessage) (p t rest : List ℕ)
    → length (serialize m) ≤ 2 ^ 20
    → p ++ t ≡ serialize m ++ rest
    → length p < length (serialize m)
    → extract_message_length p ≡ 0
extract-partial m p t rest small e short =
    let whole : serialize m ≡ p ++ drop (length p) (serialize m) =
      (cut p t (serialize m) rest (sym e) (omega arith)).0 in
    let q : List ℕ = drop (length p) (serialize m) in
    let end : extract_message_length (p ++ q) ≡ length (serialize m) =
      ap extract_message_length (sym whole ∙ sym (append-nil (serialize m)))
      ∙ extract-serialize m [] (body-short m small)
          (omega (arith, ap length (append-nil (serialize m)))) in
    nothing (extract_message_length p) (extract_message_length (p ++ q)) (extract-append p q)
      (omega (arith, end, extract-le_length p))

report :
    (stod : List ℕ → Option ℕ) (m : FixMessage) (g : FixGateway) (b : List ℕ)
    → handle_execution_report stod m (record g { recv_buf = b })
      ≡ record (handle_execution_report stod m g) { recv_buf = b }
unfolding handle_execution_report
report stod m g b = refl

reject :
    (m : FixMessage) (g : FixGateway) (b : List ℕ)
    → handle_cancel_reject m (record g { recv_buf = b })
      ≡ record (handle_cancel_reject m g) { recv_buf = b }
unfolding handle_cancel_reject cancelled_order
reject m g b = refl

not_empty : (s t : List ℕ) → 0 < length s → is_empty (s ++ t) ≡ false
not_empty [] t h = absurd (omega arith)
not_empty (c ∷ s) t h = refl

not_zero : (n : ℕ) → 0 < n → (n == 0) ≡ false
not_zero n h = ground arith

module _ (steady now_ns : ℕ → ℕ) (sending_time : ℕ → List ℕ) (stod : List ℕ → Option ℕ) where
  on_app_message-buffer :
      (m : FixMessage) (g : FixGateway) (b : List ℕ)
      → on_app_message steady now_ns sending_time stod m (record g { recv_buf = b })
        ≡ record (on_app_message steady now_ns sending_time stod m g) { recv_buf = b }
  unfolding on_app_message
  on_app_message-buffer m g b = elim (Bool-cases (msg_type m == MsgType.execution_report)) [
    | inl y ↦ rw (y, on_app_message) (report stod m g b)
    | inr n ↦ elim (Bool-cases (msg_type m == MsgType.order_cancel_reject)) [
      | inl y ↦ rw (n, on_app_message) (rw (y, on_app_message) (reject m g b))
      | inr n' ↦ rw (n, on_app_message) (rw (n', on_app_message) refl)
    ]
  ]

  -- A message is received in the same way whatever the buffer holds.
  pub receive-buffer :
      (m : FixMessage) (g : FixGateway) (b : List ℕ)
      → receive steady now_ns sending_time stod m (record g { recv_buf = b })
        ≡ record (receive steady now_ns sending_time stod m g) { recv_buf = b }
  unfolding receive
  receive-buffer m g b =
      let s : FixSession = on_message_received steady now_ns sending_time m g.session in
      elim (Bool-cases (length s.delivered == length g.session.delivered)) [
        | inl y ↦ rw (y, receive) refl
        | inr n ↦ rw (n, receive) (on_app_message-buffer m (record g { session = s }) b)
      ]

  pub take_messages-none :
      (fuel : ℕ) (g : FixGateway)
      → extract_message_length g.recv_buf ≡ 0
      → take_messages steady now_ns sending_time stod fuel g ≡ g
  unfolding take_messages
  take_messages-none zero g e = refl
  take_messages-none (suc fuel) g e =
      rw (e, take_messages)
        (elim (Bool-cases (is_empty g.recv_buf)) [ inl y ↦ rw y refl | inr n ↦ rw n refl ])

  -- `buf` is the buffer's first message and what stands behind it.
  pub take_messages-some :
      (fuel : ℕ) (g : FixGateway) (first rest : List ℕ) (m : FixMessage)
      → g.recv_buf ≡ first ++ rest
      → extract_message_length (first ++ rest) ≡ length first
      → 0 < length first
      → parse first ≡ some m
      → take_messages steady now_ns sending_time stod (suc fuel) g
        ≡ take_messages steady now_ns sending_time stod fuel
            (record (receive steady now_ns sending_time stod m g) { recv_buf = rest })
  unfolding take_messages
  take_messages-some fuel g first rest m e n pos f =
      rw (e, take_messages)
        (rw n (
          rw (take-append_length first rest) (
            rw f (
              rw (drop-append_length first rest)
                (rw (not_empty first rest pos) (rw (not_zero (length first) pos) refl))))))
